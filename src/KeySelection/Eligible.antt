-- ===== src/KeySelection/Eligible.antt =====
-- What makes a key eligible for encryption, and which of the eligible ones is chosen.
use protonmail_go.Prelude.{
  ℕ, ◌≡◌, ◌≤◌, true, false, Option, none, some, List, [], ◌∷◌, All, arith, ◌⊎◌, inl, inr,
  Bool-cases, if◌then◌else◌, ◌↔◌, ◌∙◌, ap,
}
use protonmail_go.Errors.{panicked}
use protonmail_go.Result.{Result, ok, err}
use protonmail_go.Pgp.{Signature, Identity, Subkey, Entity, Key, KeyRules}
use protonmail_go.KeySelection.{
  may_encrypt, encryption_key, entity_subkey_to_key, primary_identity, primary_encrypts,
}
use protonmail_go.KeySelection.Choice.{
  Among, primary_key, IsNewest, Chooses, encryption_key-IsNewest,
}

module _ (rules : KeyRules) (now : ℕ) where
  -- A subkey for encryption: its signature has valid flags, with that for the encryption of
  -- communications, its algorithm encrypts, and the key has not expired.
  abbrev pub IsEligible : Subkey → Type 0
  IsEligible s =
      (s.sig.flags_valid ≡ true)
      × (s.sig.flag_encrypt_communications ≡ true)
      × (rules.can_encrypt s.public_key.pub_key_algo ≡ true)
      × (rules.key_expired s.public_key s.sig now ≡ false)

  -- A primary key for encryption, by the signature of its identity: one without valid flags, or one
  -- with the flag, an algorithm that encrypts, and a signature that has not expired.
  abbrev pub IsPrimaryEligible : Entity → Signature → Type 0
  IsPrimaryEligible e sig =
      (sig.flags_valid ≡ false)
      ⊎ ((sig.flag_encrypt_communications ≡ true)
          × (rules.can_encrypt e.primary_key.pub_key_algo ≡ true)
          × (rules.sig_expired sig now ≡ false))

  may_encrypt_iff : (s : Subkey) → (may_encrypt rules now s ≡ true) ↔ IsEligible s
  may_encrypt_iff s = ground arith

  primary_encrypts_iff :
      (e : Entity) (sig : Signature)
      → (primary_encrypts rules now e sig ≡ true) ↔ IsPrimaryEligible e sig
  primary_encrypts_iff e sig = ground arith

  -- An eligible subkey that no eligible one is newer than; or there is no eligible one.
  abbrev pub IsNewestEligible : List Subkey → Option Subkey → Type 0
  IsNewestEligible subkeys none = All (λ s. IsEligible s → ⊥) subkeys
  IsNewestEligible subkeys (some c) =
      Among c subkeys
      × IsEligible c
      × All (λ s. IsEligible s → s.sig.creation_time ≤ c.sig.creation_time) subkeys

  nobody_left :
      (subkeys : List Subkey)
      → All (λ s. may_encrypt rules now s ≡ false) subkeys
      → All (λ s. IsEligible s → ⊥) subkeys
  nobody_left [] h = tt
  nobody_left (s ∷ rest) (h, hs) =
      ((λ q. let m = (may_encrypt_iff s).1 q in absurd (ground arith)), nobody_left rest hs)

  not_newer :
      (n : ℕ) (subkeys : List Subkey)
      → All (λ s. may_encrypt rules now s ≡ true → s.sig.creation_time ≤ n) subkeys
      → All (λ s. IsEligible s → s.sig.creation_time ≤ n) subkeys
  not_newer n [] h = tt
  not_newer n (s ∷ rest) (h, hs) = ((λ q. h ((may_encrypt_iff s).1 q)), not_newer n rest hs)

  IsNewest-IsNewestEligible :
      (subkeys : List Subkey) (o : Option Subkey)
      → IsNewest rules now subkeys o
      → IsNewestEligible subkeys o
  IsNewest-IsNewestEligible subkeys none h = nobody_left subkeys h
  IsNewest-IsNewestEligible subkeys (some c) (among, may, all) =
      (among, (may_encrypt_iff c).0 may, not_newer c.sig.creation_time subkeys all)

  -- The primary key if it is eligible, and no key if it is not.
  abbrev pub AsksPrimary : Entity → Identity → Result (Option Key) → Type 0
  AsksPrimary e i r =
      (IsPrimaryEligible e i.self_signature × (r ≡ ok (some (primary_key e i))))
      ⊎ ((IsPrimaryEligible e i.self_signature → ⊥) × (r ≡ ok none))

  abbrev pub Selects : Entity → Result (Option Key) → Type 0
  Selects e r =
      ((c : Subkey) × IsNewestEligible e.subkeys (some c)
        × (r ≡ ok (some (entity_subkey_to_key e c))))
      ⊎ (IsNewestEligible e.subkeys none
          × ((i : Identity) → primary_identity e ≡ some i → AsksPrimary e i r)
          × (primary_identity e ≡ none → r ≡ err (panicked "nil identity")))

  asks :
      (e : Entity) (i : Identity) (r : Result (Option Key))
      → r
        ≡ ok
            (if primary_encrypts rules now e i.self_signature then some (primary_key e i) else none)
      → AsksPrimary e i r
  asks e i r h = elim (Bool-cases (primary_encrypts rules now e i.self_signature)) [
    | inl b ↦ inl (
      (primary_encrypts_iff e i.self_signature).0 b,
      h ∙ ap (λ c. ok (if c then some (primary_key e i) else none)) b,
    )
    | inr b ↦ inr (
      (λ q. let m = (primary_encrypts_iff e i.self_signature).1 q in absurd (ground arith)),
      h ∙ ap (λ c. ok (if c then some (primary_key e i) else none)) b,
    )
  ]

  Chooses-Selects :
      (e : Entity) (r : Result (Option Key))
      → Chooses rules now (IsNewest rules now e.subkeys) e (primary_encrypts rules now e) r
      → Selects e r
  Chooses-Selects e r (inl (c, newest, h)) =
      inl (c, IsNewest-IsNewestEligible e.subkeys (some c) newest, h)
  Chooses-Selects e r (inr (nobody, primary, panics)) =
      inr
        (IsNewest-IsNewestEligible e.subkeys none nobody, (λ i p. asks e i r (primary i p)), panics)

  -- encryptionKey gives a subkey whose signature has valid flags with that for the encryption of
  -- communications, whose algorithm encrypts and which has not expired, and than which no such subkey
  -- is newer. Only if there is none does it ask the primary key, and gives it if the signature of the
  -- primary identity has no valid flags, or has the flag and has not expired while the algorithm
  -- encrypts, and no key otherwise; it panics if the entity then has no identity.
  pub encryption_key-Selects : (e : Entity) → Selects e (encryption_key rules now e)
  encryption_key-Selects e =
      Chooses-Selects e (encryption_key rules now e) (encryption_key-IsNewest rules now e)
