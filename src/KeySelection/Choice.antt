-- ===== src/KeySelection/Choice.antt =====
-- Which key is chosen.
use protonmail_go.Prelude.{
  ℕ, ◌≡◌, ◌≤◌, refl, ap, ◌∙◌, if-rule, Bool, true, false, ◌&&◌, ◌||◌, Option, none, some, List, [],
  ◌∷◌, ◌++◌, ltb, eqb, if◌then◌else◌, All, arith, ◌⊎◌, inl, inr, Bool-cases,
}
use protonmail_go.Errors.{panicked}
use protonmail_go.Result.{Result, ok, err}
use protonmail_go.Pgp.{Signature, Identity, Subkey, Entity, Key, KeyRules}
use protonmail_go.KeySelection.{
  newest_subkey, may_encrypt, may_sign, encryption_key, signing_key, entity_subkey_to_key, choose,
  primary_identity, primary_encrypts, primary_signs, first_signing, primary_if, entity_to_key,
}

-- The element stands in the list, after elements without the property.
abbrev pub Among : {A : Type 0} → A → List A → Type 0
Among x [] = ⊥
Among x (y ∷ ys) = (x ≡ y) ⊎ Among x ys

-- The key that entityToKey makes.
abbrev pub primary_key : Entity → Identity → Key
primary_key e i = record {
  entity = e;
  public_key = e.primary_key;
  private_key = e.private_key;
  self_signature = i.self_signature;
  revocations = e.revocations;
}

taken : (a b : Bool) → (a && b) ≡ true → (a ≡ true) × (b ≡ true)
taken a b e = ground arith

taken-le : (m n : ℕ) → (eqb m 0 || ltb m n) ≡ true → m ≤ n
taken-le m n e = ground arith

left-le : (a : Bool) (m n : ℕ) → a ≡ true → (a && (eqb m 0 || ltb m n)) ≡ false → n ≤ m
left-le a m n h e = ground arith

differ : (a : Bool) (m n : ℕ) → a ≡ true → a ≡ false → m ≤ n
differ a m n h k = ground arith

left : (a : Bool) → (a && true) ≡ false → a ≡ false
left a e = ground arith

module _ (rules : KeyRules) (now : ℕ) where
  -- A subkey that may encrypt, and that no other such subkey is newer than; or there is none.
  abbrev pub IsNewest : List Subkey → Option Subkey → Type 0
  IsNewest subkeys none = All (λ s. may_encrypt rules now s ≡ false) subkeys
  IsNewest subkeys (some c) =
      Among c subkeys
      × (may_encrypt rules now c ≡ true)
      × All (λ s. may_encrypt rules now s ≡ true → s.sig.creation_time ≤ c.sig.creation_time)
          subkeys

  -- Beyond a candidate, the outcome is that candidate or a newest among the rest.
  abbrev Improves : Subkey → List Subkey → Option Subkey → Type 0
  Improves c rest none = ⊥
  Improves c rest (some d) =
      ((d ≡ c) ⊎ (Among d rest × (may_encrypt rules now d ≡ true)))
      × (c.sig.creation_time ≤ d.sig.creation_time)
      × All (λ s. may_encrypt rules now s ≡ true → s.sig.creation_time ≤ d.sig.creation_time) rest

  Improves-replaced :
      (c s : Subkey) (rest : List Subkey) (o : Option Subkey)
      → may_encrypt rules now s ≡ true
      → c.sig.creation_time ≤ s.sig.creation_time
      → Improves s rest o
      → Improves c (s ∷ rest) o
  Improves-replaced c s rest none may le h = elim h [ ]
  Improves-replaced c s rest (some d) may le (from, newer, all) = (
    inr (elim from [
      | inl e ↦ (inl e, ap (may_encrypt rules now) e ∙ may)
      | inr (among, m) ↦ (inr among, m)
    ]),
    omega arith,
    (λ h. newer, all),
  )

  Improves-kept :
      (c s : Subkey) (rest : List Subkey) (o : Option Subkey)
      → (may_encrypt rules now s ≡ true → s.sig.creation_time ≤ c.sig.creation_time)
      → Improves c rest o
      → Improves c (s ∷ rest) o
  Improves-kept c s rest none le h = elim h [ ]
  Improves-kept c s rest (some d) le (from, newer, all) = (
    elim from [ inl e ↦ inl e | inr (among, m) ↦ inr (inr among, m) ],
    newer,
    (λ h. let l = le h in omega arith, all),
  )

  newest_subkey-Improves :
      (c : Subkey) (subkeys : List Subkey)
      → Improves c subkeys (newest_subkey rules now (some c) c.sig.creation_time subkeys)
  unfolding newest_subkey
  newest_subkey-Improves c [] = (inl refl, omega arith, tt)
  newest_subkey-Improves c (s ∷ rest) =
      if-rule (Improves c (s ∷ rest))
        (may_encrypt rules now s
          && (eqb c.sig.creation_time 0 || ltb c.sig.creation_time s.sig.creation_time))
        (λ e.
          Improves-replaced c s rest _ (taken _ _ e).0 (taken-le _ _ (taken _ _ e).1)
            (newest_subkey-Improves s rest))
        (λ e. Improves-kept c s rest _ (λ m. left-le _ _ _ m e) (newest_subkey-Improves c rest))

  Improves-IsNewest :
      (s : Subkey) (rest : List Subkey) (o : Option Subkey)
      → may_encrypt rules now s ≡ true
      → Improves s rest o
      → IsNewest (s ∷ rest) o
  Improves-IsNewest s rest none may h = elim h [ ]
  Improves-IsNewest s rest (some d) may (from, newer, all) = (
    elim from [ inl e ↦ inl e | inr (among, m) ↦ inr among ],
    elim from [ inl e ↦ ap (may_encrypt rules now) e ∙ may | inr (among, m) ↦ m ],
    (λ h. newer, all),
  )

  IsNewest-skipped :
      (s : Subkey) (rest : List Subkey) (o : Option Subkey)
      → may_encrypt rules now s ≡ false
      → IsNewest rest o
      → IsNewest (s ∷ rest) o
  IsNewest-skipped s rest none idle all = (idle, all)
  IsNewest-skipped s rest (some d) idle (among, may, all) =
      (inr among, may, (λ h. differ _ _ _ h idle, all))

  newest_subkey-IsNewest :
      (subkeys : List Subkey) → IsNewest subkeys (newest_subkey rules now none 0 subkeys)
  unfolding newest_subkey
  newest_subkey-IsNewest [] = tt
  newest_subkey-IsNewest (s ∷ rest) =
      if-rule (IsNewest (s ∷ rest)) (may_encrypt rules now s && true)
        (λ e. Improves-IsNewest s rest _ (taken _ _ e).0 (newest_subkey-Improves s rest))
        (λ e. IsNewest-skipped s rest _ (left _ e) (newest_subkey-IsNewest rest))

  choose-primary :
      (e : Entity) (allowed : Signature → Bool) (i : Identity)
      → primary_identity e ≡ some i
      → choose rules now e none allowed
        ≡ ok (if allowed i.self_signature then some (primary_key e i) else none)
  unfolding choose primary_if entity_to_key
  choose-primary e allowed i h = elim (Bool-cases (allowed i.self_signature)) [
    | inl b ↦ rw (h, b) refl
    | inr b ↦ rw (h, b) refl
  ]

  choose-nobody :
      (e : Entity) (allowed : Signature → Bool)
      → primary_identity e ≡ none
      → choose rules now e none allowed ≡ err (panicked "nil identity")
  unfolding choose primary_if
  choose-nobody e allowed h = rw h refl

  -- A subkey with the property `P`, or, where there is none, what the primary key gives: itself if
  -- its signature allows it, no key if not, and a panic if the entity has no identity.
  abbrev pub Chooses :
      (Option Subkey → Type 0) → Entity → (Signature → Bool) → Result (Option Key) → Type 0
  Chooses P e allowed r =
      ((c : Subkey) × P (some c) × (r ≡ ok (some (entity_subkey_to_key e c))))
      ⊎ (P none
          × ((i : Identity)
              → primary_identity e ≡ some i
              → r ≡ ok (if allowed i.self_signature then some (primary_key e i) else none))
          × (primary_identity e ≡ none → r ≡ err (panicked "nil identity")))

  choose-Chooses :
      (P : Option Subkey → Type 0) (e : Entity) (allowed : Signature → Bool) (o : Option Subkey)
      → P o
      → Chooses P e allowed (choose rules now e o allowed)
  unfolding choose
  choose-Chooses P e allowed (some c) p = inl (c, p, refl)
  choose-Chooses P e allowed none p = inr (p, choose-primary e allowed, choose-nobody e allowed)

  -- encryptionKey gives a subkey that may encrypt and that no subkey that may is newer than; only
  -- if there is none does it ask the primary key, whose signature decides, and it panics if the
  -- entity then has no identity.
  pub encryption_key-IsNewest :
      (e : Entity)
      → Chooses (IsNewest e.subkeys) e (primary_encrypts rules now e) (encryption_key rules now e)
  unfolding encryption_key
  encryption_key-IsNewest e =
      choose-Chooses (IsNewest e.subkeys) e (primary_encrypts rules now e) _
        (newest_subkey-IsNewest e.subkeys)

  -- A subkey that may sign, with the subkeys before it, which may not; or there is none.
  abbrev pub IsFirst : List Subkey → Option Subkey → Type 0
  IsFirst subkeys none = All (λ s. may_sign rules now s ≡ false) subkeys
  IsFirst subkeys (some c) =
      (before after : List Subkey) × (subkeys ≡ before ++ c ∷ after)
      × All (λ s. may_sign rules now s ≡ false) before
      × (may_sign rules now c ≡ true)

  IsFirst-later :
      (s : Subkey) (rest : List Subkey) (o : Option Subkey)
      → may_sign rules now s ≡ false
      → IsFirst rest o
      → IsFirst (s ∷ rest) o
  IsFirst-later s rest none idle all = (idle, all)
  IsFirst-later s rest (some c) idle (before, after, e, all, may) =
      (s ∷ before, after, ap (s ∷◌) e, (idle, all), may)

  first_signing-IsFirst :
      (subkeys : List Subkey) → IsFirst subkeys (first_signing rules now subkeys)
  unfolding first_signing
  first_signing-IsFirst [] = tt
  first_signing-IsFirst (s ∷ rest) =
      if-rule (IsFirst (s ∷ rest)) (may_sign rules now s) (λ may. ([], rest, refl, tt, may))
        (λ idle. IsFirst-later s rest _ idle (first_signing-IsFirst rest))

  -- signingKey gives the first subkey that may sign; only if there is none does it ask the primary
  -- key.
  pub signing_key-IsFirst :
      (e : Entity)
      → Chooses (IsFirst e.subkeys) e (primary_signs rules now) (signing_key rules now e)
  unfolding signing_key
  signing_key-IsFirst e =
      choose-Chooses (IsFirst e.subkeys) e (primary_signs rules now) _
        (first_signing-IsFirst e.subkeys)
