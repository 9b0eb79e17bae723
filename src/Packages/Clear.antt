-- ===== src/Packages/Clear.antt =====
-- The session keys in the clear, which AddCleartext puts into a set.
use protonmail_go.Prelude.{
  ℕ, String, ◌≡◌, ◌≢◌, sym, ◌∙◌, ap, Option, none, some, [], ◌∷◌, ◌⊎◌, inl, inr, StringMap, lookup,
  insert, IsMap, arith, eqb, Bool-cases,
}
use protonmail_go.Errors.{Error}
use protonmail_go.Result.{ok, err, Result-cases, ok-injective}
use protonmail_go.Mail.{EncryptedKey}
use protonmail_go.Packages.Stores.{store_all, IsMadeOf, store_all-IsMadeOf}
use protonmail_go.Packages.{
  MessagePackageSet, PackedKey, PackageCrypto, pack_key, pack_keys, cipher_function_string,
}

-- The names of the ciphers AES-128, AES-192 and AES-256.
abbrev pub Names : ℕ → String → Type 0
Names c name =
    ((c ≡ 7) × (name ≡ "aes128")) ⊎ ((c ≡ 8) × (name ≡ "aes192")) ⊎ ((c ≡ 9) × (name ≡ "aes256"))

-- A cipher that is none of these.
abbrev pub IsUnnamed : ℕ → Type 0
IsUnnamed c = (c ≢ 7) × (c ≢ 8) × (c ≢ 9)

abbrev pub HasUnnamed : StringMap EncryptedKey → Type 0
HasUnnamed [] = ⊥
HasUnnamed ((att, k) ∷ rest) = IsUnnamed k.cipher_func ⊎ HasUnnamed rest

module _ (crypto : PackageCrypto) where
  -- A session key in the clear: the name of its cipher, and its bytes encoded.
  abbrev pub IsPacked : EncryptedKey → PackedKey → Type 0
  IsPacked k p = Names k.cipher_func p.algorithm × (p.key ≡ crypto.encode_to_string k.key)

  -- What is in the clear under a name: its session key, or nothing.
  abbrev pub IsPackedOf : Option EncryptedKey → Option PackedKey → Type 0
  IsPackedOf none found = found ≡ none
  IsPackedOf (some k) found = (p : PackedKey) × IsPacked k p × (found ≡ some p)

  -- The set's present session key in the clear, and those of its attachments, all and no others.
  abbrev pub AreClear : MessagePackageSet → PackedKey → StringMap PackedKey → Type 0
  AreClear set b m =
      ((k : EncryptedKey) × (set.session_key ≡ some k) × IsPacked k b)
      × ((att : String) → IsPackedOf (lookup att set.session_keys) (lookup att m))

  cipher_function_string-Names :
      (c : ℕ) (name : String) → cipher_function_string c ≡ ok name → Names c name
  unfolding cipher_function_string
  cipher_function_string-Names c name h = elim (Bool-cases (eqb c 7)) [
    | inl a ↦ inl (ground arith, sym (ok-injective (rw a at h)))
    | inr a ↦ elim (Bool-cases (eqb c 8)) [
      | inl b ↦ inr (inl (ground arith, sym (ok-injective (rw (a, b) at h))))
      | inr b ↦ elim (Bool-cases (eqb c 9)) [
        | inl d ↦ inr (inr (ground arith, sym (ok-injective (rw (a, b, d) at h))))
        | inr d ↦ cc (rw (a, b, d) at h)
      ]
    ]
  ]

  pub pack_key-IsPacked :
      (k : EncryptedKey) (p : PackedKey) → pack_key crypto k ≡ ok p → IsPacked k p
  unfolding pack_key
  pack_key-IsPacked k p h = elim (Result-cases (cipher_function_string k.cipher_func)) [
    | inl (name, e) ↦
        let made = ok-injective (rw e at h) in
        (
          cipher_function_string-Names k.cipher_func p.algorithm
              (e ∙ ap (λ (q : PackedKey). ok q.algorithm) made),
          sym (ap (λ (q : PackedKey). q.key) made),
        )
    | inr (x, e) ↦ cc (rw e at h)
  ]

  cipher_function_string-IsUnnamed :
      (c : ℕ) (x : Error) → cipher_function_string c ≡ err x → IsUnnamed c
  unfolding cipher_function_string
  cipher_function_string-IsUnnamed c x h = elim (Bool-cases (eqb c 7)) [
    | inl a ↦ cc (rw a at h)
    | inr a ↦ elim (Bool-cases (eqb c 8)) [
      | inl b ↦ cc (rw (a, b) at h)
      | inr b ↦ elim (Bool-cases (eqb c 9)) [
        | inl d ↦ cc (rw (a, b, d) at h)
        | inr d ↦ ((λ e. ground arith), (λ e. ground arith), (λ e. ground arith))
      ]
    ]
  ]

  pub pack_key-IsUnnamed :
      (k : EncryptedKey) (x : Error) → pack_key crypto k ≡ err x → IsUnnamed k.cipher_func
  unfolding pack_key
  pack_key-IsUnnamed k x h = elim (Result-cases (cipher_function_string k.cipher_func)) [
    | inl (name, e) ↦ cc (rw e at h)
    | inr (y, e) ↦ cipher_function_string-IsUnnamed k.cipher_func y e
  ]

  pub pack_keys-HasUnnamed :
      (session : StringMap EncryptedKey) (done packed : StringMap PackedKey) (x : Error)
      → pack_keys crypto session done ≡ (packed, some x)
      → HasUnnamed session
  unfolding pack_keys
  pack_keys-HasUnnamed [] done packed x h = absurd (ground arith)
  pack_keys-HasUnnamed ((a, k) ∷ rest) done packed x h = elim (Result-cases (pack_key crypto k)) [
    | inl (p, e) ↦
        inr (pack_keys-HasUnnamed rest (insert a p done) packed x (rw (pack_keys, e) at h))
    | inr (y, e) ↦ inl (pack_key-IsUnnamed k y e)
  ]

  pack_keys-eq-store_all :
      (session : StringMap EncryptedKey) (done packed : StringMap PackedKey)
      → pack_keys crypto session done ≡ (packed, none)
      → store_all (pack_key crypto) session done ≡ ok packed
  unfolding pack_keys
  pack_keys-eq-store_all [] done packed h = ground arith
  pack_keys-eq-store_all ((a, k) ∷ rest) done packed h = elim (Result-cases (pack_key crypto k)) [
    | inl (p, e) ↦
        rw e (pack_keys-eq-store_all rest (insert a p done) packed (rw (pack_keys, e) at h))
    | inr (x, e) ↦ absurd (ground arith)
  ]

  IsMadeOf-IsPackedOf :
      (o : Option EncryptedKey) (found : Option PackedKey)
      → IsMadeOf (pack_key crypto) o found
      → IsPackedOf o found
  IsMadeOf-IsPackedOf none found h = h
  IsMadeOf-IsPackedOf (some k) found (p, made, e) = (p, pack_key-IsPacked k p made, e)

  pub pack_keys-IsPackedOf :
      (session : StringMap EncryptedKey) (packed : StringMap PackedKey)
      → IsMap session
      → pack_keys crypto session [] ≡ (packed, none)
      → (att : String) → IsPackedOf (lookup att session) (lookup att packed)
  pack_keys-IsPackedOf session packed m h att =
      IsMadeOf-IsPackedOf (lookup att session) (lookup att packed) (
        store_all-IsMadeOf (pack_key crypto) session packed m
          (pack_keys-eq-store_all session [] packed h) att)
