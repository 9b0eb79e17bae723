-- ===== src/Packages/Soundness.antt =====
-- The mask of a set covers its packages, and a package in the clear has its keys beside it.
use protonmail_go.Prelude.{
  ℕ, String, ◌≡◌, refl, subst, ◌∙◌, sym, ap, true, false, ◌||◌, not, Option, none, some, [], ◌⊎◌,
  inl, inr, StringMap, IsMap, lookup, insert, lookup-insert, is_some, arith, if-rule, if◌then◌else◌,
  eq_refl,
}
use protonmail_go.Errors.{Error}
use protonmail_go.Result.{Result, ok, err, bind-rule}
use protonmail_go.Mail.{EncryptedKey}
use protonmail_go.Pgp.{Entity, Key, KeyRules}
use protonmail_go.KeySelection.{encryption_key}
use protonmail_go.Packages.Stores.{found, some-injective}
use protonmail_go.Packages.Clear.{
  AreClear, pack_key-IsPacked, pack_keys-IsPackedOf, IsUnnamed, HasUnnamed, pack_key-IsUnnamed,
  pack_keys-HasUnnamed,
}
use protonmail_go.Packages.{
  MessagePackage, MessagePackageSet, PackedKey, PackageCrypto, has_bit, set_bit, add_cleartext,
  add_internal, populate, with_attachment_keys, with_body_key, pack_key, pack_keys,
  cleartext_package, with_package, register, internal_package, serialize, serialize_keys,
  new_message_package_set,
}
use protonmail_go.Packages.Bits.{
  has_bit-set_internal, has_bit-set_cleartext, internal-set_cleartext, cleartext-set_internal,
}

module _ (crypto : PackageCrypto) where
  -- The set's present session keys are in the clear beside the packages.
  abbrev pub IsCurrent : MessagePackageSet → Type 0
  IsCurrent set =
      (b : PackedKey) × (m : StringMap PackedKey) × (set.body_key ≡ some b)
      × (set.attachment_keys ≡ some m)
      × AreClear crypto set b m

  -- An internal package whose bit is in the mask, or one in the clear whose bit is in the mask while
  -- the session keys are in the clear too.
  abbrev pub Served : MessagePackageSet → MessagePackage → Type 0
  Served set pkg =
      ((pkg.type ≡ 1) × (has_bit 1 set.type ≡ true))
      ⊎ ((pkg.type ≡ 4) × (has_bit 4 set.type ≡ true) × IsCurrent set)

  -- Every package is served, and keys that are in the clear are the present ones.
  abbrev pub IsSound : MessagePackageSet → Type 0
  IsSound set =
      IsMap set.session_keys
      × ((b : PackedKey) (m : StringMap PackedKey)
          → set.body_key ≡ some b
          → set.attachment_keys ≡ some m
          → AreClear crypto set b m)
      × ((addr : String) (pkg : MessagePackage)
          → lookup addr set.addresses ≡ some pkg
          → Served set pkg)

  pub new_message_package_set-IsSound :
      (keys : StringMap EncryptedKey) → IsMap keys → IsSound (new_message_package_set keys)
  unfolding lookup
  new_message_package_set-IsSound keys m = (m, (λ b c e f. cc), (λ addr pkg e. cc))

  -- There is no session key, or one with a cipher that has no name.
  abbrev pub HasNoClear : MessagePackageSet → Type 0
  HasNoClear set =
      (set.session_key ≡ none)
      ⊎ ((k : EncryptedKey) × (set.session_key ≡ some k)
          × (IsUnnamed k.cipher_func ⊎ HasUnnamed set.session_keys))

  -- A call that succeeds leaves a sound set in which the address has the package returned; it fails
  -- only if `F` holds.
  abbrev pub Adds : Type 0 → String → Result MessagePackage × MessagePackageSet → Type 0
  Adds F addr (err e, set) = F
  Adds F addr (ok pkg, set) = IsSound set × (lookup addr set.addresses ≡ some pkg)

found-itself :
    (addr : String) (pkg : MessagePackage) (m : StringMap MessagePackage)
    → lookup addr (insert addr pkg m) ≡ some pkg
found-itself addr pkg m =
    lookup-insert addr addr pkg m ∙ ap (λ c. if c then some pkg else lookup addr m) (eq_refl addr)

module _ (crypto : PackageCrypto) where
  insert-Adds :
      (addr : String) (pkg : MessagePackage) (old new : MessagePackageSet)
      → new.addresses ≡ insert addr pkg old.addresses
      → Served crypto new pkg
      → ((p : MessagePackage) → Served crypto old p → Served crypto new p)
      → IsMap new.session_keys
      → ((b : PackedKey) (m : StringMap PackedKey)
          → new.body_key ≡ some b
          → new.attachment_keys ≡ some m
          → AreClear crypto new b m)
      → IsSound crypto old
      → IsSound crypto new × (lookup addr new.addresses ≡ some pkg)
  insert-Adds addr pkg old new e served keep ismap clear (m, c, sound) = (
    (
      ismap,
      clear,
      λ a p h. elim (found addr a pkg p old.addresses (sym (ap (lookup a) e) ∙ h)) [
        | inl (here, same) ↦ subst (Served crypto new) same served
        | inr before ↦ keep p (sound a p before)
      ],
    ),
    ap (lookup addr) e ∙ found-itself addr pkg old.addresses,
  )

  keep_cleartext :
      (old new : MessagePackageSet)
      → new.type ≡ set_bit 4 old.type
      → IsCurrent crypto new
      → (p : MessagePackage) → Served crypto old p
      → Served crypto new p
  keep_cleartext old new e current p (inl (t, h)) =
      inl (t, ap (has_bit 1) e ∙ internal-set_cleartext old.type ∙ h)
  keep_cleartext old new e current p (inr (t, h, k)) =
      inr (t, ap (has_bit 4) e ∙ has_bit-set_cleartext old.type, current)

  -- A set that has the new package in the clear, its bit, and the keys in the clear.
  cleartext-Adds :
      (addr : String) (old new : MessagePackageSet)
      → new.addresses ≡ insert addr (cleartext_package crypto old) old.addresses
      → new.type ≡ set_bit 4 old.type
      → new.session_keys ≡ old.session_keys
      → IsCurrent crypto new
      → IsSound crypto old
      → IsSound crypto new × (lookup addr new.addresses ≡ some (cleartext_package crypto old))
  cleartext-Adds addr old new e t k current sound =
      insert-Adds addr (cleartext_package crypto old) old new e
        (inr (refl, ap (has_bit 4) t ∙ has_bit-set_cleartext old.type, current))
        (keep_cleartext old new t current)
        (subst (λ (m : StringMap EncryptedKey). IsMap m) (sym k) sound.0)
        (λ b m f g. only current b m f g) sound
    where
      only :
          IsCurrent crypto new
          → (b : PackedKey) (m : StringMap PackedKey) → new.body_key ≡ some b
          → new.attachment_keys ≡ some m
          → AreClear crypto new b m
      only (b', m', f', g', clear) b m f g =
          subst (λ x. AreClear crypto new x m) (some-injective (sym f' ∙ f))
            (subst (AreClear crypto new b') (some-injective (sym g' ∙ g)) clear)

  with_attachment_keys-Adds :
      (addr : String) (set : MessagePackageSet) (key : EncryptedKey) (b : PackedKey)
      (x : StringMap PackedKey × Option Error)
      → set.session_key ≡ some key
      → pack_key crypto key ≡ ok b
      → pack_keys crypto set.session_keys [] ≡ x
      → IsSound crypto set
      → Adds crypto (HasNoClear crypto set) addr (
          with_attachment_keys crypto
            (cleartext_package crypto set)
            (record (with_package crypto addr (cleartext_package crypto set) set) {
              body_key = some b;
            })
            x)
  unfolding with_attachment_keys
  with_attachment_keys-Adds addr set key b (packed, some e) k p h sound =
      inr (key, k, inr (pack_keys-HasUnnamed crypto set.session_keys [] packed e h))
  with_attachment_keys-Adds addr set key b (packed, none) k p h sound =
      cleartext-Adds addr set
        (record (with_package crypto addr (cleartext_package crypto set) set) {
          body_key = some b;
          attachment_keys = some packed;
        })
        refl refl refl
        (
          b,
          packed,
          refl,
          refl,
          (
            (key, k, pack_key-IsPacked crypto key b p),
            pack_keys-IsPackedOf crypto set.session_keys packed sound.0 h,
          ),
        )
        sound

  with_body_key-Adds :
      (addr : String) (set : MessagePackageSet) (key : EncryptedKey) (r : Result PackedKey)
      → set.session_key ≡ some key
      → pack_key crypto key ≡ r
      → IsSound crypto set
      → Adds crypto (HasNoClear crypto set) addr (
          with_body_key crypto
            (cleartext_package crypto set)
            (with_package crypto addr (cleartext_package crypto set) set)
            r)
  unfolding with_body_key
  with_body_key-Adds addr set key (err e) k p sound =
      inr (key, k, inl (pack_key-IsUnnamed crypto key e p))
  with_body_key-Adds addr set key (ok b) k p sound =
      with_attachment_keys-Adds addr set key b (pack_keys crypto set.session_keys []) k p refl sound

  populate-Adds :
      (addr : String) (set : MessagePackageSet) (key : Option EncryptedKey)
      → set.session_key ≡ key
      → IsSound crypto set
      → Adds crypto (HasNoClear crypto set) addr (
          populate crypto
            (cleartext_package crypto set)
            (with_package crypto addr (cleartext_package crypto set) set)
            key)
  unfolding populate
  populate-Adds addr set none k sound = inl k
  populate-Adds addr set (some key) k sound =
      with_body_key-Adds addr set key (pack_key crypto key) k refl sound

  -- The keys that are in the clear already are the present ones.
  already :
      (set : MessagePackageSet) (o : Option PackedKey) (p : Option (StringMap PackedKey))
      → set.body_key ≡ o
      → set.attachment_keys ≡ p
      → (not (is_some o) || not (is_some p)) ≡ false
      → IsSound crypto set
      → IsCurrent crypto set
  already set none p b a h sound = absurd (ground arith)
  already set (some k) none b a h sound = absurd (ground arith)
  already set (some k) (some m) b a h (ismap, clear, sound) = (k, m, b, a, clear k m b a)

  -- A sound set is one with these properties: each of its packages is internal or in the clear, with the
  -- bit of its type in the mask; with a package in the clear, the set's present session key and those
  -- of all its attachments, and no others, are in the clear beside it, each with the name of its
  -- cipher and its bytes encoded; keys that are in the clear are always the present ones; and no
  -- attachment has two keys. When AddCleartext returns a package for a sound set, the set is sound
  -- again, and has this package at the address; it returns none only if the set has no session key, or
  -- one of a session key's ciphers is none of AES-128, AES-192 and AES-256.
  pub add_cleartext-Adds :
      (addr : String) (set : MessagePackageSet)
      → IsSound crypto set
      → Adds crypto (HasNoClear crypto set) addr (add_cleartext crypto addr set)
  unfolding add_cleartext
  add_cleartext-Adds addr set sound =
      if-rule (Adds crypto (HasNoClear crypto set) addr)
        (not (is_some set.body_key) || not (is_some set.attachment_keys))
        (λ _. populate-Adds addr set set.session_key refl sound)
        (λ h.
          cleartext-Adds addr set (with_package crypto addr (cleartext_package crypto set) set) refl
            refl refl (already set set.body_key set.attachment_keys refl refl h sound) sound)

  abbrev IsInternal : Result MessagePackage → Type 0
  IsInternal (ok pkg) = pkg.type ≡ 1
  IsInternal (err e) = Unit

  internal_package-IsInternal :
      (set : MessagePackageSet) (k : Result (Option Key))
      → IsInternal (internal_package crypto set k)
  unfolding internal_package
  internal_package-IsInternal set (err e) = tt
  internal_package-IsInternal set (ok none) = tt
  internal_package-IsInternal set (ok (some k)) =
      bind-rule IsInternal (serialize crypto k.public_key set.session_key) _ (λ e _. tt)
        (λ b _.
          bind-rule IsInternal (serialize_keys crypto k.public_key set.session_keys []) _
            (λ e _. tt) (λ a _. refl))

  keep_internal :
      (addr : String) (pkg : MessagePackage) (set : MessagePackageSet)
      → set_bit pkg.type set.type ≡ set_bit 1 set.type
      → (p : MessagePackage) → Served crypto set p
      → Served crypto (with_package crypto addr pkg set) p
  keep_internal addr pkg set e p (inl (t, h)) =
      inl (t, ap (has_bit 1) e ∙ has_bit-set_internal set.type)
  keep_internal addr pkg set e p (inr (t, h, current)) =
      inr (t, ap (has_bit 4) e ∙ cleartext-set_internal set.type ∙ h, current)

  register-Adds :
      (addr : String) (set : MessagePackageSet) (r : Result MessagePackage)
      → IsInternal r
      → IsSound crypto set
      → Adds crypto Unit addr (register crypto addr set r)
  unfolding register
  register-Adds addr set (err e) i sound = tt
  register-Adds addr set (ok pkg) i sound =
      let t : set_bit pkg.type set.type ≡ set_bit 1 set.type = ap (λ b. set_bit b set.type) i in
      insert-Adds addr pkg set (with_package crypto addr pkg set) refl
        (inl (i, ap (has_bit 1) t ∙ has_bit-set_internal set.type)) (keep_internal addr pkg set t)
        sound.0 sound.1 sound

  -- AddInternal, too, leaves a sound set sound when it returns a package, which it registers.
  pub add_internal-Adds :
      (rules : KeyRules) (now : ℕ) (addr : String) (recipient : Entity) (set : MessagePackageSet)
      → IsSound crypto set
      → Adds crypto Unit addr (add_internal crypto rules now addr recipient set)
  unfolding add_internal
  add_internal-Adds rules now addr recipient set sound =
      register-Adds addr set _
        (internal_package-IsInternal set (encryption_key rules now recipient)) sound
