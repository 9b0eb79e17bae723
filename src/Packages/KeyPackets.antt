-- ===== src/Packages/KeyPackets.antt =====
-- The key packets of a package that AddInternal makes.
use protonmail_go.Prelude.{
  ℕ, String, ◌≡◌, refl, sym, ◌∙◌, ap, Option, none, some, [], ◌∷◌, StringMap, lookup, insert, IsMap,
  arith, inl, inr,
}
use protonmail_go.Result.{Result, ok, err, Result-cases}
use protonmail_go.Mail.{EncryptedKey}
use protonmail_go.Pgp.{PublicKeyPacket, Entity, Key, KeyRules}
use protonmail_go.KeySelection.{encryption_key}
use protonmail_go.Packages.Stores.{store_all, IsMadeOf, store_all-IsMadeOf}
use protonmail_go.Packages.{
  MessagePackage, MessagePackageSet, PackageCrypto, add_internal, register, internal_package,
  serialize, serialize_keys, with_package,
}

module _ (crypto : PackageCrypto) where
  pub serialize_keys-eq-store_all :
      (to : PublicKeyPacket) (session : StringMap EncryptedKey) (done : StringMap String)
      → serialize_keys crypto to session done
        ≡ store_all (crypto.serialize_encrypted_key to) session done
  unfolding serialize_keys
  serialize_keys-eq-store_all to [] done = refl
  serialize_keys-eq-store_all to ((a, k) ∷ rest) done =
      elim (Result-cases (crypto.serialize_encrypted_key to k)) [
        | inl (p, e) ↦ rw e (serialize_keys-eq-store_all to rest (insert a p done))
        | inr (x, e) ↦ rw e refl
      ]

  -- The packet of a name: that of its session key for the recipient, or none.
  abbrev pub IsPacketOf : PublicKeyPacket → Option EncryptedKey → Option String → Type 0
  IsPacketOf to = IsMadeOf (crypto.serialize_encrypted_key to)

  serialize_keys-packets :
      (to : PublicKeyPacket) (session : StringMap EncryptedKey) (packets : StringMap String)
      → IsMap session
      → serialize_keys crypto to session [] ≡ ok packets
      → (att : String) → IsPacketOf to (lookup att session) (lookup att packets)
  serialize_keys-packets to session packets m h =
      store_all-IsMadeOf (crypto.serialize_encrypted_key to) session packets m
        (sym (serialize_keys-eq-store_all to session []) ∙ h)

  pub serialize-some :
      (to : PublicKeyPacket) (o : Option EncryptedKey) (packet : String)
      → serialize crypto to o ≡ ok packet
      → (k : EncryptedKey) × (o ≡ some k) × (crypto.serialize_encrypted_key to k ≡ ok packet)
  unfolding serialize
  serialize-some to none packet h = absurd (ground arith)
  serialize-some to (some k) packet h = (k, refl, h)

  -- The package of a set for a key: the set's session key, and every attachment's under its name, are
  -- encrypted for the key, and there is no other key packet.
  abbrev pub Packs : MessagePackageSet → Key → MessagePackage → Type 0
  Packs set enc pkg =
      ((k : EncryptedKey) × (set.session_key ≡ some k)
        × (crypto.serialize_encrypted_key enc.public_key k ≡ ok pkg.body_key_packet))
      × ((packets : StringMap String) × (pkg.attachment_key_packets ≡ some packets)
          × ((att : String)
              → IsPacketOf enc.public_key (lookup att set.session_keys) (lookup att packets)))

  module _ (rules : KeyRules) (now : ℕ) where
    internal_package-Packs :
        (set : MessagePackageSet) (r : Result (Option Key)) (pkg : MessagePackage)
        → IsMap set.session_keys
        → internal_package crypto set r ≡ ok pkg
        → (enc : Key) × (r ≡ ok (some enc)) × Packs set enc pkg
    unfolding internal_package
    internal_package-Packs set (err e) pkg m h = absurd (ground arith)
    internal_package-Packs set (ok none) pkg m h = absurd (ground arith)
    internal_package-Packs set (ok (some enc)) pkg m h =
        elim (Result-cases (serialize crypto enc.public_key set.session_key)) [
          | inr (x, e) ↦ absurd (ground arith)
          | inl (body, e) ↦
              elim (Result-cases (serialize_keys crypto enc.public_key set.session_keys [])) [
                | inr (x, f) ↦ absurd (ground arith)
                | inl (packets, f) ↦
                    let (k, held, packed) = serialize-some enc.public_key set.session_key body e in
                    (
                      enc,
                      refl,
                      (
                        (k, held, packed ∙ ap (λ b. ok b) (ground arith)),
                        (
                          packets,
                          ground arith,
                          serialize_keys-packets enc.public_key set.session_keys packets m f,
                        ),
                      ),
                    )
              ]
        ]

    register-Packs :
        (addr : String) (set set' : MessagePackageSet) (r : Result MessagePackage)
        (pkg : MessagePackage)
        → register crypto addr set r ≡ (ok pkg, set')
        → (r ≡ ok pkg) × (set' ≡ with_package crypto addr pkg set)
    unfolding register
    register-Packs addr set set' (err e) pkg h = absurd (ground arith)
    register-Packs addr set set' (ok p) pkg h = (ground arith, ground arith)

    -- The package that AddInternal gives for a recipient holds the set's session key encrypted for the
    -- recipient's encryption key, and for each attachment of the set that attachment's session key
    -- encrypted for the same key, under its name, and no other key packet. It is registered in the set
    -- at the address, and nothing else of the set changes but its mask of types.
    pub add_internal-Packs :
        (addr : String) (to : Entity) (set set' : MessagePackageSet) (pkg : MessagePackage)
        → IsMap set.session_keys
        → add_internal crypto rules now addr to set ≡ (ok pkg, set')
        → (enc : Key) × (encryption_key rules now to ≡ ok (some enc))
          × Packs set enc pkg
          × (set' ≡ with_package crypto addr pkg set)
    unfolding add_internal
    add_internal-Packs addr to set set' pkg m h =
        let (made, changed) =
          register-Packs addr set set' (internal_package crypto set (encryption_key rules now to))
            pkg h in
        let (enc, chosen, packs) =
          internal_package-Packs set (encryption_key rules now to) pkg m made in
        (enc, chosen, packs, changed)
