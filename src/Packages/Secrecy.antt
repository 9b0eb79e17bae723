-- ===== src/Packages/Secrecy.antt =====
-- What is known of the session keys of a set before AddCleartext: what was encrypted for recipients.
use protonmail_go.Prelude.{
  ℕ, String, ◌≡◌, refl, Option, none, some, List, [], ◌∷◌, StringMap, pos, lookup, ◌⊎◌, inl, inr,
  sym, ap, ◌∙◌, subst, arith,
}
use protonmail_go.Errors.{Error}
use protonmail_go.Result.{Result, ok, err, Result-cases}
use protonmail_go.KeySelection.{encryption_key}
use protonmail_go.Packages.Stores.{AllMade, new_map-AllMade, found}
use protonmail_go.Packages.KeyPackets.{serialize-some, serialize_keys-eq-store_all}
use protonmail_go.Mail.{EncryptedKey}
use protonmail_go.Pgp.{PublicKeyPacket, PrivateKeyPacket, Entity, Key, KeyRules}
use protonmail_go.Streams.{Stream}
use protonmail_go.Packages.{
  MessagePackage, MessagePackageSet, PackageCrypto, OutgoingWriter, add_internal, register,
  new_message_package_set, encrypt, open_keyed, open_signed, open_writer, opened, sealed_body,
  close_body, internal_package, serialize, serialize_keys,
}

-- The calls on a set other than AddCleartext.
pub data Call : Type 0 where
  add : String → Entity → Call
  start : String → Option Entity → Call
  close : OutgoingWriter → Call

-- The recipients that the calls add at an address.
abbrev pub AsksFor : List Call → String → Entity → Type 0
AsksFor [] addr r = ⊥
AsksFor (add a recipient ∷ calls) addr r = ((a ≡ addr) × (recipient ≡ r)) ⊎ AsksFor calls addr r
AsksFor (start mime_type signed ∷ calls) addr r = AsksFor calls addr r
AsksFor (close w ∷ calls) addr r = AsksFor calls addr r

module _ (crypto : PackageCrypto) (rules : KeyRules) (now : ℕ) where
  -- The set after a call.
  abbrev pub after : Call → MessagePackageSet → MessagePackageSet
  after (add addr recipient) set = (add_internal crypto rules now addr recipient set).1
  after (start mime_type signed) set = (encrypt crypto rules now mime_type signed set).1
  after (close w) set = (close_body crypto w set).1

  abbrev pub after_all : List Call → MessagePackageSet → MessagePackageSet
  after_all [] set = set
  after_all (c ∷ calls) set = after_all calls (after c set)

  -- A text that is some key encrypted for a public key.
  abbrev pub IsEncryptedFor : PublicKeyPacket → String → Type 0
  IsEncryptedFor to packet = (k : EncryptedKey) × (crypto.serialize_encrypted_key to k ≡ ok packet)

  -- All key packets of a package are encrypted for a public key.
  abbrev pub IsSealedFor : PublicKeyPacket → MessagePackage → Type 0
  IsSealedFor to pkg =
      IsEncryptedFor to pkg.body_key_packet
      × ((packets : StringMap String) × (pkg.attachment_key_packets ≡ some packets)
          × AllMade (crypto.serialize_encrypted_key to) packets)

  module _ (Asked : String → Entity → Type 0) where
    -- A package at an address is sealed for the encryption key of a recipient asked for there.
    abbrev pub IsSealed : String → MessagePackage → Type 0
    IsSealed addr pkg =
        (r : Entity) × (enc : Key) × Asked addr r
        × (encryption_key rules now r ≡ ok (some enc))
        × IsSealedFor enc.public_key pkg

    -- No session key is in the clear: not beside the packages, nor in one of them.
    abbrev pub IsSecret : MessagePackageSet → Type 0
    IsSecret set =
        (set.body_key ≡ none)
        × (set.attachment_keys ≡ none)
        × ((addr : String) (pkg : MessagePackage)
            → lookup addr set.addresses ≡ some pkg
            → IsSealed addr pkg)

    internal_package-IsSealedFor :
        (set : MessagePackageSet) (r : Result (Option Key)) (pkg : MessagePackage)
        → internal_package crypto set r ≡ ok pkg
        → (enc : Key) × (r ≡ ok (some enc)) × IsSealedFor enc.public_key pkg
    unfolding internal_package
    internal_package-IsSealedFor set (err e) pkg h = absurd (ground arith)
    internal_package-IsSealedFor set (ok none) pkg h = absurd (ground arith)
    internal_package-IsSealedFor set (ok (some enc)) pkg h =
        elim (Result-cases (serialize crypto enc.public_key set.session_key)) [
          | inr (x, e) ↦ absurd (ground arith)
          | inl (body, e) ↦
              elim (Result-cases (serialize_keys crypto enc.public_key set.session_keys [])) [
                | inr (x, f) ↦ absurd (ground arith)
                | inl (packets, f) ↦
                    let (k, held, packed) =
                      serialize-some crypto enc.public_key set.session_key body e in
                    (
                      enc,
                      refl,
                      (
                        (k, packed ∙ ap (λ b. ok b) (ground arith)),
                        (
                          packets,
                          ground arith,
                          new_map-AllMade (crypto.serialize_encrypted_key enc.public_key)
                              set.session_keys packets
                              (sym (
                                  serialize_keys-eq-store_all crypto enc.public_key set.session_keys
                                    [])
                                ∙ f),
                        ),
                      ),
                    )
              ]
        ]

    register-IsSecret :
        (addr : String) (set : MessagePackageSet) (r : Result MessagePackage)
        → ((pkg : MessagePackage) → r ≡ ok pkg → IsSealed addr pkg)
        → IsSecret set
        → IsSecret (register crypto addr set r).1
    unfolding register
    register-IsSecret addr set (err e) k h = h
    register-IsSecret addr set (ok pkg) k (b, a, sealed) = (
      b,
      a,
      λ at p e. elim (found addr at pkg p set.addresses e) [
        | inl (here, same) ↦
            subst (λ x. IsSealed x p) here (subst (IsSealed addr) same (k pkg refl))
        | inr before ↦ sealed at p before
      ],
    )

    opened-IsSecret :
        (set : MessagePackageSet) (r : Result Stream)
        → IsSecret set
        → IsSecret (opened crypto rules now set r).1
    unfolding opened
    opened-IsSecret set (err e) h = h
    opened-IsSecret set (ok s) h = h

    open_signed-IsSecret :
        (key : EncryptedKey) (p : Result PrivateKeyPacket) (set : MessagePackageSet)
        → IsSecret set
        → IsSecret (open_signed crypto rules now key p set).1
    unfolding open_signed open_writer
    open_signed-IsSecret key (err e) set h = h
    open_signed-IsSecret key (ok p) set h = opened-IsSecret (record set { signature = pos 1 }) _ h

    open_keyed-IsSecret :
        (signed : Option Entity) (set : MessagePackageSet) (key : Result EncryptedKey)
        → IsSecret set
        → IsSecret (open_keyed crypto rules now signed set key).1
    unfolding open_keyed open_writer
    open_keyed-IsSecret signed set (err e) h = h
    open_keyed-IsSecret none set (ok key) h = opened-IsSecret _ _ h
    open_keyed-IsSecret (some signed) set (ok key) h = open_signed-IsSecret key _ _ h

    sealed_body-IsSecret :
        (set : MessagePackageSet) (r : Option Error × Stream)
        → IsSecret set
        → IsSecret (sealed_body crypto set r).1
    unfolding sealed_body
    sealed_body-IsSecret set (some e, s) h = h
    sealed_body-IsSecret set (none, s) h = h

    add_internal-IsSecret :
        (addr : String) (recipient : Entity) (set : MessagePackageSet)
        → Asked addr recipient
        → IsSecret set
        → IsSecret (add_internal crypto rules now addr recipient set).1
    unfolding add_internal
    add_internal-IsSecret addr recipient set asked h =
        let r = encryption_key rules now recipient in
        register-IsSecret addr set (internal_package crypto set r)
          (λ pkg e.
            let (enc, chosen, for_it) = internal_package-IsSealedFor set r pkg e in
            (recipient, enc, asked, chosen, for_it))
          h

    after_all-IsSecret :
        (calls : List Call) (set : MessagePackageSet)
        → ((addr : String) (r : Entity) → AsksFor calls addr r → Asked addr r)
        → IsSecret set
        → IsSecret (after_all calls set)
    unfolding encrypt close_body
    after_all-IsSecret [] set k h = h
    after_all-IsSecret (add addr recipient ∷ calls) set k h =
        after_all-IsSecret calls (after (add addr recipient) set) (λ a r m. k a r (inr m))
          (add_internal-IsSecret addr recipient set (k addr recipient (inl (refl, refl))) h)
    after_all-IsSecret (start mime_type signed ∷ calls) set k h =
        after_all-IsSecret calls (after (start mime_type signed) set) k
          (open_keyed-IsSecret signed (record set { mime_type = mime_type }) _ h)
    after_all-IsSecret (close w ∷ calls) set k h =
        after_all-IsSecret calls (after (close w) set) k (sealed_body-IsSecret set _ h)

  -- Without AddCleartext, after any calls of Encrypt, Close and AddInternal on a new set, whatever they
  -- return: the set has no session keys in the clear beside its packages, and each key packet of a
  -- package, for the body or for an attachment, is a session key that was encrypted for the encryption
  -- key of an entity that AddInternal was called with at the package's address.
  pub calls-IsSecret :
      (keys : StringMap EncryptedKey) (calls : List Call)
      → IsSecret (AsksFor calls) (after_all calls (new_message_package_set keys))
  unfolding lookup
  calls-IsSecret keys calls =
      after_all-IsSecret (AsksFor calls) calls (new_message_package_set keys) (λ a r m. m)
        (refl, refl, (λ addr pkg e. cc))
