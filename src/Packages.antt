-- ===== src/Packages.antt =====
-- The packages of an outgoing message, in messages.go: one for each recipient, with the session keys
-- encrypted for it or in the clear. A Go map of keys is read in the order of its list.
pub mod Bits
pub mod Soundness
pub mod Secrecy
pub mod Bodies
pub mod Stores
pub mod Clear
pub mod KeyPackets
mod Tests
use protonmail_go.Prelude.{
  ℕ, ◌+◌, ◌/◌, ◌%◌, String, Bool, true, false, ◌||◌, not, Option, none, some, List, [], ◌∷◌, ℤ, pos,
  StringMap, insert, eqb, is_some, if◌then◌else◌,
}
use protonmail_go.Errors.{Error, other, panicked}
use protonmail_go.Result.{Result, ok, err, ◌>>=◌}
use protonmail_go.Http.{Bytes}
use protonmail_go.Mail.{EncryptedKey}
use protonmail_go.Pgp.{PublicKeyPacket, PrivateKeyPacket, Entity, Key, KeyRules}
use protonmail_go.Streams.{
  StreamIo, PacketConfig, EncryptedData, Stream, symetrically_encrypt, write, close,
}
use protonmail_go.KeySelection.{encryption_key, signing_key}

-- A MessagePackageType is a mask of bits.
abbrev pub message_package_internal : ℕ
message_package_internal = 1

abbrev pub message_package_cleartext : ℕ
message_package_cleartext = 4

abbrev pub has_bit : ℕ → ℕ → Bool
has_bit bit mask = eqb (mask / bit % 2) 1

-- `mask |= bit` at a power of two
unfoldable pub set_bit : ℕ → ℕ → ℕ
set_bit bit mask = if has_bit bit mask then mask else mask + bit

-- A map that is nil is `none`.
pub record MessagePackage : Type 0 where
  pub type : ℕ
  pub body_key_packet : String
  pub attachment_key_packets : Option (StringMap String)
  pub signature : ℤ

pub record PackedKey : Type 0 where
  pub algorithm : String
  pub key : String

-- `session_key` and `session_keys` are the unexported `bodyKey` and `attachmentKeys`.
pub record MessagePackageSet : Type 0 where
  pub type : ℕ
  pub addresses : StringMap MessagePackage
  pub mime_type : String
  pub body : String
  pub body_key : Option PackedKey
  pub attachment_keys : Option (StringMap PackedKey)
  pub session_key : Option EncryptedKey
  pub session_keys : StringMap EncryptedKey
  pub signature : ℤ

-- `NewMessagePackageSet`
abbrev pub new_message_package_set : StringMap EncryptedKey → MessagePackageSet
new_message_package_set attachment_keys = record {
  type = 0;
  addresses = [];
  mime_type = "";
  body = "";
  body_key = none;
  attachment_keys = none;
  session_key = none;
  session_keys = attachment_keys;
  signature = pos 0;
}

-- What the packages ask of base64, of the random reader and of go-crypto: the first bytes that are
-- read, a session key encrypted for a public key and then encoded, the calls and the settings of a
-- stream, and the bytes of encrypted data.
pub record PackageCrypto : Type 0 where
  pub encode_to_string : Bytes → String
  pub read_random : ℕ → Result Bytes
  pub serialize_encrypted_key : PublicKeyPacket → EncryptedKey → Result String
  pub stream_io : StreamIo
  pub config : PacketConfig
  pub render : EncryptedData → Bytes

abbrev pub cipher_aes256 : ℕ
cipher_aes256 = 9

-- An AES-256 key has 32 bytes; the cipher is always AES-256.
unfoldable pub generate_unencrypted_key : PackageCrypto → Result EncryptedKey
generate_unencrypted_key crypto = do
  sym_key ← crypto.read_random 32
  ok (record { cipher_func = cipher_aes256; key = sym_key })

-- `cipherFunctionString`, which panics at another cipher; 7, 8 and 9 are AES-128, 192 and 256.
unfoldable pub cipher_function_string : ℕ → Result String
cipher_function_string c =
    if eqb c 7
    then ok "aes128"
    else if eqb c 8
    then ok "aes192"
    else if eqb c 9
    then ok "aes256"
    else err (panicked "protonmail: unsupported cipher function")

-- `outgoingMessageWriter`: its `cleartext`; what that wrote is its `encoded`, and its set is the one
-- that the calls are given.
pub record OutgoingWriter : Type 0 where
  pub cleartext : Stream

module _ (crypto : PackageCrypto) where
  pub pack_key : EncryptedKey → Result PackedKey
  unfolding cipher_function_string
  pack_key k = do
    algorithm ← cipher_function_string k.cipher_func
    ok (record { algorithm = algorithm; key = crypto.encode_to_string k.key })

  -- The loop over the attachment keys: the map so far, and the panic that ended it, if one did.
  pub pack_keys : StringMap EncryptedKey → StringMap PackedKey → StringMap PackedKey × Option Error
  unfolding pack_key
  pack_keys [] packed = (packed, none)
  pack_keys ((att, key) ∷ rest) packed = elim (pack_key key) [
    | err e ↦ (packed, some e)
    | ok p ↦ pack_keys rest (insert att p packed)
  ]

  with_attachment_keys :
      MessagePackage
      → MessagePackageSet
      → StringMap PackedKey × Option Error
      → Result MessagePackage × MessagePackageSet
  with_attachment_keys pkg set (packed, none) =
      (ok pkg, record set { attachment_keys = some packed })
  with_attachment_keys pkg set (packed, some e) =
      (err e, record set { attachment_keys = some packed })

  with_body_key :
      MessagePackage
      → MessagePackageSet
      → Result PackedKey
      → Result MessagePackage × MessagePackageSet
  unfolding pack_keys with_attachment_keys
  with_body_key pkg set (err e) = (err e, set)
  with_body_key pkg set (ok p) =
      with_attachment_keys pkg (record set { body_key = some p }) (pack_keys set.session_keys [])

  -- The session keys in the clear.
  populate :
      MessagePackage
      → MessagePackageSet
      → Option EncryptedKey
      → Result MessagePackage × MessagePackageSet
  unfolding pack_key with_body_key
  populate pkg set none = (err (panicked "AddCleartext: nil body key"), set)
  populate pkg set (some key) = with_body_key pkg set (pack_key key)

  abbrev pub cleartext_package : MessagePackageSet → MessagePackage
  cleartext_package set = record {
    type = message_package_cleartext;
    body_key_packet = "";
    attachment_key_packets = none;
    signature = set.signature;
  }

  abbrev pub with_package : String → MessagePackage → MessagePackageSet → MessagePackageSet
  with_package addr pkg set = record set {
    addresses = insert addr pkg set.addresses;
    type = set_bit pkg.type set.type;
  }

  -- `(*MessagePackageSet).AddCleartext`
  unfoldable pub add_cleartext :
      String → MessagePackageSet → Result MessagePackage × MessagePackageSet
  unfolding populate
  add_cleartext addr set =
      let pkg = cleartext_package set in
      let set' = with_package addr pkg set in
      if not (is_some set.body_key) || not (is_some set.attachment_keys)
      then populate pkg set' set.session_key
      else (ok pkg, set')

  pub serialize : PublicKeyPacket → Option EncryptedKey → Result String
  serialize key none = err (panicked "serializeEncryptedKey: nil key")
  serialize key (some k) = crypto.serialize_encrypted_key key k

  pub serialize_keys :
      PublicKeyPacket → StringMap EncryptedKey → StringMap String → Result (StringMap String)
  serialize_keys to [] done = ok done
  serialize_keys to ((att, key) ∷ rest) done = do
    att_key ← crypto.serialize_encrypted_key to key
    serialize_keys to rest (insert att att_key done)

  -- The package of a key, without a change of the set.
  internal_package : MessagePackageSet → Result (Option Key) → Result MessagePackage
  unfolding serialize serialize_keys
  internal_package set (err e) = err e
  internal_package set (ok none) =
      err (other "cannot encrypt a message to key id because it has no encryption keys")
  internal_package set (ok (some enc_key)) = do
    body_key ← serialize enc_key.public_key set.session_key
    attachment_keys ← serialize_keys enc_key.public_key set.session_keys []
    ok (record {
      type = message_package_internal;
      body_key_packet = body_key;
      attachment_key_packets = some attachment_keys;
      signature = set.signature;
    })

  register :
      String → MessagePackageSet → Result MessagePackage → Result MessagePackage × MessagePackageSet
  register addr set (err e) = (err e, set)
  register addr set (ok pkg) = (ok pkg, with_package addr pkg set)

  module _ (rules : KeyRules) (now : ℕ) where
    -- `(*MessagePackageSet).AddInternal`
    unfoldable pub add_internal :
        String → Entity → MessagePackageSet → Result MessagePackage × MessagePackageSet
    unfolding internal_package register
    add_internal addr pub' set =
        register addr set (internal_package set (encryption_key rules now pub'))

    -- The private key of the signing key, decrypted.
    pub signer_of : Result (Option Key) → Result PrivateKeyPacket
    signer_of (err e) = err e
    signer_of (ok none) = err (other "no valid signing keys")
    signer_of (ok (some k)) = elim k.private_key [
      | none ↦ err (other "no private key in signing key")
      | some p ↦ if p.is_encrypted then err (other "signing key must be decrypted") else ok p
    ]

    opened : MessagePackageSet → Result Stream → Result OutgoingWriter × MessagePackageSet
    opened set (err e) = (err e, set)
    opened set (ok s) = (ok (record { cleartext = s }), set)

    open_writer :
        EncryptedKey
        → Option PrivateKeyPacket
        → MessagePackageSet
        → Result OutgoingWriter × MessagePackageSet
    unfolding opened
    open_writer key signer set =
        opened set (symetrically_encrypt crypto.stream_io crypto.config key signer none)

    open_signed :
        EncryptedKey
        → Result PrivateKeyPacket
        → MessagePackageSet
        → Result OutgoingWriter × MessagePackageSet
    unfolding open_writer
    open_signed key (err e) set = (err e, set)
    open_signed key (ok p) set = open_writer key (some p) (record set { signature = pos 1 })

    open_keyed :
        Option Entity
        → MessagePackageSet
        → Result EncryptedKey
        → Result OutgoingWriter × MessagePackageSet
    unfolding open_signed open_writer signer_of
    open_keyed signed set (err e) = (err e, set)
    open_keyed none set (ok key) = open_writer key none (record set { session_key = some key })
    open_keyed (some signed) set (ok key) =
        open_signed key (signer_of (signing_key rules now signed))
          (record set { session_key = some key })

    -- `(*MessagePackageSet).Encrypt`
    unfoldable pub encrypt :
        String → Option Entity → MessagePackageSet → Result OutgoingWriter × MessagePackageSet
    unfolding open_keyed
    encrypt mime_type signed set =
        open_keyed signed (record set { mime_type = mime_type }) (generate_unencrypted_key crypto)

  with_cleartext : Option Error × Stream → Option Error × OutgoingWriter
  with_cleartext (e, s) = (e, record { cleartext = s })

  -- `(*outgoingMessageWriter).Write`
  unfoldable pub write_body : Bytes → OutgoingWriter → Option Error × OutgoingWriter
  unfolding with_cleartext
  write_body bytes w = with_cleartext (write crypto.stream_io crypto.config bytes w.cleartext)

  sealed_body : MessagePackageSet → Option Error × Stream → Option Error × MessagePackageSet
  sealed_body set (some e, s) = (some e, set)
  sealed_body set (none, s) =
      (none, record set { body = crypto.encode_to_string (crypto.render s.encrypted) })

  -- `(*outgoingMessageWriter).Close`; the base64 encoder above a buffer does not fail.
  unfoldable pub close_body : OutgoingWriter → MessagePackageSet → Option Error × MessagePackageSet
  unfolding sealed_body
  close_body w set = sealed_body set (close crypto.stream_io crypto.config w.cleartext)
