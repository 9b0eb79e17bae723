-- ===== src/KeyUnlock.antt =====
-- The unlocking of private keys in auth.go, without the network.
pub mod Ring
mod Tests
use protonmail_go.Prelude.{
  ℕ, String, Bool, not, Option, none, some, List, [], ◌∷◌, ◌++◌, ℤ, pos, StringMap, lookup, eqb_ℤ,
  ◌==◌, if◌then◌else◌,
}
use protonmail_go.Errors.{Error}
use protonmail_go.Result.{Result, ok, err, ◌>>=◌}
use protonmail_go.Http.{Bytes}
use protonmail_go.Pgp.{PrivateKeyPacket, Subkey, Entity}
use protonmail_go.Password.{Hashes, compute_key_password}
use protonmail_go.Account.{PrivateKey, ReadKeyRing, private_key_entity}

-- What the unlocking asks of go-crypto: the key ring of an armored text, a private key decrypted by
-- a passphrase, the armor of a token decoded, its message decrypted and read, and the error of its
-- detached signature, if there is one.
pub record UnlockPgp : Type 0 where
  pub read_key_ring : ReadKeyRing
  pub decrypt : PrivateKeyPacket → Bytes → Result PrivateKeyPacket
  pub decode_armor : String → Result Bytes
  pub read_message : List Entity → Bytes → Result Bytes
  pub check_signature : List Entity → Bytes → String → Option Error

-- A key that could not be unlocked, as it is logged.
pub record KeyWarning : Type 0 where
  pub key_id : String
  pub error : Error

module _ (hashes : Hashes) (pgp : UnlockPgp) where
  decrypt_packet : Bytes → Option PrivateKeyPacket → Result (Option PrivateKeyPacket)
  decrypt_packet pass none = ok none
  decrypt_packet pass (some priv) = do open_key ← pgp.decrypt priv pass; ok (some open_key)

  decrypt_subkeys : Bytes → List Subkey → Result (List Subkey)
  unfolding decrypt_packet
  decrypt_subkeys pass [] = ok []
  decrypt_subkeys pass (s ∷ rest) = do
    priv ← decrypt_packet pass s.private_key
    rest' ← decrypt_subkeys pass rest
    ok (record s { private_key = priv } ∷ rest')

  -- `unlockEntity`: the keys of the entity that was just read are decrypted in order.
  unfoldable pub unlock_entity : Entity → Bytes → Result Entity
  unfolding decrypt_packet decrypt_subkeys
  unlock_entity e pass = do
    priv ← decrypt_packet pass e.private_key
    subkeys ← decrypt_subkeys pass e.subkeys
    ok (record e { private_key = priv; subkeys = subkeys })

  checked : Bytes → Option Error → Result Bytes
  checked b none = ok b
  checked b (some e) = err e

  -- `decryptPrivateKeyToken`
  unfoldable pub decrypt_private_key_token : PrivateKey → List Entity → Result Bytes
  unfolding checked
  decrypt_private_key_token key user_key_ring = do
    block ← pgp.decode_armor key.token
    b ← pgp.read_message user_key_ring block
    checked b (pgp.check_signature user_key_ring b key.signature)

  -- The passphrase of a key: its token's, or one made with its salt, or the given one.
  passphrase : PrivateKey → List Entity → Option Bytes → Bytes → Result Bytes
  passphrase key user_key_ring salt pass =
      if not (key.token == "")
      then decrypt_private_key_token key user_key_ring
      else (elim salt [ none ↦ ok pass | some s ↦ compute_key_password hashes pass s ])

  -- `unlockPrivateKey`
  unfoldable pub unlock_private_key :
      PrivateKey → List Entity → Option Bytes → Bytes → Result Entity
  unfolding passphrase
  unlock_private_key key user_key_ring salt pass = do
    entity ← private_key_entity pgp.read_key_ring key
    pass' ← passphrase key user_key_ring salt pass
    unlock_entity entity pass'

  -- `keySalts[id]`: a missing salt is nil.
  abbrev pub salt_of : StringMap (Option Bytes) → String → Option Bytes
  salt_of salts id = elim (lookup id salts) [ none ↦ none | some s ↦ s ]

  module _ (user_key_ring : List Entity) (salts : StringMap (Option Bytes)) (pass : Bytes) where
    abbrev pub unlock : PrivateKey → Result Entity
    unlock key = unlock_private_key key user_key_ring (salt_of salts key.id) pass

    keep :
        PrivateKey → Result Entity → List Entity × List KeyWarning → List Entity × List KeyWarning
    keep key (ok entity) (ring, warnings) = (entity ∷ ring, warnings)
    keep key (err e) (ring, warnings) = (ring, record { key_id = key.id; error = e } ∷ warnings)

    -- The loop of unlockKeyRing: the entities and the warnings, in order.
    unfoldable pub unlock_keys : List PrivateKey → List Entity × List KeyWarning
    unfolding keep
    unlock_keys [] = ([], [])
    unlock_keys (key ∷ rest) =
        let later = unlock_keys rest in
        if not (eqb_ℤ key.active (pos 1)) then later else keep key (unlock key) later
