-- ===== src/Pgp.antt =====
-- The OpenPGP values of github.com/ProtonMail/go-crypto as far as the client reads their fields.
use protonmail_go.Prelude.{ℕ, String, Bool, Option, List}

-- `packet.Signature`: the fields that the selection of a key reads. A time of 0 is the zero time.
pub record Signature : Type 0 where
  pub is_primary_id : Option Bool
  pub flags_valid : Bool
  pub flag_encrypt_communications : Bool
  pub flag_sign : Bool
  pub creation_time : ℕ

pub record PublicKeyPacket : Type 0 where
  pub key_id : ℕ
  pub pub_key_algo : ℕ

-- `packet.PrivateKey`; `material` stands for the key's secret part.
pub record PrivateKeyPacket : Type 0 where
  pub key_id : ℕ
  pub pub_key_algo : ℕ
  pub fingerprint : List ℕ
  pub is_encrypted : Bool
  pub material : List ℕ

pub record Identity : Type 0 where
  pub name : String
  pub self_signature : Signature

pub record Subkey : Type 0 where
  pub public_key : PublicKeyPacket
  pub private_key : Option PrivateKeyPacket
  pub sig : Signature
  pub revocations : List Signature

-- `openpgp.Entity`. `identities` is a Go map: its list is in the order of one iteration.
pub record Entity : Type 0 where
  pub primary_key : PublicKeyPacket
  pub private_key : Option PrivateKeyPacket
  pub identities : List Identity
  pub revocations : List Signature
  pub subkeys : List Subkey

-- `openpgp.Key`
pub record Key : Type 0 where
  pub entity : Entity
  pub public_key : PublicKeyPacket
  pub private_key : Option PrivateKeyPacket
  pub self_signature : Signature
  pub revocations : List Signature

-- What go-crypto says of algorithms and of expiry at a time.
pub record KeyRules : Type 0 where
  pub can_encrypt : ℕ → Bool
  pub can_sign : ℕ → Bool
  pub key_expired : PublicKeyPacket → Signature → ℕ → Bool
  pub sig_expired : Signature → ℕ → Bool
