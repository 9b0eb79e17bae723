-- ===== src/Account.antt =====
-- users.go, addresses.go, labels.go and keys.go: the account's values and how they are fetched.
use Prim.Native.String.{◌++◌ as append}
use protonmail_go.Prelude.{ℕ, String, Option, List, [], ◌∷◌, ℤ, insert}
use protonmail_go.Errors.{other, wrapped}
use protonmail_go.Pgp.{Entity}
use protonmail_go.Result.{Result, ok, err}
use protonmail_go.Http.{Bytes}
use protonmail_go.Client.{Config}
use protonmail_go.Transport.{Act, Envelope, Wire}
use protonmail_go.Endpoint.{QueryEncode, fetch}

pub record PrivateKey : Type 0 where
  pub id : String
  pub version : ℤ
  pub flags : ℤ
  pub private_key : String
  pub fingerprint : String
  pub primary : ℤ
  pub active : ℤ
  pub token : String
  pub signature : String

pub record PublicKey : Type 0 where
  pub send : ℤ
  pub public_key : String

pub record PublicKeyResp : Type 0 where
  pub recipient_type : ℤ
  pub mime_type : String
  pub keys : List PublicKey

pub record User : Type 0 where
  pub id : String
  pub name : String
  pub used_space : ℤ
  pub currency : String
  pub credit : ℤ
  pub max_space : ℤ
  pub max_upload : ℤ
  pub role : ℤ
  pub private : ℤ
  pub subscribed : ℤ
  pub services : ℤ
  pub delinquent : ℤ
  pub keys : List PrivateKey

pub record Address : Type 0 where
  pub id : String
  pub domain_id : String
  pub email : String
  pub send : ℤ
  pub receive : ℤ
  pub status : ℤ
  pub type : ℤ
  pub order : ℤ
  pub display_name : String
  pub signature : String
  pub has_keys : ℤ
  pub keys : List PrivateKey

pub record Label : Type 0 where
  pub id : String
  pub name : String
  pub color : String
  pub display : ℤ
  pub type : ℤ
  pub exclusive : ℤ
  pub notify : ℤ
  pub order : ℤ

-- `openpgp.ReadArmoredKeyRing`
abbrev pub ReadKeyRing : Type 0
ReadKeyRing = String → Result (List Entity)

first_entity : String → String → Result (List Entity) → Result Entity
first_entity failed empty (err e) = err (wrapped failed e)
first_entity failed empty (ok []) = err (other empty)
first_entity failed empty (ok (e ∷ rest)) = ok e

-- `(*PrivateKey).Entity`
unfoldable pub private_key_entity : ReadKeyRing → PrivateKey → Result Entity
unfolding first_entity
private_key_entity read priv =
    first_entity "failed to read private key" "private key is empty" (read priv.private_key)

-- `(*PublicKey).Entity`
unfoldable pub public_key_entity : ReadKeyRing → PublicKey → Result Entity
unfolding first_entity
public_key_entity read pub' =
    first_entity "failed to read public key" "public key is empty" (read pub'.public_key)

-- encoding/json at the responses of this file
pub record AccountJson : Type 0 where
  pub decode_user : Bytes → Result (Envelope (Option User))
  pub decode_addresses : Bytes → Result (Envelope (List Address))
  pub decode_labels : Bytes → Result (Envelope (List Label))
  pub decode_public_keys : Bytes → Result (Envelope (Option PublicKeyResp))

module _ {W : Type 0} (fuel : ℕ) (wire : Wire) (cfg : Config W) (json : AccountJson) where
  -- `(*Client).GetCurrentUser`
  unfoldable pub get_current_user : Act W (Option User)
  get_current_user = fetch fuel wire cfg "GET" "/users" json.decode_user

  -- `(*Client).ListAddresses`
  unfoldable pub list_addresses : Act W (List Address)
  list_addresses = fetch fuel wire cfg "GET" "/addresses" json.decode_addresses

  -- `(*Client).ListLabels`
  unfoldable pub list_labels : Act W (List Label)
  list_labels = fetch fuel wire cfg "GET" "/labels" json.decode_labels

  -- `(*Client).GetPublicKeys`
  unfoldable pub get_public_keys : QueryEncode → String → Act W (Option PublicKeyResp)
  get_public_keys encode email =
      fetch fuel wire cfg "GET" (append "/keys?" (encode (insert "Email" email [])))
        json.decode_public_keys
