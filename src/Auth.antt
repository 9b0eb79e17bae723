-- ===== src/Auth.antt =====
-- The requests of auth.go and the unlocking of keys.
pub mod SessionChanges
pub mod Samples
pub mod Login
pub mod Tokens
mod Tests
use Prim.Native.String.{◌++◌ as append}
use protonmail_go.Prelude.{
  ℕ, String, Bool, not, Option, none, some, List, [], ◌∷◌, ◌++◌, ℤ, pos, StringMap, lookup, insert,
  eqb_ℤ, ◌==◌, if◌then◌else◌,
}
use protonmail_go.Errors.{Error, Sentinel, sentinel, wrapped, panicked}
use protonmail_go.Result.{Result, ok, err}
use protonmail_go.Http.{Bytes, set_header}
use protonmail_go.Client.{Session, Config}
use protonmail_go.Pgp.{Entity}
use protonmail_go.Password.{Hashes}
use protonmail_go.KeyUnlock.{UnlockPgp, KeyWarning, unlock_keys}
use protonmail_go.Transport.{
  Act, Net, note, Envelope, LogEntry, warning, Wire, pure, continue, lift, new_json_request, ◌>>=◌,
}
use protonmail_go.Transport.Json.{do_json}
use protonmail_go.Endpoint.{fetch, submit}
use protonmail_go.Account.{AccountJson, PrivateKey, User, Address, get_current_user, list_addresses}

pub record AuthInfo : Type 0 where
  pub version : ℤ
  pub modulus : String
  pub server_ephemeral : String
  pub salt : String
  pub srp_session : String

pub record Auth : Type 0 where
  pub expires_at : ℤ
  pub scope : String
  pub uid : String
  pub access_token : String
  pub refresh_token : String
  pub user_id : String
  pub event_id : String
  pub password_mode : ℤ
  pub two_factor_enabled : ℤ
  pub two_factor_totp : ℤ

-- `authResp`: the session that the server gives, its life in seconds, and the server's proof.
pub record AuthResp : Type 0 where
  pub auth : Auth
  pub expires_in : ℤ
  pub token_type : String
  pub server_proof : String

-- `(*authResp).auth`; `expiry` is the time that is the given number of seconds from now.
unfoldable pub resp_auth : (ℤ → ℤ) → AuthResp → Auth
resp_auth expiry resp = record resp.auth { expires_at = expiry resp.expires_in }

pub record AuthRefreshReq : Type 0 where
  pub refresh_token : String
  pub response_type : String
  pub grant_type : String
  pub redirect_uri : String

pub record KeySalt : Type 0 where
  pub id : String
  pub key_salt : String

-- encoding/json at the requests and responses of this file, base64 and the clock
pub record AuthCodec : Type 0 where
  pub encode_username : String → Result Bytes
  pub encode_code : String → Result Bytes
  pub encode_refresh : AuthRefreshReq → Result Bytes
  pub decode_auth_info : Bytes → Result (Envelope AuthInfo)
  pub decode_auth : Bytes → Result (Envelope AuthResp)
  pub decode_scope : Bytes → Result (Envelope String)
  pub decode_salts : Bytes → Result (Envelope (List KeySalt))
  pub decode_resp : Bytes → Result (Envelope (Unit {0}))
  pub base64_decode : String → Result Bytes
  pub expiry : ℤ → ℤ

-- The loop of ListKeySalts; a salt that is nil is `none`.
unfoldable pub salt_map :
    (String → Result Bytes)
    → List KeySalt
    → StringMap (Option Bytes)
    → Result (StringMap (Option Bytes))
salt_map base64_decode [] salts = ok salts
salt_map base64_decode (s ∷ rest) salts =
    if s.key_salt == ""
    then salt_map base64_decode rest (insert s.id none salts)
    else (elim (base64_decode s.key_salt) [
      | err e ↦ err (wrapped "failed to decode key salt payload" e)
      | ok payload ↦ salt_map base64_decode rest (insert s.id (some payload) salts)
    ])

module _ {W : Type 0} (fuel : ℕ) (wire : Wire) (cfg : Config W) (codec : AuthCodec) where
  -- `(*Client).AuthInfo`
  unfoldable pub auth_info : String → Act W AuthInfo
  auth_info username =
      submit fuel wire cfg "POST" "/auth/info" (codec.encode_username username)
        codec.decode_auth_info

  -- `(*Client).AuthTOTP`
  unfoldable pub auth_totp : String → Act W String
  auth_totp code =
      submit fuel wire cfg "POST" "/auth/2fa" (codec.encode_code code) codec.decode_scope

  -- `(*Client).AuthRefresh`: the result is returned, and the session is not changed.
  unfoldable pub auth_refresh : Auth → Act W Auth
  unfolding resp_auth
  auth_refresh expired = do
    req ← new_json_request wire cfg "POST" "/auth/refresh" (
        codec.encode_refresh (record {
          refresh_token = expired.refresh_token;
          response_type = "token";
          grant_type = "refresh_token";
          redirect_uri = "http://www.protonmail.ch";
        }))
    resp ←
        do_json fuel wire cfg codec.decode_auth
          (record req { headers = set_header "X-Pm-Uid" expired.uid req.headers })
    pure (record (resp_auth codec.expiry resp) { password_mode = expired.password_mode })

  -- `(*Client).ListKeySalts`
  unfoldable pub list_key_salts : Act W (StringMap (Option Bytes))
  unfolding salt_map
  list_key_salts = do
    key_salts ← fetch fuel wire cfg "GET" "/keys/salts" codec.decode_salts
    lift (salt_map codec.base64_decode key_salts [])

  cleared : Unit {0} → Act W (Unit {0})
  cleared u net =
      some (ok u, record net { session = record { uid = ""; access_token = ""; key_ring = [] } })

  -- `(*Client).Logout`
  unfoldable pub logout : Act W (Unit {0})
  unfolding cleared
  logout = fetch fuel wire cfg "DELETE" "/auth" codec.decode_resp >>= cleared

abbrev pub no_keys_error : Error
no_keys_error = wrapped "auth" (sentinel Sentinel.no_unlockable_keys)

abbrev pub nonempty : List Entity → Result (List Entity)
nonempty [] = err no_keys_error
nonempty (e ∷ rest) = ok (e ∷ rest)

module _ {W : Type 0} where
  note_warnings : List KeyWarning → Net W → Net W
  note_warnings [] net = net
  note_warnings (w ∷ rest) net = note_warnings rest (note (warning w.key_id w.error) net)

  ring_of : List Entity × List KeyWarning → Net W → Result (List Entity) × Net W
  unfolding note_warnings
  ring_of (ring, warnings) net = (nonempty ring, note_warnings warnings net)

  module _ (hashes : Hashes) (pgp : UnlockPgp) (salts : StringMap (Option Bytes))
      (pass : Bytes) where
    -- `(*Client).unlockKeyRing`
    unfoldable pub unlock_key_ring :
        List PrivateKey → List Entity → Net W → Result (List Entity) × Net W
    unfolding ring_of
    unlock_key_ring keys user_key_ring net =
        ring_of (unlock_keys hashes pgp user_key_ring salts pass keys) net

    add_ring : Address → List Entity → Result (List Entity) × Net W → List Entity × Net W
    add_ring addr key_ring (ok ring, net) = (key_ring ++ ring, net)
    add_ring addr key_ring (err e, net) = (key_ring, note (warning addr.id e) net)

    -- The loop over the addresses: the key ring so far.
    address_rings : List Entity → List Address → List Entity × Net W → List Entity × Net W
    unfolding unlock_key_ring add_ring
    address_rings user_key_ring [] (key_ring, net) = (key_ring, net)
    address_rings user_key_ring (addr ∷ rest) (key_ring, net) =
        address_rings user_key_ring rest
          (add_ring addr key_ring (unlock_key_ring addr.keys user_key_ring net))

    store_ring : Result (List Entity) → Net W → Option (Result (List Entity) × Net W)
    store_ring (err e) net = some (err e, net)
    store_ring (ok ring) net =
        some (ok ring, record net { session = record net.session { key_ring = ring } })

    finish_unlock : List Entity × Net W → Option (Result (List Entity) × Net W)
    unfolding store_ring
    finish_unlock (key_ring, net) = store_ring (nonempty key_ring) net

    then_addresses :
        Act W (List Address) → Result (List Entity) × Net W → Option (Result (List Entity) × Net W)
    unfolding address_rings finish_unlock
    then_addresses list (err e, net) = some (err e, net)
    then_addresses list (ok user_key_ring, net) =
        continue (list net) (λ addrs m. finish_unlock (address_rings user_key_ring addrs ([], m)))

    -- `GetCurrentUser` may give no user and no error; the nil user is dereferenced.
    some_user : Act W (List Address) → Option User → Act W (List Entity)
    unfolding unlock_key_ring then_addresses
    some_user list none net = some (err (panicked "Unlock: nil user"), net)
    some_user list (some user) net = then_addresses list (unlock_key_ring user.keys [] net)

    -- `(*Client).Unlock`, given the requests it makes
    unfoldable pub unlock_with :
        Act W (Option User) → Act W (List Address) → Auth → Act W (List Entity)
    unfolding some_user
    unlock_with current list auth net = (current >>= some_user list) (record net {
      session = record net.session { uid = auth.uid; access_token = auth.access_token };
    })

  -- `(*Client).Unlock`
  unfoldable pub unlock :
      ℕ
      → Wire
      → Config W
      → AccountJson
      → Hashes
      → UnlockPgp
      → Auth
      → StringMap (Option Bytes)
      → Bytes
      → Act W (List Entity)
  unlock fuel wire cfg json hashes pgp auth salts pass =
      unlock_with hashes pgp salts pass (get_current_user fuel wire cfg json)
        (list_addresses fuel wire cfg json) auth
