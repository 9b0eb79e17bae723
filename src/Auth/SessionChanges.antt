-- ===== src/Auth/SessionChanges.antt =====
-- What Logout and Unlock leave in the session.
use protonmail_go.Prelude.{
  ℕ, String, ◌≡◌, ◌≢◌, refl, ◌∙◌, ap, Option, none, some, List, [], ◌∷◌, StringMap, subst,
}
use protonmail_go.Result.{Result, ok, err}
use protonmail_go.Http.{Bytes, no_body, stream, Request}
use protonmail_go.Client.{Session, Config, ReAuth}
use protonmail_go.Pgp.{Entity}
use protonmail_go.Password.{Hashes}
use protonmail_go.KeyUnlock.{UnlockPgp, KeyWarning, unlock_keys}
use protonmail_go.Account.{AccountJson, User, Address, get_current_user, list_addresses}
use protonmail_go.Transport.{Act, Net, Envelope, Wire, continue, new_request, new_json_request}
use protonmail_go.Transport.Building.{Builds, IsBuilt, new_request-Builds, new_json_request-Builds}
use protonmail_go.Transport.Exchange.Sessions.{KeepsSession, continue-KeepsSession}
use protonmail_go.Transport.Json.Sessions.{do_json-KeepsSession}
use protonmail_go.Endpoint.{fetch, submit}
use protonmail_go.Auth.{
  Auth, AuthCodec, logout, cleared, unlock, unlock_with, some_user, then_addresses, finish_unlock,
  store_ring, address_rings, add_ring, unlock_key_ring, ring_of, note_warnings,
}

module _ {W : Type 0} where
  built-KeepsSession :
      (P : Net W → Request → Type 0) (old : Net W) (o : Option (Result Request × Net W))
      → Builds P old o
      → KeepsSession old.session o
  built-KeepsSession P old none b = tt
  built-KeepsSession P old (some (err e, net)) (s, w, o, l) = s
  built-KeepsSession P old (some (ok q, net)) ((s, w, o, l), p) = s

module _ {W A : Type 0} where
  -- Without a callback a request without a body leaves the session alone.
  pub fetch-KeepsSession :
      (fuel : ℕ) (wire : Wire) (cfg : Config W) (method path : String)
      (decode : Bytes → Result (Envelope A)) (net : Net W)
      → cfg.reauth ≡ none
      → KeepsSession net.session (fetch fuel wire cfg method path decode net)
  unfolding fetch
  fetch-KeepsSession fuel wire cfg method path decode net h =
      continue-KeepsSession net.session (new_request wire cfg method path no_body net) _
        (built-KeepsSession (IsBuilt cfg method path no_body) net _
          (new_request-Builds wire cfg method path no_body net))
        (λ q m e. do_json-KeepsSession fuel wire cfg decode q m net.session h e)

-- So does a request with a JSON body.
pub submit-KeepsSession :
    {W A : Type 0} (fuel : ℕ) (wire : Wire) (cfg : Config W) (method path : String)
    (encoded : Result Bytes) (decode : Bytes → Result (Envelope A)) (net : Net W)
    → cfg.reauth ≡ none
    → KeepsSession net.session (submit fuel wire cfg method path encoded decode net)
unfolding submit new_json_request
submit-KeepsSession fuel wire cfg method path (err e) decode net h = refl
submit-KeepsSession fuel wire cfg method path (ok b) decode net h =
    continue-KeepsSession net.session (new_json_request wire cfg method path (ok b) net) _
      (built-KeepsSession (IsBuilt cfg method path (stream b (some b))) net _
        (new_json_request-Builds wire cfg method path b net))
      (λ q m e. do_json-KeepsSession fuel wire cfg decode q m net.session h e)

-- The session with the credentials of the authentication.
abbrev pub entered : Auth → Session → Session
entered auth s = record s { uid = auth.uid; access_token = auth.access_token }

abbrev pub signed_out : Session
signed_out = record { uid = ""; access_token = ""; key_ring = [] }

module _ {W : Type 0} where
  -- The session is the old one if there is no callback of WithReAuth; one with a callback may differ.
  abbrev pub KeptWithout : Option (ReAuth W) → Session → Session → Type 0
  KeptWithout none old new = new ≡ old
  KeptWithout (some fn) old new = Unit

  -- The session that Logout leaves: none on success; on failure the old one, without a callback.
  abbrev pub LeavesSession :
      Option (ReAuth W) → Session → Option (Result (Unit {0}) × Net W) → Type 0
  LeavesSession reauth s none = Unit
  LeavesSession reauth s (some (ok u, net)) = net.session ≡ signed_out
  LeavesSession reauth s (some (err e, net)) = KeptWithout reauth s net.session

  cleared-LeavesSession :
      (fuel : ℕ) (wire : Wire) (cfg : Config W) (codec : AuthCodec) (reauth : Option (ReAuth W))
      (s : Session) (o : Option (Result (Unit {0}) × Net W))
      → (reauth ≡ none → KeepsSession s o)
      → LeavesSession reauth s (continue o (cleared fuel wire cfg codec))
  unfolding cleared
  cleared-LeavesSession fuel wire cfg codec reauth s none h = tt
  cleared-LeavesSession fuel wire cfg codec reauth s (some (ok u, net)) h = refl
  cleared-LeavesSession fuel wire cfg codec none s (some (err e, net)) h = h refl
  cleared-LeavesSession fuel wire cfg codec (some fn) s (some (err e, net)) h = tt

  -- Logout clears the UID, the token and the key ring whenever it succeeds, with a callback of
  -- WithReAuth or without; when it fails and there is no callback, it preserves all three.
  pub logout-LeavesSession :
      (fuel : ℕ) (wire : Wire) (cfg : Config W) (codec : AuthCodec) (net : Net W)
      → LeavesSession cfg.reauth net.session (logout fuel wire cfg codec net)
  unfolding logout
  logout-LeavesSession fuel wire cfg codec net =
      cleared-LeavesSession fuel wire cfg codec cfg.reauth net.session
        (fetch fuel wire cfg "DELETE" "/auth" codec.decode_resp net)
        (fetch-KeepsSession fuel wire cfg "DELETE" "/auth" codec.decode_resp net)

  -- The session that Unlock leaves: the UID and the token of the authentication, with the key ring
  -- that is returned, which is not empty, on success, and with the old one on failure.
  abbrev pub Unlocks : Auth → Session → Option (Result (List Entity) × Net W) → Type 0
  Unlocks auth s none = Unit
  Unlocks auth s (some (ok ring, net)) =
      (ring ≢ [])
      × (net.session ≡ record { uid = auth.uid; access_token = auth.access_token; key_ring = ring })
  Unlocks auth s (some (err e, net)) = net.session ≡ entered auth s

  session-note_warnings :
      (ws : List KeyWarning) (net : Net W) → (note_warnings ws net).session ≡ net.session
  unfolding note_warnings
  session-note_warnings [] net = refl
  session-note_warnings (w ∷ ws) net = session-note_warnings ws _

  module _ (hashes : Hashes) (pgp : UnlockPgp) (salts : StringMap (Option Bytes)) (pass : Bytes)
      (auth : Auth) (s : Session) where
    session-ring_of :
        (x : List Entity × List KeyWarning) (net : Net W) → (ring_of x net).1.session ≡ net.session
    unfolding ring_of
    session-ring_of (ring, ws) net = session-note_warnings ws net

    session-add_ring :
        (addr : Address) (ring : List Entity) (x : Result (List Entity) × Net W)
        → (add_ring hashes pgp salts pass addr ring x).1.session ≡ x.1.session
    unfolding add_ring
    session-add_ring addr ring (ok r, net) = refl
    session-add_ring addr ring (err e, net) = refl

    session-address_rings :
        (user_ring : List Entity) (addrs : List Address) (x : List Entity × Net W)
        → (address_rings hashes pgp salts pass user_ring addrs x).1.session ≡ x.1.session
    unfolding address_rings unlock_key_ring
    session-address_rings user_ring [] (ring, net) = refl
    session-address_rings user_ring (addr ∷ rest) (ring, net) =
        let x = ring_of (unlock_keys hashes pgp user_ring salts pass addr.keys) net in
        session-address_rings user_ring rest (add_ring hashes pgp salts pass addr ring x)
        ∙ session-add_ring addr ring x
        ∙ session-ring_of (unlock_keys hashes pgp user_ring salts pass addr.keys) net

    finish_unlock-Unlocks :
        (x : List Entity × Net W)
        → x.1.session ≡ entered auth s
        → Unlocks auth s (finish_unlock hashes pgp salts pass x)
    unfolding finish_unlock store_ring
    finish_unlock-Unlocks ([], net) h = h
    finish_unlock-Unlocks (e ∷ ring, net) h =
        ((λ q. cc), ap (λ (t : Session). record t { key_ring = e ∷ ring }) h)

    then_addresses-Unlocks :
        (list : Act W (List Address)) (x : Result (List Entity) × Net W)
        → ((net : Net W) → net.session ≡ entered auth s → KeepsSession (entered auth s) (list net))
        → x.1.session ≡ entered auth s
        → Unlocks auth s (then_addresses hashes pgp salts pass list x)
    unfolding then_addresses
    then_addresses-Unlocks list (err e, net) k h = h
    then_addresses-Unlocks list (ok user_ring, net) k h = listed (list net) (k net h)
      where
        listed :
            (o : Option (Result (List Address) × Net W))
            → KeepsSession (entered auth s) o
            → Unlocks auth s (
                continue o (λ addrs m.
                  finish_unlock hashes pgp salts pass
                    (address_rings hashes pgp salts pass user_ring addrs ([], m))))
        listed none q = tt
        listed (some (err e, m)) q = q
        listed (some (ok addrs, m)) q =
            finish_unlock-Unlocks (address_rings hashes pgp salts pass user_ring addrs ([], m))
              (session-address_rings user_ring addrs ([], m) ∙ q)

    some_user-Unlocks :
        (list : Act W (List Address)) (o : Option (Result (Option User) × Net W))
        → ((net : Net W) → net.session ≡ entered auth s → KeepsSession (entered auth s) (list net))
        → KeepsSession (entered auth s) o
        → Unlocks auth s (continue o (some_user hashes pgp salts pass list))
    unfolding some_user unlock_key_ring
    some_user-Unlocks list none k h = tt
    some_user-Unlocks list (some (err e, net)) k h = h
    some_user-Unlocks list (some (ok none, net)) k h = h
    some_user-Unlocks list (some (ok (some user), net)) k h =
        then_addresses-Unlocks list _ k
          (session-ring_of (unlock_keys hashes pgp [] salts pass user.keys) net ∙ h)

  -- Unlock puts the credentials into the session whether or not it succeeds, returns only a key ring
  -- that is not empty and stores it, and on failure keeps the old key ring; without a callback of
  -- WithReAuth.
  pub unlock-Unlocks :
      (fuel : ℕ) (wire : Wire) (cfg : Config W) (json : AccountJson) (hashes : Hashes)
      (pgp : UnlockPgp) (auth : Auth) (salts : StringMap (Option Bytes)) (pass : Bytes)
      (net : Net W)
      → cfg.reauth ≡ none
      → Unlocks auth net.session (unlock fuel wire cfg json hashes pgp auth salts pass net)
  unfolding unlock unlock_with get_current_user list_addresses
  unlock-Unlocks fuel wire cfg json hashes pgp auth salts pass net h =
      some_user-Unlocks hashes pgp salts pass auth net.session
        (fetch fuel wire cfg "GET" "/addresses" json.decode_addresses)
        (fetch fuel wire cfg "GET" "/users" json.decode_user
          (record net { session = entered auth net.session }))
        (λ m e.
          subst
            (λ t. KeepsSession t (fetch fuel wire cfg "GET" "/addresses" json.decode_addresses m)) e
            (fetch-KeepsSession fuel wire cfg "GET" "/addresses" json.decode_addresses m h))
        (fetch-KeepsSession fuel wire cfg "GET" "/users" json.decode_user _ h)
