-- ===== src/Auth/Tokens.antt =====
-- Unlock and Logout give the session granted credentials only.
use protonmail_go.Prelude.{ℕ, Option, none, some, List, [], ◌∷◌, StringMap}
use protonmail_go.Prelude.{arith}
use protonmail_go.Result.{Result, ok, err}
use protonmail_go.Http.{Bytes}
use protonmail_go.Client.{Config}
use protonmail_go.Pgp.{Entity}
use protonmail_go.Password.{Hashes}
use protonmail_go.KeyUnlock.{UnlockPgp, KeyWarning, unlock_keys}
use protonmail_go.Account.{AccountJson, User, Address, get_current_user, list_addresses}
use protonmail_go.Transport.{Act, Net, Wire}
use protonmail_go.Transport.Exchange.Tokens.{Grants, Good, GoesWell, Renews, continue-GoesWell}
use protonmail_go.Endpoint.{fetch}
use protonmail_go.Endpoint.Tokens.{fetch-GoesWell}
use protonmail_go.Auth.{
  Auth, AuthCodec, logout, cleared, unlock, unlock_with, some_user, then_addresses, finish_unlock,
  store_ring, address_rings, add_ring, unlock_key_ring, ring_of, note_warnings,
}

module _ (G : Grants) {W : Type 0} where
  note_warnings-Good :
      (ws : List KeyWarning) (net : Net W) → Good G net → Good G (note_warnings ws net)
  unfolding note_warnings
  note_warnings-Good [] net g = g
  note_warnings-Good (w ∷ ws) net g = note_warnings-Good ws _ g

  module _ (hashes : Hashes) (pgp : UnlockPgp) (salts : StringMap (Option Bytes))
      (pass : Bytes) where
    ring_of-Good :
        (x : List Entity × List KeyWarning) (net : Net W) → Good G net → Good G (ring_of x net).1
    unfolding ring_of
    ring_of-Good (ring, ws) net g = note_warnings-Good ws net g

    add_ring-Good :
        (addr : Address) (ring : List Entity) (x : Result (List Entity) × Net W)
        → Good G x.1
        → Good G (add_ring hashes pgp salts pass addr ring x).1
    unfolding add_ring
    add_ring-Good addr ring (ok r, net) g = g
    add_ring-Good addr ring (err e, net) g = g

    address_rings-Good :
        (user_ring : List Entity) (addrs : List Address) (x : List Entity × Net W)
        → Good G x.1
        → Good G (address_rings hashes pgp salts pass user_ring addrs x).1
    unfolding address_rings unlock_key_ring
    address_rings-Good user_ring [] (ring, net) g = g
    address_rings-Good user_ring (addr ∷ rest) (ring, net) g =
        let keys = unlock_keys hashes pgp user_ring salts pass addr.keys in
        address_rings-Good user_ring rest
          (add_ring hashes pgp salts pass addr ring (ring_of keys net))
          (add_ring-Good addr ring (ring_of keys net) (ring_of-Good keys net g))

    finish_unlock-GoesWell :
        (x : List Entity × Net W) → Good G x.1 → GoesWell G (finish_unlock hashes pgp salts pass x)
    unfolding finish_unlock store_ring
    finish_unlock-GoesWell ([], net) g = g
    finish_unlock-GoesWell (e ∷ ring, net) g = g

    then_addresses-GoesWell :
        (list : Act W (List Address)) (x : Result (List Entity) × Net W)
        → ((net : Net W) → Good G net → GoesWell G (list net))
        → Good G x.1
        → GoesWell G (then_addresses hashes pgp salts pass list x)
    unfolding then_addresses
    then_addresses-GoesWell list (err e, net) k g = g
    then_addresses-GoesWell list (ok user_ring, net) k g =
        continue-GoesWell G (list net)
          (λ addrs m.
            finish_unlock hashes pgp salts pass
              (address_rings hashes pgp salts pass user_ring addrs ([], m)))
          (k net g)
          (λ addrs m h.
            finish_unlock-GoesWell (address_rings hashes pgp salts pass user_ring addrs ([], m))
              (address_rings-Good user_ring addrs ([], m) h))

    some_user-GoesWell :
        (list : Act W (List Address)) (user : Option User) (net : Net W)
        → ((net : Net W) → Good G net → GoesWell G (list net))
        → Good G net
        → GoesWell G (some_user hashes pgp salts pass list user net)
    unfolding some_user unlock_key_ring
    some_user-GoesWell list none net k g = g
    some_user-GoesWell list (some user) net k g =
        let keys = unlock_keys hashes pgp [] salts pass user.keys in
        then_addresses-GoesWell list (ring_of keys net) k (ring_of-Good keys net g)

  module _ (fuel : ℕ) (wire : Wire) (cfg : Config W) (renews : Renews G cfg.reauth) where
    -- Unlock goes well with granted credentials.
    pub unlock-GoesWell :
        (json : AccountJson) (hashes : Hashes) (pgp : UnlockPgp) (auth : Auth)
        (salts : StringMap (Option Bytes)) (pass : Bytes) (net : Net W)
        → G auth.uid auth.access_token
        → Good G net
        → GoesWell G (unlock fuel wire cfg json hashes pgp auth salts pass net)
    unfolding unlock unlock_with get_current_user list_addresses
    unlock-GoesWell json hashes pgp auth salts pass net a g =
        let list = fetch fuel wire cfg "GET" "/addresses" json.decode_addresses in
        let start = record net {
          session = record net.session { uid = auth.uid; access_token = auth.access_token };
        } in
        continue-GoesWell G (fetch fuel wire cfg "GET" "/users" json.decode_user start)
          (some_user hashes pgp salts pass list)
          (fetch-GoesWell G fuel wire cfg renews "GET" "/users" json.decode_user start
            ((λ e. a), g.1))
          (λ user m h.
            some_user-GoesWell hashes pgp salts pass list user m
              (λ n q.
                fetch-GoesWell G fuel wire cfg renews "GET" "/addresses" json.decode_addresses n q)
              h)

    -- So does Logout.
    pub logout-GoesWell :
        (codec : AuthCodec) (net : Net W) → Good G net → GoesWell G (logout fuel wire cfg codec net)
    unfolding logout cleared
    logout-GoesWell codec net g =
        continue-GoesWell G (fetch fuel wire cfg "DELETE" "/auth" codec.decode_resp net)
          (cleared fuel wire cfg codec)
          (fetch-GoesWell G fuel wire cfg renews "DELETE" "/auth" codec.decode_resp net g)
          (λ u m h. ((λ e. absurd (ground arith)), h.1))
