-- ===== src/Lifecycle/Tokens.antt =====
-- No request carries credentials that the client was not given.
use protonmail_go.Prelude.{
  ℕ, String, ◌≡◌, refl, Option, none, some, List, [], ◌∷◌, ◌⊎◌, inl, inr, arith,
}
use protonmail_go.Result.{Result, ok}
use protonmail_go.Client.{Session, Config, ReAuth, Client, Opt, new_client}
use protonmail_go.Client.Construction.{new_client-fields}
use protonmail_go.Http.{HttpClient}
use protonmail_go.Prelude.{sym, subst}
use protonmail_go.KeyUnlock.{UnlockPgp}
use protonmail_go.Account.{AccountJson}
use protonmail_go.Transport.{Net, Wire}
use protonmail_go.Transport.Exchange.Tokens.{Grants, Bears, Good, GoesWell, Renews}
use protonmail_go.Endpoint.{fetch, submit, upload}
use protonmail_go.Endpoint.Tokens.{fetch-GoesWell, submit-GoesWell, upload-GoesWell}
use protonmail_go.Auth.{Auth, unlock, logout}
use protonmail_go.Auth.Tokens.{unlock-GoesWell, logout-GoesWell}
use protonmail_go.Auth.Login.{Login, auth}
use protonmail_go.Auth.Login.Verified.{IsEarned}
use protonmail_go.Auth.Login.Verified.Tokens.{auth-GoesWell}
use protonmail_go.Auth.SessionChanges.{signed_out}
use protonmail_go.Lifecycle.{
  Call, log_in, unlocks, log_out, gets, posts, uploads, fresh, left, perform, perform_all,
}

-- What a callback of WithReAuth leaves in the session: no credentials, or a pair of `R`.
abbrev pub Renewing : {W : Type 0} → Grants → Option (ReAuth W) → Type 0
Renewing R none = Unit
Renewing R (some fn) = (s : Session) (w : _) → Bears R (fn s w).1

module _ {W : Type 0} where
  -- Good, unless the fuel ran out.
  abbrev pub IsGood : Grants → Option (Net W) → Type 0
  IsGood G none = Unit
  IsGood G (some net) = Good G net

module _ {W : Type 0} (login : Login W) where
  -- The UID and the token of an authentication that a call earns or hands over.
  abbrev pub GrantedBy : Call → Grants
  GrantedBy (log_in username password info) uid token =
      (a : Auth) × IsEarned login password info a × (a.uid ≡ uid) × (a.access_token ≡ token)
  GrantedBy (unlocks a salts pass) uid token = (a.uid ≡ uid) × (a.access_token ≡ token)
  GrantedBy _ uid token = ⊥

  abbrev pub Granted : List Call → Grants
  Granted [] uid token = ⊥
  Granted (c ∷ rest) uid token = GrantedBy c uid token ⊎ Granted rest uid token

  -- The credentials that a client was given by calls and by the callback.
  abbrev pub Known : Grants → List Call → Grants
  Known R calls uid token = R uid token ⊎ Granted calls uid token

  Renewing-Renews :
      (R : Grants) (calls : List Call) (reauth : Option (ReAuth W))
      → Renewing R reauth
      → Renews (Known R calls) reauth
  Renewing-Renews R calls none h = tt
  Renewing-Renews R calls (some fn) h = λ s w b e. inl (h s w e)

  signed_out-Bears : (G : Grants) → Bears G signed_out
  signed_out-Bears G e = absurd (ground arith)

  module _ (fuel : ℕ) (wire : Wire) (cfg : Config W) (json : AccountJson) (pgp : UnlockPgp) where
    module _ (G : Grants) (renews : Renews G cfg.reauth) where
      left-IsGood :
          {A : Type 0} (o : Option (Result A × Net W))
          → GoesWell G o
          → IsGood G (left fuel wire cfg login json pgp o)
      left-IsGood none g = tt
      left-IsGood (some (r, net)) g = g

      perform-IsGood :
          (c : Call) (net : Net W)
          → ((uid token : String) → GrantedBy c uid token → G uid token)
          → Good G net
          → IsGood G (perform fuel wire cfg login json pgp c net)
      unfolding perform
      perform-IsGood (log_in username password info) net k g =
          left-IsGood (auth fuel wire cfg login username password info net) (
            auth-GoesWell G login fuel wire cfg renews password info
              (λ a e. k a.uid a.access_token (a, e, refl, refl)) username net g)
      perform-IsGood (unlocks a salts pass) net k g =
          left-IsGood (unlock fuel wire cfg json login.hashes pgp a salts pass net) (
            unlock-GoesWell G fuel wire cfg renews json login.hashes pgp a salts pass net
              (k a.uid a.access_token (refl, refl)) g)
      perform-IsGood log_out net k g =
          left-IsGood (logout fuel wire cfg login.codec net)
            (logout-GoesWell G fuel wire cfg renews login.codec net g)
      perform-IsGood (gets method path decode) net k g =
          left-IsGood (fetch fuel wire cfg method path decode net)
            (fetch-GoesWell G fuel wire cfg renews method path decode net g)
      perform-IsGood (posts method path encoded decode) net k g =
          left-IsGood (submit fuel wire cfg method path encoded decode net)
            (submit-GoesWell G fuel wire cfg renews method path decode net g encoded)
      perform-IsGood (uploads method path content_type b decode) net k g =
          left-IsGood (upload fuel wire cfg method path content_type b decode net)
            (upload-GoesWell G fuel wire cfg renews method path decode net g content_type b)

      perform_all-keep-IsGood :
          (calls : List Call) (o : Option (Net W))
          → ((uid token : String) → Granted calls uid token → G uid token)
          → IsGood G o
          → IsGood G (perform_all fuel wire cfg login json pgp calls o)
      perform_all-keep-IsGood [] o k g = g
      perform_all-keep-IsGood (c ∷ rest) none k g = tt
      perform_all-keep-IsGood (c ∷ rest) (some net) k g =
          perform_all-keep-IsGood rest (perform fuel wire cfg login json pgp c net)
            (λ u t h. k u t (inr h)) (perform-IsGood c net (λ u t h. k u t (inl h)) g)

  -- In a client that NewClient returns, after any calls and whatever they return: every request that
  -- was sent has no Authorization header, or it carries the UID and the bearer token of one
  -- authentication, that a call of Auth earned, that was handed to Unlock, or that the callback of
  -- WithReAuth left, if the callback leaves no others; and so does the session.
  pub perform_all-IsGood :
      (default_client : HttpClient W) (discard : ℕ) (opts : List (Opt W)) (c : Client W) (fuel : ℕ)
      (wire : Wire) (json : AccountJson) (pgp : UnlockPgp) (R : Grants) (calls : List Call) (w : W)
      → new_client default_client discard opts ≡ ok c
      → Renewing R c.config.reauth
      → IsGood
          (Known R calls)
          (perform_all fuel wire c.config login json pgp calls (some (fresh c w)))
  perform_all-IsGood default_client discard opts c fuel wire json pgp R calls w built h =
      let session = (new_client-fields default_client discard opts c built).2 in
      perform_all-keep-IsGood fuel wire c.config json pgp (Known R calls)
        (Renewing-Renews R calls c.config.reauth h) calls (some (fresh c w)) (λ u t g. inr g)
        (subst (Bears (Known R calls)) (sym session) (signed_out-Bears (Known R calls)), tt)
