-- ===== src/Lifecycle.antt =====
-- A client in use: the calls of its methods one after another, whatever they return.
pub mod Tokens
mod Tests
use protonmail_go.Prelude.{ℕ, String, Option, none, some, List, [], ◌∷◌, StringMap}
use protonmail_go.Result.{Result}
use protonmail_go.Http.{Bytes}
use protonmail_go.Client.{Config, Client}
use protonmail_go.KeyUnlock.{UnlockPgp}
use protonmail_go.Account.{AccountJson}
use protonmail_go.Transport.{Net, Envelope, Wire}
use protonmail_go.Endpoint.{fetch, submit, upload}
use protonmail_go.Auth.{Auth, AuthInfo, unlock, logout}
use protonmail_go.Auth.Login.{Login, auth}

-- The calls of Auth, Unlock and Logout, and of the methods that are requests: without a body, with
-- a JSON body, or with an upload.
pub data Call : Type 1 where
  log_in : String → Bytes → Option AuthInfo → Call
  unlocks : Auth → StringMap (Option Bytes) → Bytes → Call
  log_out : Call
  gets : {A : Type 0} → String → String → (Bytes → Result (Envelope A)) → Call
  posts : {A : Type 0} → String → String → Result Bytes → (Bytes → Result (Envelope A)) → Call
  uploads : {A : Type 0} → String → String → String → Bytes → (Bytes → Result (Envelope A)) → Call

-- A client before its first call, in a world.
abbrev pub fresh : {W : Type 0} → Client W → W → Net W
fresh c w = record { session = c.session; world = w; open_bodies = 0; sent = []; log = [] }

module _ {W : Type 0} (fuel : ℕ) (wire : Wire) (cfg : Config W) (login : Login W)
    (json : AccountJson) (pgp : UnlockPgp) where
  -- What is left is the client; `none` means that the fuel of a retry loop ran out.
  abbrev pub left : {A : Type 0} → Option (Result A × Net W) → Option (Net W)
  left none = none
  left (some (r, net)) = some net

  unfoldable pub perform : Call → Net W → Option (Net W)
  perform (log_in username password info) net =
      left (auth fuel wire cfg login username password info net)
  perform (unlocks a salts pass) net =
      left (unlock fuel wire cfg json login.hashes pgp a salts pass net)
  perform log_out net = left (logout fuel wire cfg login.codec net)
  perform (gets method path decode) net = left (fetch fuel wire cfg method path decode net)
  perform (posts method path encoded decode) net =
      left (submit fuel wire cfg method path encoded decode net)
  perform (uploads method path content_type b decode) net =
      left (upload fuel wire cfg method path content_type b decode net)

  abbrev pub perform_all : List Call → Option (Net W) → Option (Net W)
  perform_all [] o = o
  perform_all (c ∷ rest) none = none
  perform_all (c ∷ rest) (some net) = perform_all rest (perform c net)
