-- ===== src/Transport.antt =====
-- The request path of protonmail.go: newRequest, newJSONRequest, do, drainAndClose and doJSON.
pub mod Exchange
pub mod Json
pub mod Building
pub mod Redaction
mod Tests
use protonmail_go.Prelude.{
  ℕ, zero, suc, ◌+◌, ◌-◌, ◌*◌, ◌/◌, String, ◌≡◌, Bool, true, false, ◌&&◌, ◌||◌, not, Option, none,
  some, List, [], ◌∷◌, ◌++◌, ◌==◌, ℤ, take, length, eqb, if◌then◌else◌, is_some,
}
use Prim.Native.String.{◌++◌ as append}
use protonmail_go.Errors.{Error, ApiError, HttpError, api, http}
use protonmail_go.Result.{Result, ok, err}
use protonmail_go.Http.{
  Bytes, Headers, set_header, has_header, Body, no_body, stream, Request, Response, Reply, replied,
  failed,
}
use protonmail_go.Client.{Session, Config, ReAuth}

-- What the debug log is told.
pub data LogEntry : Type 0 where
  request : String → String → LogEntry
  body_prepared : String → String → ℕ → LogEntry
  skipping_retry : String → String → LogEntry
  api_error : String → String → ℕ → ℤ → String → LogEntry
  response : String → String → ℕ → LogEntry
  request_failed : String → String → Error → LogEntry
  warning : String → Error → LogEntry

-- What the methods of a client act on: its session, the outside world, the number of response
-- bodies that are open, the requests sent (newest first) and the log (newest first).
pub record Net (W : Type 0) : Type 0 where
  pub session : Session
  pub world : W
  pub open_bodies : ℕ
  pub sent : List Request
  pub log : List LogEntry

abbrev pub note : {W : Type 0} → LogEntry → Net W → Net W
note e net = record net { log = e ∷ net.log }

-- The JSON envelope `resp`: an application code, and the message if there is an "Error" member.
pub record Envelope (A : Type 0) : Type 0 where
  pub code : ℤ
  pub error_message : Option String
  pub payload : A

-- `(*resp).Err`
unfoldable pub code_error : ℤ → Option String → Option Error
code_error code none = none
code_error code (some m) = some (api (record { code = code; message = m; http_error = none }))

unfoldable pub envelope_err : {A : Type 0} → Envelope A → Option Error
unfolding code_error
envelope_err e = code_error e.code e.error_message

-- A method that may fail; `none` means that the fuel of a retry loop ran out.
abbrev pub Act : Type 0 → Type 0 → Type 0
Act W A = Net W → Option (Result A × Net W)

module _ {W : Type 0} where
  module _ {A : Type 0} where
    abbrev pub pure : A → Act W A
    pure a net = some (ok a, net)

    abbrev pub fail : Error → Act W A
    fail e net = some (err e, net)

    abbrev pub lift : Result A → Act W A
    lift r net = some (r, net)

  module _ {A B : Type 0} where
    abbrev pub continue : Option (Result A × Net W) → (A → Act W B) → Option (Result B × Net W)
    continue none f = none
    continue (some (ok a, net)) f = f a net
    continue (some (err e, net)) f = some (err e, net)

    infixl 5 ◌>>=◌
    abbrev pub ◌>>=◌ : Act W A → (A → Act W B) → Act W B
    ◌>>=◌ m f net = continue (m net) f

-- What net/http and encoding/json are asked: the path of a URL, or why it is no URL, and whether
-- bytes hold an envelope.
pub record Wire : Type 0 where
  pub url_path : String → Result String
  pub unmarshal_resp : Bytes → Result (Envelope (Unit {0}))

-- `(*Client).setRequestAuthorization`
unfoldable pub set_request_authorization : Session → Headers → Headers
set_request_authorization s h =
    if not (s.uid == "") && not (s.access_token == "")
    then set_header "Authorization" (append "Bearer " s.access_token)
        (set_header "X-Pm-Uid" s.uid h)
    else h

module _ {W : Type 0} where
  -- The headers of newRequest; the API version is 3.
  abbrev pub base_headers : Config W → Session → Headers
  base_headers cfg s =
      set_request_authorization s
        (set_header "X-Pm-Apiversion" "3" (set_header "X-Pm-Appversion" cfg.app_version []))

  -- `(*Client).newRequest`
  unfoldable pub new_request : Wire → Config W → String → String → Body → Act W Request
  new_request wire cfg method path body net = elim (wire.url_path (append cfg.base_url path)) [
    | err e ↦ some (err e, net)
    | ok url_path ↦ some (
      ok (record {
        method = method;
        url = append cfg.base_url path;
        path = url_path;
        headers = base_headers cfg net.session;
        body = body;
      }),
      note (request method url_path) net,
    )
  ]

  json_request : String → Bytes → Request → Net W → Option (Result Request × Net W)
  json_request method b req net = some (
    ok (record req { headers = set_header "Content-Type" "application/json" req.headers }),
    note (body_prepared req.method req.path (length b)) net,
  )

  -- `(*Client).newJSONRequest`, given what the encoder makes of the body
  unfoldable pub new_json_request : Wire → Config W → String → String → Result Bytes → Act W Request
  unfolding json_request new_request
  new_json_request wire cfg method path encoded = do
    b ← lift encoded
    req ← new_request wire cfg method path (stream b (some b))
    json_request method b req
