-- ===== src/Transport/Json.antt =====
-- `(*Client).doJSON` of protonmail.go.
pub mod Closing
pub mod Status
pub mod Sending
pub mod Sessions
pub mod Tokens
pub mod Decoding
use protonmail_go.Prelude.{
  ℕ, ◌*◌, ◌/◌, ◌^◌, String, Bool, true, not, Option, none, some, take, eqb, ◌==◌, ℤ, if◌then◌else◌,
}
use protonmail_go.Errors.{Error, HttpError, api, http}
use protonmail_go.Result.{Result, ok, err}
use protonmail_go.Http.{Bytes, set_header, Request, Response}
use protonmail_go.Client.{Config}
use protonmail_go.Transport.{
  Act, Net, note, Envelope, envelope_err, Wire, api_error, response, request_failed, ◌>>=◌,
}
use protonmail_go.Transport.Exchange.{do_request, drain_and_close}

-- At most 64 KiB of an error body are read.
abbrev pub error_body_limit : ℕ
error_body_limit = 2 ^ 16

-- `resp.StatusCode/100 != 2`
abbrev pub is_success : ℕ → Bool
is_success status = eqb (status / 100) 2

abbrev pub http_error_of : Response → HttpError
http_error_of r = record {
  status_code = r.status_code;
  status = r.status;
  body = take error_body_limit r.body;
}

-- The error for a status that is not 2xx: an *APIError if the body is an envelope with a message.
unfoldable pub envelope_error : HttpError → ℤ → Option String → Error
envelope_error h code none = http h
envelope_error h code (some m) =
    if m == "" then http h else api (record { code = code; message = m; http_error = some h })

unfoldable pub status_error : HttpError → Result (Envelope (Unit {0})) → Error
unfolding envelope_error
status_error h (err e) = http h
status_error h (ok raw) = envelope_error h raw.code raw.error_message

module _ {W : Type 0} where
  -- Only an *APIError is logged here.
  note_status : Request → Response → Error → Net W → Net W
  note_status req r e net = elim e [
    | api a ↦ note (api_error req.method req.path r.status_code a.code a.message) net
    | _ ↦ net
  ]

  -- `maybeError.Err()` after a body that decoded.
  conclude : {A : Type 0} → Request → A → Option Error → Act W A
  conclude req payload none net = some (ok payload, net)
  conclude req payload (some e) net = some (err e, note (request_failed req.method req.path e) net)

  decoded : {A : Type 0} → Request → Response → Result (Envelope A) → Act W A
  unfolding conclude envelope_err
  decoded req r (err e) net = some (err e, net)
  decoded req r (ok d) net =
      conclude req d.payload (envelope_err d)
        (note (response req.method req.path r.status_code) net)

  -- What is done with a response; the body is closed on every path.
  interpret : {A : Type 0} → Wire → (Bytes → Result (Envelope A)) → Request → Response → Act W A
  unfolding status_error note_status decoded
  interpret wire decode req r net =
      if is_success r.status_code
      then decoded req r (decode r.body) (drain_and_close net)
      else (let e =
            status_error (http_error_of r) (wire.unmarshal_resp (take error_body_limit r.body)) in
          some (err e, note_status req r e (drain_and_close net)))

  unfoldable pub do_json :
      {A : Type 0} → ℕ → Wire → Config W → (Bytes → Result (Envelope A)) → Request → Act W A
  unfolding interpret do_request
  do_json fuel wire cfg decode req =
      let req' = record req { headers = set_header "Accept" "application/json" req.headers } in
      do_request fuel cfg req' >>= interpret wire decode req'
