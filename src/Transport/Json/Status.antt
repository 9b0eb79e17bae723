-- ===== src/Transport/Json/Status.antt =====
-- The typed errors of `doJSON` for a status that is not 2xx.
use protonmail_go.Prelude.{
  ℕ, String, ◌≡◌, ◌≢◌, ◌⊎◌, ◌↔◌, inl, inr, refl, ap, ◌∙◌, Option, none, some, true, false, ℤ,
  eq_iff, ◌==◌, Bool-cases, take,
}
use protonmail_go.Errors.{Error, HttpError, api, Sentinel, is}
use protonmail_go.Errors.Matching.{StatusMeans, CodeMeans, is-http_iff, is-api_iff}
use protonmail_go.Result.{Result, ok, err}
use protonmail_go.Http.{Bytes, Request, Response, set_header}
use protonmail_go.Client.{Config}
use protonmail_go.Transport.{
  Net, note, response, code_error, envelope_err, Envelope, Wire, continue,
}
use protonmail_go.Transport.Exchange.{do_request, drain_and_close}
use protonmail_go.Transport.Json.{
  is_success, error_body_limit, envelope_error, http_error_of, status_error, note_status, conclude,
  decoded, interpret, do_json,
}

-- The body is an envelope with a message that is not empty, and its code means `s`.
abbrev pub EnvelopeMeans : Result (Envelope (Unit {0})) → Sentinel → Type 0
EnvelopeMeans (err e) s = ⊥
EnvelopeMeans (ok raw) s =
    (m : String) × (raw.error_message ≡ some m) × (m ≢ "") × CodeMeans raw.code s

module _ (h : HttpError) (code : ℤ) (s : Sentinel) where
  envelope_error_iff :
      (o : Option String)
      → (is (envelope_error h code o) s ≡ true) ↔ (
          ((m : String) × (o ≡ some m) × (m ≢ "") × CodeMeans code s) ⊎ StatusMeans h.status_code s)
  unfolding envelope_error
  envelope_error_iff none = (
    λ x. inr ((is-http_iff h s).0 x),
    λ y. elim y [ inl (m, e, _, _) ↦ cc | inr t ↦ (is-http_iff h s).1 t ],
  )
  envelope_error_iff (some m) = elim (Bool-cases (m == "")) [
    | inl e ↦ rw e (
      λ x. inr ((is-http_iff h s).0 x),
      λ y. elim y [
        | inl (m', p, ne, _) ↦ let q : m' ≡ m = cc in absurd (ne (q ∙ (eq_iff m "").0 e))
        | inr t ↦ (is-http_iff h s).1 t
      ],
    )
    | inr e ↦
        let full : m ≢ "" = λ p. cc (e, (eq_iff m "").1 p) in
        rw e (
          λ x. elim ((is-api_iff code m h s).0 x) [
            | inl c ↦ inl (m, refl, full, c)
            | inr t ↦ inr t
          ],
          λ y. (is-api_iff code m h s).1 (elim y [ inl (_, _, _, c) ↦ inl c | inr t ↦ inr t ]),
        )
  ]

-- The category of the error for a refused status: by the status, or by the code of an envelope.
pub status_error_iff :
    (h : HttpError) (raw : Result (Envelope (Unit {0}))) (s : Sentinel)
    → (is (status_error h raw) s ≡ true) ↔ (EnvelopeMeans raw s ⊎ StatusMeans h.status_code s)
unfolding status_error
status_error_iff h (err e) s = (
  λ x. inr ((is-http_iff h s).0 x),
  λ y. elim y [ inl b ↦ absurd b | inr t ↦ (is-http_iff h s).1 t ],
)
status_error_iff h (ok raw) s = envelope_error_iff h raw.code s raw.error_message

-- What an envelope that decoded is returned as.
abbrev pub verdict : {A : Type 0} → ℤ → Option String → A → Result A
verdict code none payload = ok payload
verdict code (some m) payload = err (api (record { code = code; message = m; http_error = none }))

conclude-verdict :
    {W A : Type 0} (req : Request) (payload : A) (code : ℤ) (o : Option String) (net : Net W)
    → (net' : Net W) × (conclude req payload (code_error code o) net
        ≡ some (verdict code o payload, net'))
unfolding conclude code_error
conclude-verdict req payload code none net = (net, refl)
conclude-verdict req payload code (some m) net = (_, refl)

module _ {W A : Type 0} (fuel : ℕ) (wire : Wire) (cfg : Config W)
    (decode : Bytes → Result (Envelope A)) (req : Request) (net : Net W) where
  -- What `do` makes of the request with doJSON's Accept header.
  abbrev pub Answered : Response → Net W → Type 0
  Answered r net' =
      do_request fuel cfg
        (record req { headers = set_header "Accept" "application/json" req.headers }) net
      ≡ some (ok r, net')

  -- If the server's answer has a status that is not 2xx, doJSON returns an error. That error is
  -- matched by a sentinel exactly if the status is that of the sentinel (401, 404, 429), or the
  -- first 64 KiB of the body are an envelope with a message and its code stands for the sentinel.
  pub do_json-refused :
      (r : Response) (net' : Net W)
      → Answered r net'
      → is_success r.status_code ≡ false
      → (e : Error) × (net'' : Net W) × (do_json fuel wire cfg decode req net ≡ some (err e, net''))
        × ((s : Sentinel)
            → (is e s ≡ true) ↔ (
                EnvelopeMeans (wire.unmarshal_resp (take error_body_limit r.body)) s
                ⊎ StatusMeans r.status_code s))
  unfolding do_json interpret
  do_json-refused r net' answered refused =
      let raw = wire.unmarshal_resp (take error_body_limit r.body) in
      let e = status_error (http_error_of r) raw in
      let req' = record req { headers = set_header "Accept" "application/json" req.headers } in
      (
        e,
        note_status req' r e (drain_and_close net'),
        ap (λ x. continue x (interpret wire decode req')) answered ∙ rw refused,
        status_error_iff (http_error_of r) raw,
      )

  -- If the status is 2xx and the body decodes, doJSON returns the payload exactly if the envelope
  -- has no error member; otherwise it returns an *APIError with the envelope's code and message and
  -- no *HTTPError.
  pub do_json-accepted :
      (r : Response) (net' : Net W) (d : Envelope A)
      → Answered r net'
      → is_success r.status_code ≡ true
      → decode r.body ≡ ok d
      → (net'' : Net W) × (do_json fuel wire cfg decode req net
          ≡ some (verdict d.code d.error_message d.payload, net''))
  unfolding do_json interpret decoded envelope_err
  do_json-accepted r net' d answered accepted e =
      let req' = record req { headers = set_header "Accept" "application/json" req.headers } in
      let (m, q) =
        conclude-verdict req' d.payload d.code d.error_message
          (note (response req'.method req'.path r.status_code) (drain_and_close net')) in
      (m, ap (λ x. continue x (interpret wire decode req')) answered ∙ rw (accepted, e) q)
