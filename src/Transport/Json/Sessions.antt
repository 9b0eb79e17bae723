-- ===== src/Transport/Json/Sessions.antt =====
-- Without a callback of WithReAuth, `do` and `doJSON` leave the session alone.
use protonmail_go.Prelude.{ℕ, ◌≡◌, refl, subst, Option, none, some, if-rule}
use protonmail_go.Errors.{Error, api}
use protonmail_go.Result.{Result, ok, err}
use protonmail_go.Http.{Bytes, Request, Response, set_header}
use protonmail_go.Client.{Session, Config}
use protonmail_go.Transport.{Net, Envelope, Wire}
use protonmail_go.Transport.Exchange.{do_request, drain_and_close}
use protonmail_go.Transport.Exchange.Sessions.{
  KeepsSession, continue-KeepsSession, do_request-KeepsSession,
}
use protonmail_go.Transport.Json.{do_json, interpret, note_status, decoded, conclude, is_success}

module _ {W : Type 0} where
  session-note_status :
      (req : Request) (r : Response) (e : Error) (net : Net W)
      → (note_status req r e net).session ≡ net.session
  unfolding note_status
  session-note_status req r (api a) net = refl
  session-note_status req r _ net = refl

module _ {W A : Type 0} where
  conclude-KeepsSession :
      (req : Request) (payload : A) (o : Option Error) (net : Net W)
      → KeepsSession net.session (conclude req payload o net)
  unfolding conclude
  conclude-KeepsSession req payload none net = refl
  conclude-KeepsSession req payload (some e) net = refl

  decoded-KeepsSession :
      (req : Request) (r : Response) (x : Result (Envelope A)) (net : Net W)
      → KeepsSession net.session (decoded req r x net)
  unfolding decoded
  decoded-KeepsSession req r (err e) net = refl
  decoded-KeepsSession req r (ok d) net = conclude-KeepsSession req d.payload _ _

  interpret-KeepsSession :
      (wire : Wire) (decode : Bytes → Result (Envelope A)) (req : Request) (r : Response)
      (net : Net W)
      → KeepsSession net.session (interpret wire decode req r net)
  unfolding interpret
  interpret-KeepsSession wire decode req r net =
      if-rule (KeepsSession net.session) (is_success r.status_code)
        (λ _. decoded-KeepsSession req r (decode r.body) (drain_and_close net))
        (λ _. session-note_status req r _ (drain_and_close net))

  pub do_json-KeepsSession :
      (fuel : ℕ) (wire : Wire) (cfg : Config W) (decode : Bytes → Result (Envelope A))
      (req : Request) (net : Net W) (s : Session)
      → cfg.reauth ≡ none
      → net.session ≡ s
      → KeepsSession s (do_json fuel wire cfg decode req net)
  unfolding do_json
  do_json-KeepsSession fuel wire cfg decode req net s h same =
      let req' = record req { headers = set_header "Accept" "application/json" req.headers } in
      continue-KeepsSession s (do_request fuel cfg req' net) (interpret wire decode req')
        (subst (λ t. KeepsSession t (do_request fuel cfg req' net)) same
          (do_request-KeepsSession fuel cfg req' net h))
        (λ r m e.
          subst (λ t. KeepsSession t (interpret wire decode req' r m)) e
            (interpret-KeepsSession wire decode req' r m))
