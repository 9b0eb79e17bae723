-- ===== src/Transport/Tests.antt =====
-- Runs of `do` and `doJSON` against small servers, and the theorems about them at these servers.
use mathlib.Core.Path.{ap, subst}
use protonmail_go.Prelude.{
  ◌<◌, lookup, insert, ℕ, zero, suc, ◌≡◌, ◌≢◌, ◌⊎◌, ◌↔◌, refl, true, Option, none, some, [], ◌∷◌,
  arith, pos,
}
use protonmail_go.Errors.{Error, is, Sentinel}
use protonmail_go.Errors.Matching.{StatusMeans}
use protonmail_go.Http.{Bytes, Headers, HttpClient, Request, Response, replied, stream}
use protonmail_go.Result.{Result, ok, err}
use protonmail_go.Client.{Config, Session, ReAuth, default_config}
use protonmail_go.Transport.{Net, Wire, Envelope}
use protonmail_go.Transport.Exchange.{do_request, with_agent}
use protonmail_go.Transport.Exchange.Divergence.{do_request-diverges}
use protonmail_go.Transport.Exchange.Termination.{IsSteady, do_request-terminates}
use protonmail_go.Transport.Exchange.Replay.{SentOnly, Repeats, do_request-sent}
use protonmail_go.Transport.Redaction.{redacted_headers, Redacts, redacted_headers-Redacts}
use protonmail_go.Transport.Json.{do_json}
use protonmail_go.Transport.Json.Closing.{Unchanged, do_json-Unchanged}
use protonmail_go.Transport.Json.Status.{EnvelopeMeans, do_json-refused, do_json-accepted, Answered}

abbrev reply_with : ℕ → Response
reply_with status = record { status_code = status; status = ""; body = 1 ∷ 2 ∷ [] }

-- A server that refuses as many requests as the number says, and then accepts.
abbrev patient : HttpClient ℕ
patient zero q = (replied (reply_with 200), 0)
patient (suc n) q = (replied (reply_with 401), n)

abbrev strict : HttpClient ℕ
strict w q = (replied (reply_with 401), w)

abbrev missing : HttpClient ℕ
missing w q = (replied (reply_with 404), w)

abbrev refresh : ReAuth ℕ
refresh s w = (none, record s { access_token = "fresh" }, w)

abbrev with_client : HttpClient ℕ → Config ℕ
with_client h = record (default_config h 0) { app_version = "t/1"; reauth = some refresh }

abbrev stale : Session
stale = record { uid = "u"; access_token = "stale"; key_ring = [] }

abbrev net_at : ℕ → Net ℕ
net_at w = record { session = stale; world = w; open_bodies = 0; sent = []; log = [] }

abbrev ask : Request
ask = record {
  method = "POST";
  url = "https://mail.proton.me/api/messages";
  path = "/messages";
  headers = ("Authorization", "Bearer stale" ∷ []) ∷ [];
  body = stream (7 ∷ 8 ∷ []) (some (7 ∷ 8 ∷ []));
}

abbrev wire : Wire
wire = record {
  url_path = λ u. ok u;
  unmarshal_resp =
      λ b. ok (record { code = pos 8002; error_message = some "denied"; payload = tt });
}

abbrev decode : Bytes → Result (Envelope ℕ)
decode b = ok (record { code = pos 1000; error_message = none; payload = 5 })

do_request-diverges_example : do_request 9 (with_client strict) ask (net_at 0) ≡ none
unfolding lookup
do_request-diverges_example =
    do_request-diverges (with_client strict) refresh refl (λ w q. ((reply_with 401, w), refl, refl))
      (λ s w. ((record s { access_token = "fresh" }, w), refl)) 9 ask (net_at 0) refl refl

calm :
    (w : ℕ) (q : Request) (r : Response) (w' : ℕ)
    → patient w q ≡ (replied r, w')
    → r.status_code ≡ 401
    → w' < w
calm zero q r w' e s = ground arith
calm (suc n) q r w' e s = ground arith

refresh-IsSteady : IsSteady (λ (w : ℕ). w) refresh
refresh-IsSteady s w s' w' e =
    let same : w ≡ w' = ap (λ (x : Option Error × Session × ℕ). x.2) e in omega arith

steady : (fn : ReAuth ℕ) → some refresh ≡ some fn → IsSteady (λ (w : ℕ). w) fn
steady fn e = let same : refresh ≡ fn = cc in subst (IsSteady (λ (w : ℕ). w)) same refresh-IsSteady

do_request-terminates_example : do_request 3 (with_client patient) ask (net_at 2) ≢ none
do_request-terminates_example =
    do_request-terminates (λ w. w) (with_client patient) calm steady 3 ask (net_at 2) (omega arith)

do_request-sent_example :
    SentOnly
      (Repeats (with_client patient) ask)
      []
      (do_request 3 (with_client patient) ask (net_at 2))
do_request-sent_example = do_request-sent (with_client patient) ask (λ e. refl) 3 (net_at 2)

do_json-Unchanged_example : Unchanged 0 (do_json 3 wire (with_client patient) decode ask (net_at 1))
do_json-Unchanged_example = do_json-Unchanged 3 wire (with_client patient) decode ask (net_at 1)

abbrev ask_json : Request
ask_json = record ask {
  headers = ("Accept", "application/json" ∷ []) ∷ ("Authorization", "Bearer stale" ∷ []) ∷ [];
}

abbrev answered_by : HttpClient ℕ → ℕ → Net ℕ
answered_by h w = record (net_at w) {
  open_bodies = 1;
  sent = with_agent (with_client h) ask_json ∷ [];
}

missing_runs :
    Answered 1 wire
      (with_client missing)
      decode
      ask
      (net_at 0)
      (reply_with 404)
      (answered_by missing 0)
unfolding do_request lookup insert
missing_runs = refl

do_json-refused_example :
    (e : Error) × (net' : Net ℕ) × (do_json 1 wire (with_client missing) decode ask (net_at 0)
      ≡ some (err e, net'))
    × ((s : Sentinel)
        → (is e s ≡ true)
          ↔ (EnvelopeMeans (wire.unmarshal_resp (1 ∷ 2 ∷ [])) s ⊎ StatusMeans 404 s))
do_json-refused_example =
    do_json-refused 1 wire (with_client missing) decode ask (net_at 0) (reply_with 404)
      (answered_by missing 0) missing_runs refl

accepted_runs :
    Answered 1 wire
      (with_client patient)
      decode
      ask
      (net_at 0)
      (reply_with 200)
      (answered_by patient 0)
unfolding do_request lookup insert
accepted_runs = refl

do_json-accepted_example :
    (net' : Net ℕ) × (do_json 1 wire (with_client patient) decode ask (net_at 0)
      ≡ some (ok 5, net'))
do_json-accepted_example =
    do_json-accepted 1 wire (with_client patient) decode ask (net_at 0) (reply_with 200)
      (answered_by patient 0) (record { code = pos 1000; error_message = none; payload = 5 })
      accepted_runs refl refl

abbrev secret : Headers
secret = ("Authorization", "Bearer t" ∷ []) ∷ ("Accept", "application/json" ∷ []) ∷ []

redacted_headers-Redacts_example : Redacts secret (redacted_headers secret)
redacted_headers-Redacts_example = redacted_headers-Redacts secret
