-- ===== src/Transport/Json/Sending.antt =====
-- Requests: what `doJSON` sends is what `do` sends.
use mathlib.Core.List.{append_assoc}
use protonmail_go.Prelude.{
  All-append, ℕ, ◌≡◌, refl, ap, ◌∙◌, sym, Option, none, some, List, [], ◌++◌, if-rule,
}
use protonmail_go.Errors.{Error, api, sentinel}
use protonmail_go.Result.{Result, ok, err}
use protonmail_go.Http.{Bytes, Request, Response, set_header}
use protonmail_go.Client.{Config}
use protonmail_go.Transport.{Act, Net, Envelope, Wire, continue}
use protonmail_go.Transport.Exchange.{do_request, drain_and_close}
use protonmail_go.Transport.Exchange.Replay.{IsWhole, Repeats, SentOnly, do_request-sent}
use protonmail_go.Transport.Json.{do_json, interpret, note_status, decoded, conclude, is_success}

module _ {W : Type 0} where
  sent-note_status :
      (req : Request) (r : Response) (e : Error) (net : Net W)
      → (note_status req r e net).sent ≡ net.sent
  unfolding note_status
  sent-note_status req r (api a) net = refl
  sent-note_status req r (sentinel s) net = refl
  sent-note_status req r _ net = refl

module _ {W A : Type 0} (P : Request → Type 0) where
  conclude-SentOnly :
      (req : Request) (payload : A) (o : Option Error) (net : Net W)
      → SentOnly P net.sent (conclude req payload o net)
  unfolding conclude
  conclude-SentOnly req payload none net = ([], refl, tt)
  conclude-SentOnly req payload (some e) net = ([], refl, tt)

  decoded-SentOnly :
      (req : Request) (r : Response) (x : Result (Envelope A)) (net : Net W)
      → SentOnly P net.sent (decoded req r x net)
  unfolding decoded
  decoded-SentOnly req r (err e) net = ([], refl, tt)
  decoded-SentOnly req r (ok d) net = conclude-SentOnly req d.payload _ _

  interpret-SentOnly :
      (wire : Wire) (decode : Bytes → Result (Envelope A)) (req : Request) (r : Response)
      (net : Net W)
      → SentOnly P net.sent (interpret wire decode req r net)
  unfolding interpret
  interpret-SentOnly wire decode req r net =
      if-rule (SentOnly P net.sent) (is_success r.status_code)
        (λ _. decoded-SentOnly req r (decode r.body) (drain_and_close net))
        (λ _. ([], sent-note_status req r _ (drain_and_close net), tt))

  continue-SentOnly :
      (old : List Request) (x : Option (Result Response × Net W)) (f : Response → Act W A)
      → SentOnly P old x
      → ((r : Response) (net : Net W) → SentOnly P net.sent (f r net))
      → SentOnly P old (continue x f)
  continue-SentOnly old none f h k = tt
  continue-SentOnly old (some (ok r, net)) f (new, e, all) k = extend (f r net) (k r net)
    where
      extend : (o : Option (Result A × Net W)) → SentOnly P net.sent o → SentOnly P old o
      extend none h = tt
      extend (some (s, net')) (more, e', all') = (
        more ++ new,
        e' ∙ ap (◌++◌ more) e ∙ sym (append_assoc more new old),
        All-append P more new all' all,
      )
  continue-SentOnly old (some (err e, net)) f h k = h

-- The request with doJSON's Accept header.
abbrev pub accepting : Request → Request
accepting req = record req { headers = set_header "Accept" "application/json" req.headers }

-- Every request that doJSON sends has the method, the URL and the whole body of the request it was
-- given, and the client's user agent.
pub do_json-SentOnly :
    {W A : Type 0} (fuel : ℕ) (wire : Wire) (cfg : Config W) (decode : Bytes → Result (Envelope A))
    (req : Request) (net : Net W)
    → IsWhole req.body
    → SentOnly (Repeats cfg req) net.sent (do_json fuel wire cfg decode req net)
unfolding do_json
do_json-SentOnly fuel wire cfg decode req net whole =
    continue-SentOnly (Repeats cfg req) net.sent (do_request fuel cfg (accepting req) net)
      (interpret wire decode (accepting req)) (do_request-sent cfg (accepting req) whole fuel net)
      (λ r m. interpret-SentOnly (Repeats cfg req) wire decode (accepting req) r m)
