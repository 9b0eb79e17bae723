-- ===== src/Transport/Json/Closing.antt =====
-- Response bodies: `doJSON` closes what `do` opened.
use protonmail_go.Prelude.{ℕ, ◌+◌, ◌≡◌, refl, Option, none, some, arith, if-rule, subst}
use protonmail_go.Errors.{Error, api, sentinel}
use protonmail_go.Result.{Result, ok, err}
use protonmail_go.Http.{Bytes, Request, Response, set_header}
use protonmail_go.Client.{Config}
use protonmail_go.Transport.{Act, Net, Envelope, Wire, continue}
use protonmail_go.Transport.Exchange.{do_request, drain_and_close}
use protonmail_go.Transport.Exchange.Lifecycle.{Balanced, do_request-Balanced}
use protonmail_go.Transport.Json.{is_success, note_status, decoded, interpret, do_json}

-- As many bodies are open as before.
abbrev pub Unchanged : {W A : Type 0} → ℕ → Option (Result A × Net W) → Type 0
Unchanged n none = Unit
Unchanged n (some (r, net)) = net.open_bodies ≡ n

module _ {W : Type 0} where
  open_bodies-note_status :
      (req : Request) (r : Response) (e : Error) (net : Net W)
      → (note_status req r e net).open_bodies ≡ net.open_bodies
  unfolding note_status
  open_bodies-note_status req r (api a) net = refl
  open_bodies-note_status req r (sentinel s) net = refl
  open_bodies-note_status req r _ net = refl

module _ {W A : Type 0} where
  decoded-Unchanged :
      (req : Request) (r : Response) (x : Result (Envelope A)) (net : Net W)
      → Unchanged net.open_bodies (decoded req r x net)
  unfolding decoded
  decoded-Unchanged req r (err e) net = refl
  decoded-Unchanged req r (ok d) net = ground arith

  interpret-Unchanged :
      (wire : Wire) (decode : Bytes → Result (Envelope A)) (req : Request) (r : Response)
      (net : Net W) (n : ℕ)
      → net.open_bodies ≡ n + 1
      → Unchanged n (interpret wire decode req r net)
  unfolding interpret
  interpret-Unchanged wire decode req r net n e =
      let closed : (drain_and_close net).open_bodies ≡ n = omega arith in
      subst (λ k. Unchanged k (interpret wire decode req r net)) closed
        (if-rule (Unchanged (drain_and_close net).open_bodies) (is_success r.status_code)
          (λ _. decoded-Unchanged req r (decode r.body) (drain_and_close net))
          (λ _. open_bodies-note_status req r _ (drain_and_close net)))

  continue-Unchanged :
      (n : ℕ) (x : Option (Result Response × Net W)) (f : Response → Act W A)
      → Balanced n x
      → ((r : Response) (net : Net W) → net.open_bodies ≡ n + 1 → Unchanged n (f r net))
      → Unchanged n (continue x f)
  continue-Unchanged n none f b k = tt
  continue-Unchanged n (some (ok r, net)) f b k = k r net b
  continue-Unchanged n (some (err e, net)) f b k = b

  -- Whatever the server answers, and whether it returns a value or an error, doJSON leaves as many
  -- response bodies open as it found.
  pub do_json-Unchanged :
      (fuel : ℕ) (wire : Wire) (cfg : Config W) (decode : Bytes → Result (Envelope A))
      (req : Request) (net : Net W)
      → Unchanged net.open_bodies (do_json fuel wire cfg decode req net)
  unfolding do_json
  do_json-Unchanged fuel wire cfg decode req net =
      let req' = record req { headers = set_header "Accept" "application/json" req.headers } in
      continue-Unchanged net.open_bodies (do_request fuel cfg req' net) (interpret wire decode req')
        (do_request-Balanced fuel cfg req' net)
        (λ r m e. interpret-Unchanged wire decode req' r m net.open_bodies e)
