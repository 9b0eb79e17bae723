-- ===== src/Transport/Exchange/Lifecycle.antt =====
-- Response bodies: what `do` leaves open, on every path and for any number of retries.
use protonmail_go.Prelude.{
  ℕ, zero, suc, ◌+◌, ◌-◌, ◌≡◌, refl, subst, if-rule, Option, none, some, arith,
}
use protonmail_go.Errors.{Error}
use protonmail_go.Result.{Result, ok, err}
use protonmail_go.Http.{Request, Response, Reply, replied, failed, is_replayable}
use protonmail_go.Client.{Session, Config, ReAuth}
use protonmail_go.Transport.{Act, Net}
use protonmail_go.Transport.Exchange.{
  resume, retry, answer, receive, do_request, with_agent, drain_and_close, is_refused,
  without_token,
}

module _ {W : Type 0} where
  -- One body more is open if a response is returned, and none if an error is.
  abbrev pub Balanced : ℕ → Option (Result Response × Net W) → Type 0
  Balanced n none = Unit
  Balanced n (some (ok r, net)) = net.open_bodies ≡ n + 1
  Balanced n (some (err e, net)) = net.open_bodies ≡ n

  abbrev AllBalanced : (Request → Act W Response) → Type 0
  AllBalanced again = (req : Request) (net : Net W) → Balanced net.open_bodies (again req net)

  resume-Balanced :
      (again : Request → Act W Response)
      → AllBalanced again
      → (req : Request) (r : Option Error × Session × W) (net : Net W)
      → Balanced net.open_bodies (resume again req r net)
  unfolding resume
  resume-Balanced again h req (some e, s, w) net = refl
  resume-Balanced again h req (none, s, w) net = h _ _

  retry-Balanced :
      (again : Request → Act W Response)
      → AllBalanced again
      → (fn : ReAuth W) (req : Request) (net : Net W) (n : ℕ) → net.open_bodies ≡ n + 1
      → Balanced n (retry again fn req net)
  unfolding retry
  retry-Balanced again h fn req net n e =
      let closed : net.open_bodies - 1 ≡ n = omega arith in
      subst (λ k. Balanced k (retry again fn req net)) closed
        (resume-Balanced again h req (fn (without_token net.session) net.world)
          (drain_and_close (record net { session = without_token net.session })))

  answer-Balanced :
      (again : Request → Act W Response)
      → AllBalanced again
      → (reauth : Option (ReAuth W)) (req : Request) (r : Response) (net : Net W) (n : ℕ)
      → net.open_bodies ≡ n + 1
      → Balanced n (answer again reauth req r net)
  unfolding answer
  answer-Balanced again h none req r net n e = ground arith
  answer-Balanced again h (some fn) req r net n e =
      if-rule (Balanced n) (is_refused req r)
        (λ _.
          if-rule (Balanced n) (is_replayable req.body) (λ _. retry-Balanced again h fn req net n e)
            (λ _. e))
        (λ _. e)

  receive-Balanced :
      (again : Request → Act W Response)
      → AllBalanced again
      → (reauth : Option (ReAuth W)) (req : Request) (x : Reply × W) (net : Net W)
      → Balanced net.open_bodies (receive again reauth req x net)
  unfolding receive
  receive-Balanced again h reauth req (failed e, w) net = refl
  receive-Balanced again h reauth req (replied r, w) net =
      answer-Balanced again h reauth _ r _ net.open_bodies (omega arith)

  -- On return exactly one more body is open if a response is returned, and none if an error is.
  pub do_request-Balanced :
      (fuel : ℕ) (cfg : Config W) (req : Request) (net : Net W)
      → Balanced net.open_bodies (do_request fuel cfg req net)
  unfolding do_request
  do_request-Balanced zero cfg req net = tt
  do_request-Balanced (suc fuel) cfg req net =
      receive-Balanced (do_request fuel cfg) (do_request-Balanced fuel cfg) cfg.reauth
        (with_agent cfg req) (cfg.http_client net.world (with_agent cfg req)) net
