-- ===== src/Transport/Exchange/Sessions.antt =====
-- Without a callback of WithReAuth, `do` leaves the session alone.
use protonmail_go.Prelude.{ℕ, zero, suc, ◌∷◌, ◌≡◌, refl, ◌&&◌, not, Option, none, some, if-rule}
use protonmail_go.Result.{Result, ok, err}
use protonmail_go.Http.{Request, Response, Reply, replied, failed, is_replayable, consumed}
use protonmail_go.Client.{Session, Config, ReAuth}
use protonmail_go.Transport.{Act, Net, note, skipping_retry, continue}
use protonmail_go.Transport.Exchange.{answer, receive, do_request, with_agent, is_refused}

module _ {W A : Type 0} where
  -- The session is `s`, whatever was returned.
  abbrev pub KeepsSession : Session → Option (Result A × Net W) → Type 0
  KeepsSession s none = Unit
  KeepsSession s (some (r, net)) = net.session ≡ s

module _ {W : Type 0} where
  answer-KeepsSession :
      (again : Request → Act W Response) (req : Request) (r : Response) (net : Net W)
      → KeepsSession net.session (answer again none req r net)
  unfolding answer
  answer-KeepsSession again req r net =
      if-rule (λ (m : Net W). m.session ≡ net.session)
        (is_refused req r && not (is_replayable req.body))
        {x = note (skipping_retry req.method req.path) net} {y = net} (λ _. refl) (λ _. refl)

  receive-KeepsSession :
      (again : Request → Act W Response) (reauth : Option (ReAuth W)) (req : Request)
      (x : Reply × W) (net : Net W)
      → reauth ≡ none
      → KeepsSession net.session (receive again reauth req x net)
  unfolding receive
  receive-KeepsSession again reauth req (failed e, w) net h = refl
  receive-KeepsSession again none req (replied r, w) net h =
      answer-KeepsSession again (record req { body = consumed req.body }) r
        (record net { world = w; open_bodies = suc net.open_bodies; sent = req ∷ net.sent })
  receive-KeepsSession again (some fn) req (replied r, w) net h = elim (some≢none h) [ ]
    where
      some≢none : some fn ≡ none → ⊥
      some≢none h = cc

  pub do_request-KeepsSession :
      (fuel : ℕ) (cfg : Config W) (req : Request) (net : Net W)
      → cfg.reauth ≡ none
      → KeepsSession net.session (do_request fuel cfg req net)
  unfolding do_request
  do_request-KeepsSession zero cfg req net h = tt
  do_request-KeepsSession (suc fuel) cfg req net h =
      receive-KeepsSession (do_request fuel cfg) cfg.reauth (with_agent cfg req) _ net h

module _ {W A B : Type 0} where
  -- A chain of two that keep the session keeps it.
  pub continue-KeepsSession :
      (s : Session) (o : Option (Result A × Net W)) (f : A → Act W B)
      → KeepsSession s o
      → ((a : A) (net : Net W) → net.session ≡ s → KeepsSession s (f a net))
      → KeepsSession s (continue o f)
  continue-KeepsSession s none f h k = tt
  continue-KeepsSession s (some (ok a, net)) f h k = k a net h
  continue-KeepsSession s (some (err e, net)) f h k = h
