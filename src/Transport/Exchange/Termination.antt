-- ===== src/Transport/Exchange/Termination.antt =====
-- When the retry of `do` ends.
use protonmail_go.Prelude.{
  ℕ, zero, suc, ◌<◌, ◌≤◌, ◌≡◌, ◌≢◌, refl, Option, none, some, arith, if-rule,
}
use protonmail_go.Errors.{Error}
use protonmail_go.Http.{Request, Response, Reply, replied, failed, is_replayable}
use protonmail_go.Client.{Session, Config, ReAuth}
use protonmail_go.Transport.{Act, Net}
use protonmail_go.Transport.Exchange.{
  resume, retry, answer, receive, do_request, with_agent, is_refused, without_token,
}
use protonmail_go.Transport.Exchange.Rounds.{status_of_is_refused}

abbrev Returned : {A : Type 0} → Option A → Type 0
Returned o = o ≢ none

module _ {W : Type 0} (rank : W → ℕ) where
  -- The callback does not make the server refuse more often.
  abbrev pub IsSteady : ReAuth W → Type 0
  IsSteady fn =
      (s : Session) (w : W) (s' : Session) (w' : W) → fn s w ≡ (none, s', w') → rank w' ≤ rank w

  -- Every answer with 401 brings the world nearer to the end of the refusals.
  abbrev pub IsCalming : Config W → Type 0
  IsCalming cfg =
      (w : W) (q : Request) (r : Response) (w' : W)
      → cfg.http_client w q ≡ (replied r, w')
      → r.status_code ≡ 401
      → rank w' < rank w

  module _ (again : Request → Act W Response) (n : ℕ)
      (ih : (req : Request) (net : Net W) → rank net.world < n → Returned (again req net)) where
    resume-returns :
        (req : Request) (x : Option Error × Session × W) (net : Net W)
        → ((s : Session) (w : W) → x ≡ (none, s, w) → rank w < n)
        → Returned (resume again req x net)
    unfolding resume
    resume-returns req (some e, s, w) net low = λ h. cc
    resume-returns req (none, s, w) net low = ih _ _ (low s w refl)

    answer-returns :
        (reauth : Option (ReAuth W)) (req : Request) (r : Response) (net : Net W)
        → ((fn : ReAuth W) → reauth ≡ some fn → IsSteady fn)
        → (r.status_code ≡ 401 → rank net.world < n)
        → Returned (answer again reauth req r net)
    unfolding answer retry
    answer-returns none req r net steady low = λ h. cc
    answer-returns (some fn) req r net steady low =
        if-rule Returned (is_refused req r)
          (λ refused.
            if-rule Returned (is_replayable req.body)
              (λ _. resume-returns req _ _ (λ s w e.
                let bound = steady fn refl (without_token net.session) net.world s w e in
                let now = low (status_of_is_refused req r refused) in omega arith))
              (λ _ h. cc))
          (λ _ h. cc)

    receive-returns :
        (reauth : Option (ReAuth W)) (req : Request) (x : Reply × W) (net : Net W)
        → ((fn : ReAuth W) → reauth ≡ some fn → IsSteady fn)
        → ((r : Response) (w : W) → x ≡ (replied r, w) → r.status_code ≡ 401 → rank w < n)
        → Returned (receive again reauth req x net)
    unfolding receive
    receive-returns reauth req (failed e, w) net steady low = λ h. cc
    receive-returns reauth req (replied r, w) net steady low =
        answer-returns reauth _ r _ steady (low r w refl)

  -- If every answer with 401 lowers a rank of the outside world that the callback does not raise,
  -- then fuel above the rank is enough: the method returns a response or an error.
  pub do_request-terminates :
      (cfg : Config W)
      → IsCalming cfg
      → ((fn : ReAuth W) → cfg.reauth ≡ some fn → IsSteady fn)
      → (fuel : ℕ) (req : Request) (net : Net W) → rank net.world < fuel
      → do_request fuel cfg req net ≢ none
  unfolding do_request
  do_request-terminates cfg calm steady zero req net h = absurd (omega arith)
  do_request-terminates cfg calm steady (suc fuel) req net h =
      receive-returns (do_request fuel cfg) fuel
        (λ q m l. do_request-terminates cfg calm steady fuel q m l) cfg.reauth (with_agent cfg req)
        _ net steady
        (λ r w e s. let lower = calm net.world (with_agent cfg req) r w e s in omega arith)
