-- ===== src/Transport/Exchange/Replay.antt =====
-- What `do` sends, in every round.
use mathlib.Core.List.{append_assoc}
use protonmail_go.Prelude.{
  sym, ◌++◌, All, All-append, ◌&&◌, not, [], ℕ, zero, suc, ◌≡◌, refl, ap, ◌∙◌, true, Option, none,
  some, ◌∷◌, List, lookup-insert, if-rule,
}
use protonmail_go.Errors.{Error}
use protonmail_go.Result.{Result, ok}
use protonmail_go.Http.{
  Request, Response, Reply, replied, failed, consumed, is_replayable, rewound, Body, get_header,
}
use protonmail_go.Client.{Session, Config, ReAuth}
use protonmail_go.Transport.{Act, Net, note, skipping_retry}
use protonmail_go.Transport.Exchange.{
  resume, retry, answer, receive, do_request, with_agent, is_refused, without_token,
}
use protonmail_go.Transport.Exchange.Rounds.{is_replayable-consumed}

-- A body that `GetBody` can give again is given again whole.
abbrev pub IsWhole : Body → Type 0
IsWhole b = is_replayable b ≡ true → rewound (consumed b) ≡ b

-- A request with the target and the body of `req`.
abbrev pub SameTarget : Request → Request → Type 0
SameTarget req q = (q.method ≡ req.method) × (q.url ≡ req.url) × (q.body ≡ req.body)

module _ {W A : Type 0} where
  -- What was sent since is satisfied by `P`.
  abbrev pub SentOnly : (Request → Type 0) → List Request → Option (Result A × Net W) → Type 0
  SentOnly P old none = Unit
  SentOnly P old (some (r, net)) = (new : List Request) × (net.sent ≡ new ++ old) × All P new

  SentOnly-cons :
      (P : Request → Type 0) (q : Request) (old : List Request) (o : Option (Result A × Net W))
      → P q
      → SentOnly P (q ∷ old) o
      → SentOnly P old o
  SentOnly-cons P q old none p h = tt
  SentOnly-cons P q old (some (r, net)) p (new, e, all) = (
    new ++ q ∷ [],
    e ∙ sym (append_assoc new (q ∷ []) old),
    All-append P new (q ∷ []) all (p, tt),
  )

module _ {W : Type 0} (cfg : Config W) where
  -- ... that also carries the client's user agent.
  abbrev pub Repeats : Request → Request → Type 0
  Repeats req q = SameTarget req q × (get_header "User-Agent" q.headers ≡ cfg.user_agent)

  with_agent-Repeats : (req q : Request) → SameTarget req q → Repeats req (with_agent cfg q)
  with_agent-Repeats req q s = (s, rw lookup-insert)

  module _ (req : Request) (whole : IsWhole req.body) (again : Request → Act W Response)
      (ih : (q : Request) (net : Net W)
        → SameTarget req q
        → SentOnly (Repeats req) net.sent (again q net)) where
    resume-SentOnly :
        (q : Request) (x : Option Error × Session × W) (net : Net W)
        → SameTarget req (record q { body = rewound q.body })
        → SentOnly (Repeats req) net.sent (resume again q x net)
    unfolding resume
    resume-SentOnly q (some e, s, w) net same = ([], refl, tt)
    resume-SentOnly q (none, s, w) net same = ih _ _ same

    answer-SentOnly :
        (reauth : Option (ReAuth W)) (q : Request) (r : Response) (net : Net W)
        → (q.method ≡ req.method) × (q.url ≡ req.url) × (q.body ≡ consumed req.body)
        → SentOnly (Repeats req) net.sent (answer again reauth q r net)
    unfolding answer retry
    answer-SentOnly none q r net same =
        if-rule (λ (m : Net W). SentOnly (Repeats req) net.sent (some (ok r, m)))
          (is_refused q r && not (is_replayable q.body))
          {x = note (skipping_retry q.method q.path) net} {y = net} (λ _. ([], refl, tt))
          (λ _. ([], refl, tt))
    answer-SentOnly (some fn) q r net (m, u, b) =
        if-rule (SentOnly (Repeats req) net.sent) (is_refused q r)
          (λ _.
            if-rule (SentOnly (Repeats req) net.sent) (is_replayable q.body)
              (λ free.
                let free' =
                  sym (is_replayable-consumed req.body) ∙ sym (ap is_replayable b) ∙ free in
                resume-SentOnly q (fn (without_token net.session) net.world) _
                  (m, u, ap rewound b ∙ whole free'))
              (λ _. ([], refl, tt)))
          (λ _. ([], refl, tt))

    receive-SentOnly :
        (reauth : Option (ReAuth W)) (q : Request) (x : Reply × W) (net : Net W)
        → Repeats req q
        → SentOnly (Repeats req) net.sent (receive again reauth q x net)
    unfolding receive
    receive-SentOnly reauth q (failed e, w) net p = (q ∷ [], refl, (p, tt))
    receive-SentOnly reauth q (replied r, w) net p =
        SentOnly-cons (Repeats req) q net.sent _ p
          (answer-SentOnly reauth _ r _ (p.0.0, p.0.1, ap consumed p.0.2))

  do_request-same :
      (req : Request)
      → IsWhole req.body
      → (fuel : ℕ) (q : Request) (net : Net W) → SameTarget req q
      → SentOnly (Repeats req) net.sent (do_request fuel cfg q net)
  unfolding do_request
  do_request-same req whole zero q net same = tt
  do_request-same req whole (suc fuel) q net same =
      receive-SentOnly req whole (do_request fuel cfg) (do_request-same req whole fuel) cfg.reauth
        (with_agent cfg q) (cfg.http_client net.world (with_agent cfg q)) net
        (with_agent-Repeats req q same)

  -- However many rounds are needed, every request that is sent has the method, the URL and the
  -- whole body of the first, and the client's user agent, if the body is one that `GetBody` gives
  -- again whole or does not give again.
  pub do_request-sent :
      (req : Request)
      → IsWhole req.body
      → (fuel : ℕ) (net : Net W) → SentOnly (Repeats req) net.sent (do_request fuel cfg req net)
  do_request-sent req whole fuel net = do_request-same req whole fuel req net (refl, refl, refl)
