-- ===== src/Transport/Exchange/Rounds.antt =====
-- The rounds of `do`: what one answer leads to, and which header and body facts last.
use Prim.Native.String.{◌++◌ as append}
use protonmail_go.Prelude.{
  ◌&&◌, not, [], ℕ, suc, ◌-◌, ◌≡◌, refl, ap, ◌∙◌, true, false, Option, none, some, ◌∷◌, arith, List,
  String, insert, lookup-insert, is_some, ◌==◌, if-rule,
}
use protonmail_go.Errors.{Error}
use protonmail_go.Result.{ok}
use protonmail_go.Http.{
  Request, Response, replied, consumed, is_replayable, rewound, Body, no_body, stream, Headers,
  has_header, set_header,
}
use protonmail_go.Client.{Session, Config, ReAuth}
use protonmail_go.Transport.{Act, Net, set_request_authorization}
use protonmail_go.Transport.Exchange.{
  resume, retry, answer, receive, do_request, with_agent, is_refused, without_token,
}

pub has_header-insert :
    (k j : String) (v : List String) (h : Headers)
    → has_header j h ≡ true
    → has_header j (insert k v h) ≡ true
has_header-insert k j v h e =
    rw lookup-insert (if-rule (λ o. is_some o ≡ true) (k == j) (λ _. refl) (λ _. e))

-- A header that is there stays there.
pub has_header-set_request_authorization :
    (s : Session) (j : String) (h : Headers)
    → has_header j h ≡ true
    → has_header j (set_request_authorization s h) ≡ true
unfolding set_request_authorization
has_header-set_request_authorization s j h e =
    if-rule (λ x. has_header j x ≡ true) (not (s.uid == "") && not (s.access_token == ""))
      {x = set_header "Authorization" (append "Bearer " s.access_token)
        (set_header "X-Pm-Uid" s.uid h)}
      {y = h}
      (λ _.
        has_header-insert "Authorization" j (append "Bearer " s.access_token ∷ []) _
          (has_header-insert "X-Pm-Uid" j (s.uid ∷ []) h e))
      (λ _. e)

pub is_replayable-consumed : (b : Body) → is_replayable (consumed b) ≡ is_replayable b
is_replayable-consumed no_body = refl
is_replayable-consumed (stream u g) = refl

pub is_replayable-rewound :
    (b : Body) → is_replayable b ≡ true → is_replayable (rewound (consumed b)) ≡ true
is_replayable-rewound no_body e = refl
is_replayable-rewound (stream u none) e = e
is_replayable-rewound (stream u (some g)) e = refl

pub is_refused_of_status :
    (req : Request) (r : Response)
    → r.status_code ≡ 401
    → has_header "Authorization" req.headers ≡ true
    → is_refused req r ≡ true
is_refused_of_status req r e h = rw h (ground arith)

pub status_of_is_refused :
    (req : Request) (r : Response) → is_refused req r ≡ true → r.status_code ≡ 401
status_of_is_refused req r h = ground arith

module _ {W : Type 0} where
  resume-success :
      (again : Request → Act W Response) (req : Request) (net : Net W) (s : Session) (w : W)
      {x : Option Error × Session × W}
      → x ≡ (none, s, w)
      → resume again req x net
        ≡ again
            (record req {
              headers = set_request_authorization s req.headers;
              body = rewound req.body;
            })
            (record net { session = s; world = w })
  unfolding resume
  resume-success again req net s w e = ap (λ x. resume again req x net) e

  answer-retry :
      (again : Request → Act W Response) (fn : ReAuth W) (req : Request) (r : Response)
      (net : Net W) (n : ℕ) (s : Session) (w : W)
      → net.open_bodies ≡ suc n
      → is_refused req r ≡ true
      → is_replayable req.body ≡ true
      → fn (without_token net.session) net.world ≡ (none, s, w)
      → answer again (some fn) req r net
        ≡ again
            (record req {
              headers = set_request_authorization s req.headers;
              body = rewound req.body;
            })
            (record net { session = s; world = w; open_bodies = n })
  unfolding answer retry
  answer-retry again fn req r net n s w one refused free renewed =
      let closed : net.open_bodies - 1 ≡ n = omega arith in
      rw (refused, free)
        (resume-success again req _ s w renewed
          ∙ ap
              (λ k.
                again
                  (record req {
                    headers = set_request_authorization s req.headers;
                    body = rewound req.body;
                  })
                  (record net { session = s; world = w; open_bodies = k }))
              closed)

  answer-keep :
      (again : Request → Act W Response) (reauth : Option (ReAuth W)) (req : Request) (r : Response)
      (net : Net W)
      → is_refused req r ≡ false
      → answer again reauth req r net ≡ some (ok r, net)
  unfolding answer
  answer-keep again none req r net e = rw e
  answer-keep again (some fn) req r net e = rw e

module _ {W : Type 0} (cfg : Config W) where
  -- The request of the next round, with the credentials of session `s`.
  abbrev pub renewed_request : Request → Session → Request
  renewed_request req s = record (with_agent cfg req) {
    headers = set_request_authorization s (with_agent cfg req).headers;
    body = rewound (consumed req.body);
  }

  -- What a method acts on after request `q` was answered.
  abbrev pub answered_net : Net W → Request → W → Net W
  answered_net net q w = record net {
    world = w;
    open_bodies = suc net.open_bodies;
    sent = q ∷ net.sent;
  }

  module _ (req : Request) (net : Net W) (r : Response) (w : W)
      (answered : cfg.http_client net.world (with_agent cfg req) ≡ (replied r, w)) where
    -- One round of `do` that ends in a retry.
    pub retry_round :
        (fuel : ℕ) (fn : ReAuth W) (s : Session) (w' : W)
        → cfg.reauth ≡ some fn
        → is_refused (with_agent cfg req) r ≡ true
        → is_replayable req.body ≡ true
        → fn (without_token net.session) w ≡ (none, s, w')
        → do_request (suc fuel) cfg req net
          ≡ do_request fuel cfg
              (renewed_request req s)
              (record net { session = s; world = w'; sent = with_agent cfg req ∷ net.sent })
    unfolding do_request receive
    retry_round fuel fn s w' installed refused free renewed =
        let q = record (with_agent cfg req) { body = consumed req.body } in
        let net' = answered_net net (with_agent cfg req) w in
        ap (λ x. receive (do_request fuel cfg) cfg.reauth (with_agent cfg req) x net) answered
        ∙ ap (λ x. answer (do_request fuel cfg) x q r net') installed
        ∙ answer-retry (do_request fuel cfg) fn q r net' net.open_bodies s w' refl refused
            (is_replayable-consumed req.body ∙ free) renewed

    -- One round of `do` that hands the response to the caller, as it is no 401 with credentials.
    pub last_round :
        (fuel : ℕ)
        → is_refused (with_agent cfg req) r ≡ false
        → do_request (suc fuel) cfg req net ≡ some (ok r, answered_net net (with_agent cfg req) w)
    unfolding do_request receive
    last_round fuel kept =
        ap (λ x. receive (do_request fuel cfg) cfg.reauth (with_agent cfg req) x net) answered
        ∙ answer-keep (do_request fuel cfg) cfg.reauth _ r _ kept
