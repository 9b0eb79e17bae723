-- ===== src/Transport/Exchange/Tokens.antt =====
-- Which credentials the requests carry: those of the session, at newRequest and at every retry.
use Prim.Native.String.{◌++◌ as append}
use protonmail_go.Prelude.{
  ℕ, zero, suc, String, ◌≡◌, refl, true, false, ◌&&◌, not, Option, none, some, List, [], ◌∷◌, All,
  ◌⊎◌, inl, inr, lookup, insert, lookup-insert, if-rule, ◌==◌, arith,
}
use protonmail_go.Errors.{Error}
use protonmail_go.Result.{Result, ok, err}
use protonmail_go.Http.{
  Headers, set_header, Request, Response, Reply, replied, failed, consumed, is_replayable,
}
use protonmail_go.Client.{Session, Config, ReAuth}
use protonmail_go.Transport.{
  Act, Net, continue, base_headers, set_request_authorization, note, skipping_retry,
}
use protonmail_go.Transport.Building.{has_credentials}
use protonmail_go.Transport.Exchange.{
  resume, retry, answer, receive, do_request, with_agent, is_refused, without_token,
}

-- Pairs of a UID and a token.
abbrev pub Grants : Type 1
Grants = String → String → Type 0

module _ (G : Grants) where
  -- A session without credentials, or with granted ones.
  abbrev pub Bears : Session → Type 0
  Bears s = has_credentials s ≡ true → G s.uid s.access_token

  -- Headers without an Authorization, or with that of a granted pair, whose UID they carry as well.
  abbrev pub Carries : Headers → Type 0
  Carries h =
      (lookup "Authorization" h ≡ none)
      ⊎ ((uid token : String) × G uid token
          × (lookup "Authorization" h ≡ some (append "Bearer " token ∷ []))
          × (lookup "X-Pm-Uid" h ≡ some (uid ∷ [])))

  pub insert-Carries :
      (k : String) (v : List String) (h : Headers)
      → k == "Authorization" ≡ false
      → k == "X-Pm-Uid" ≡ false
      → Carries h
      → Carries (insert k v h)
  insert-Carries k v h a u (inl e) = inl (rw (lookup-insert, a) e)
  insert-Carries k v h a u (inr (uid, token, g, e, f)) =
      inr (uid, token, g, rw (lookup-insert, a) e, rw (lookup-insert, u) f)

  set_request_authorization-Carries :
      (s : Session) (h : Headers) → Bears s → Carries h → Carries (set_request_authorization s h)
  unfolding set_request_authorization
  set_request_authorization-Carries s h b c =
      if-rule Carries (has_credentials s)
        {x = set_header "Authorization" (append "Bearer " s.access_token)
          (set_header "X-Pm-Uid" s.uid h)}
        {y = h}
        (λ e. inr (
          s.uid,
          s.access_token,
          b e,
          rw lookup-insert refl,
          rw (lookup-insert, lookup-insert) refl,
        ))
        (λ _. c)

  without_token-Bears : (s : Session) → Bears (without_token s)
  without_token-Bears s e = absurd (ground arith)

  pub base_headers-Carries :
      {W : Type 0} (cfg : Config W) (s : Session) → Bears s → Carries (base_headers cfg s)
  unfolding lookup insert
  base_headers-Carries cfg s b = set_request_authorization-Carries s _ b (inl refl)

  module _ {W : Type 0} where
    -- The session and all that was sent bear and carry only granted credentials.
    abbrev pub Good : Net W → Type 0
    Good net = Bears net.session × All (λ (q : Request). Carries q.headers) net.sent

    -- Whatever is returned, it is good afterwards.
    abbrev pub GoesWell : {A : Type 0} → Option (Result A × Net W) → Type 0
    GoesWell none = Unit
    GoesWell (some (r, net)) = Good net

    pub continue-GoesWell :
        {A B : Type 0} (o : Option (Result A × Net W)) (f : A → Act W B)
        → GoesWell o
        → ((a : A) (net : Net W) → Good net → GoesWell (f a net))
        → GoesWell (continue o f)
    continue-GoesWell none f h k = tt
    continue-GoesWell (some (ok a, net)) f h k = k a net h
    continue-GoesWell (some (err e, net)) f h k = h

    -- A callback of WithReAuth may change the session, but only to granted credentials or to none.
    abbrev pub Renews : Option (ReAuth W) → Type 0
    Renews none = Unit
    Renews (some fn) = (s : Session) (w : W) → Bears s → Bears (fn s w).1

    module _ (again : Request → Act W Response)
        (ih : (q : Request) (net : Net W)
          → Carries q.headers
          → Good net
          → GoesWell (again q net)) where
      resume-GoesWell :
          (q : Request) (x : Option Error × Session × W) (net : Net W)
          → Carries q.headers
          → Bears x.1
          → Good net
          → GoesWell (resume again q x net)
      unfolding resume
      resume-GoesWell q (some e, s, w) net c b g = (b, g.1)
      resume-GoesWell q (none, s, w) net c b g =
          ih _ _ (set_request_authorization-Carries s q.headers b c) (b, g.1)

      answer-GoesWell :
          (reauth : Option (ReAuth W)) (q : Request) (r : Response) (net : Net W)
          → Renews reauth
          → Carries q.headers
          → Good net
          → GoesWell (answer again reauth q r net)
      unfolding answer retry
      answer-GoesWell none q r net n c g =
          if-rule Good (is_refused q r && not (is_replayable q.body))
            {x = note (skipping_retry q.method q.path) net} {y = net} (λ _. g) (λ _. g)
      answer-GoesWell (some fn) q r net n c g =
          if-rule GoesWell (is_refused q r)
            (λ _.
              if-rule GoesWell (is_replayable q.body)
                (λ _.
                  resume-GoesWell q (fn (without_token net.session) net.world) _ c
                    (n (without_token net.session) net.world (without_token-Bears net.session))
                    (without_token-Bears net.session, g.1))
                (λ _. g))
            (λ _. g)

      receive-GoesWell :
          (reauth : Option (ReAuth W)) (q : Request) (x : Reply × W) (net : Net W)
          → Renews reauth
          → Carries q.headers
          → Good net
          → GoesWell (receive again reauth q x net)
      unfolding receive
      receive-GoesWell reauth q (failed e, w) net n c g = (g.0, (c, g.1))
      receive-GoesWell reauth q (replied r, w) net n c g =
          answer-GoesWell reauth (record q { body = consumed q.body }) r _ n c (g.0, (c, g.1))

    module _ (cfg : Config W) (renews : Renews cfg.reauth) where
      -- A good request of `do` goes well, whatever the callback and the retries.
      pub do_request-GoesWell :
          (fuel : ℕ) (q : Request) (net : Net W)
          → Carries q.headers
          → Good net
          → GoesWell (do_request fuel cfg q net)
      unfolding do_request
      do_request-GoesWell zero q net c g = tt
      do_request-GoesWell (suc fuel) q net c g =
          receive-GoesWell (do_request fuel cfg) (do_request-GoesWell fuel) cfg.reauth
            (with_agent cfg q) (cfg.http_client net.world (with_agent cfg q)) net renews
            (insert-Carries "User-Agent" (cfg.user_agent ∷ []) q.headers refl refl c) g
