-- ===== src/Transport/Exchange/Divergence.antt =====
-- When the retry of `do` does not end.
use protonmail_go.Prelude.{[], ℕ, zero, suc, ◌≡◌, refl, ◌∙◌, true, none, some, ◌∷◌}
use protonmail_go.Http.{Request, Response, replied, is_replayable, has_header}
use protonmail_go.Client.{Session, Config, ReAuth}
use protonmail_go.Transport.{Net}
use protonmail_go.Transport.Exchange.{do_request, with_agent, without_token}
use protonmail_go.Transport.Exchange.Rounds.{
  has_header-insert, has_header-set_request_authorization, is_replayable-rewound,
  is_refused_of_status, renewed_request, retry_round,
}

module _ {W : Type 0} (cfg : Config W) where
  -- A server that refuses every request, whatever its credentials.
  abbrev pub AlwaysRefuses : Type 0
  AlwaysRefuses =
      (w : W) (q : Request)
      → (x : Response × W) × (cfg.http_client w q ≡ (replied x.0, x.1)) × (x.0.status_code ≡ 401)

  -- A callback that always reports success.
  abbrev pub AlwaysSucceeds : ReAuth W → Type 0
  AlwaysSucceeds fn = (s : Session) (w : W) → (y : Session × W) × (fn s w ≡ (none, y.0, y.1))

  -- If the server answers every request with 401 and the callback always succeeds, a replayable
  -- request that carries an Authorization header is retried without end: no fuel is enough.
  pub do_request-diverges :
      (fn : ReAuth W)
      → cfg.reauth ≡ some fn
      → AlwaysRefuses
      → AlwaysSucceeds fn
      → (fuel : ℕ) (req : Request) (net : Net W) → has_header "Authorization" req.headers ≡ true
      → is_replayable req.body ≡ true
      → do_request fuel cfg req net ≡ none
  unfolding do_request
  do_request-diverges fn installed refuses succeeds zero req net a b = refl
  do_request-diverges fn installed refuses succeeds (suc fuel) req net a b =
      let (x, replied', status) = refuses net.world (with_agent cfg req) in
      let (y, renewed) = succeeds (without_token net.session) x.1 in
      let a' = has_header-insert "User-Agent" "Authorization" (cfg.user_agent ∷ []) req.headers a in
      retry_round cfg req net x.0 x.1 replied' fuel fn y.0 y.1 installed
        (is_refused_of_status (with_agent cfg req) x.0 status a') b renewed
      ∙ do_request-diverges fn installed refuses succeeds fuel (renewed_request cfg req y.0) _
          (has_header-set_request_authorization y.0 "Authorization" _ a')
          (is_replayable-rewound req.body b)
