-- ===== src/Client/Construction.antt =====
-- What NewClient and the options guarantee of the client that they build.
use protonmail_go.Prelude.{
  ℕ, String, ◌≡◌, ◌≢◌, ◌⊎◌, inl, inr, ◌↔◌, refl, sym, ap, ◌∙◌, subst, true, List, [], ◌∷◌, ◌++◌,
  arith, eq_iff,
}
use protonmail_go.Errors.{Error}
use protonmail_go.Http.{HttpClient}
use protonmail_go.Result.{ok, err, Result-cases, ok-injective}
use protonmail_go.Text.{equal_fold, trim_right_slashes}
use protonmail_go.Client.{
  Config, Client, UrlParse, ParsedUrl, Opt, default_config, is_loopback_host, with_base_url,
  apply_options, new_client, finish, accept_url,
}

-- A host that may be reached over plain http.
abbrev pub IsLoopback : String → Type 0
IsLoopback host = (host ≡ "127.0.0.1") ⊎ (host ≡ "::1") ⊎ (equal_fold host "localhost" ≡ true)

-- A base URL that the option takes: https anywhere, http on a loopback host.
abbrev pub IsAllowed : ParsedUrl → Type 0
IsAllowed p = (p.scheme ≡ "https") ⊎ (p.scheme ≡ "http") × IsLoopback p.hostname

is_loopback_host_iff : (host : String) → (is_loopback_host host ≡ true) ↔ IsLoopback host
unfolding is_loopback_host
is_loopback_host_iff host = ground (arith, eq_iff host "127.0.0.1", eq_iff host "::1")

module _ {W : Type 0} where
  accept_url_iff :
      (text : String) (p : ParsedUrl) (c c' : Config W)
      → (accept_url text p c ≡ ok c')
        ↔ (IsAllowed p × (c' ≡ record c { base_url = trim_right_slashes text }))
  unfolding accept_url
  accept_url_iff text p c c' =
      ground
        (arith, eq_iff p.scheme "https", eq_iff p.scheme "http", is_loopback_host_iff p.hostname)

  -- WithBaseURL accepts a text exactly when it parses and its scheme is https, or http at a
  -- loopback host; the base URL is then the text without its trailing slashes, and no other
  -- field changes.
  pub with_base_url-accepts_iff :
      (url_parse : UrlParse) (text : String) (c c' : Config W)
      → (with_base_url url_parse text c ≡ ok c') ↔ (
          (p : ParsedUrl) × (url_parse text ≡ ok p)
          × IsAllowed p
          × (c' ≡ record c { base_url = trim_right_slashes text }))
  unfolding with_base_url
  with_base_url-accepts_iff url_parse text c c' = elim (Result-cases (url_parse text)) [
    | inl (p, e) ↦
        rw (e, with_base_url)
          (
            λ h. let (a, q) = (accept_url_iff text p c c').0 h in (p, refl, a, q),
            λ (q, f, a, r).
                (accept_url_iff text p c c').1 (subst IsAllowed (sym (ok-injective f)) a, r),
          )
    | inr (x, e) ↦ rw (e, with_base_url) (λ h. cc, λ (q, f, a, r). cc)
  ]

  apply_options-first_error :
      (before after : List (Opt W)) (opt : Opt W) (c c' : Config W) (e : Error)
      → apply_options before c ≡ ok c'
      → opt c' ≡ err e
      → apply_options (before ++ opt ∷ after) c ≡ err e
  unfolding apply_options
  apply_options-first_error [] after opt c c' e p q = rw (ok-injective p, q)
  apply_options-first_error (o ∷ before) after opt c c' e p q = elim (Result-cases (o c)) [
    | inl (d, f) ↦ rw f (apply_options-first_error before after opt d c' e (rw f at p) q)
    | inr (x, f) ↦ cc (rw f at p)
  ]

  -- NewClient fails with an option's error if the options before it succeed, and
  -- runs no later option.
  pub new_client-first_error :
      (h : HttpClient W) (l : ℕ) (before after : List (Opt W)) (opt : Opt W) (c : Config W)
      (e : Error)
      → apply_options before (default_config h l) ≡ ok c
      → opt c ≡ err e
      → new_client h l (before ++ opt ∷ after) ≡ err e
  unfolding new_client
  new_client-first_error h l before after opt c e p q =
      rw (apply_options-first_error before after opt _ c e p q)

  finish_fields :
      (d : Config W) (c : Client W)
      → finish d ≡ ok c
      → (d ≡ c.config)
        × (d.app_version ≢ "")
        × (c.session ≡ record { uid = ""; access_token = ""; key_ring = [] })
  unfolding finish
  finish_fields d c e = ground (arith, eq_iff d.app_version "")

  -- A client that NewClient returns has a non-empty application version and no session.
  pub new_client-fields :
      (h : HttpClient W) (l : ℕ) (opts : List (Opt W)) (c : Client W)
      → new_client h l opts ≡ ok c
      → (apply_options opts (default_config h l) ≡ ok c.config)
        × (c.config.app_version ≢ "")
        × (c.session ≡ record { uid = ""; access_token = ""; key_ring = [] })
  unfolding new_client
  new_client-fields h l opts c e = elim (Result-cases (apply_options opts (default_config h l))) [
    | inl (d, f) ↦
        let (p, q, r) = finish_fields d c (rw (f, new_client) at e) in
        (f ∙ ap ok p, subst (λ (x : Config W). x.app_version ≢ "") p q, r)
    | inr (x, f) ↦ cc (rw (f, new_client) at e)
  ]
