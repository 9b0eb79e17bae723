-- ===== src/Errors/Matching.antt =====
-- What errors.Is answers for the errors of errors.go.
use protonmail_go.Prelude.{ℕ, String, ◌≡◌, true, some, ℤ, pos, ◌↔◌, ◌⊎◌, arith}
use protonmail_go.Errors.{
  Sentinel, unauthorized, not_found, rate_limited, no_unlockable_keys, importer_closed, HttpError,
  api, http, is,
}

-- The status that net/http gives to each category.
abbrev pub StatusMeans : ℕ → Sentinel → Type 0
StatusMeans status unauthorized = status ≡ 401
StatusMeans status not_found = status ≡ 404
StatusMeans status rate_limited = status ≡ 429
StatusMeans status no_unlockable_keys = ⊥
StatusMeans status importer_closed = ⊥

pub is-http_iff :
    (e : HttpError) (s : Sentinel) → (is (http e) s ≡ true) ↔ StatusMeans e.status_code s
unfolding is
is-http_iff e unauthorized = ground arith
is-http_iff e s = ground arith

-- An application code counts for one category only.
abbrev pub CodeMeans : ℤ → Sentinel → Type 0
CodeMeans code unauthorized = (code ≡ pos 8002) ⊎ (code ≡ pos 401)
CodeMeans code _ = ⊥

pub is-api_iff :
    (code : ℤ) (message : String) (h : HttpError) (s : Sentinel)
    → (is (api (record { code = code; message = message; http_error = some h })) s ≡ true)
      ↔ (CodeMeans code s ⊎ StatusMeans h.status_code s)
unfolding is
is-api_iff code message h unauthorized = ground arith
is-api_iff code message h s = ground arith
