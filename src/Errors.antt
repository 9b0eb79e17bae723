-- ===== src/Errors.antt =====
-- errors.go and the error half of protonmail.go: sentinels, *APIError, *HTTPError, errors.Is.
pub mod Matching
mod Tests
use Prim.Native.String.{◌++◌ as append}
use protonmail_go.Text.{itoa}
use protonmail_go.Prelude.{
  ℕ, String, Bool, true, false, ◌||◌, Option, none, some, List, not, ◌==◌, if◌then◌else◌, ℤ, pos,
  eqb, eqb_ℤ,
}

pub data Sentinel : Type 0 where
  unauthorized not_found rate_limited no_unlockable_keys importer_closed : Sentinel

pub record HttpError : Type 0 where
  pub status_code : ℕ
  pub status : String
  pub body : List ℕ

pub record ApiError : Type 0 where
  pub code : ℤ
  pub message : String
  pub http_error : Option HttpError

-- `(*APIError).Error`, of a pointer that may be nil
unfoldable pub api_error_text : Option ApiError → String
api_error_text none = "<nil>"
api_error_text (some e) = append "[" (append (itoa e.code) (append "] " e.message))

-- `(*HTTPError).Error`
unfoldable pub http_error_text : Option HttpError → String
http_error_text none = "<nil>"
http_error_text (some e) =
    if not (e.status == "")
    then append "protonmail: HTTP " e.status
    else append "protonmail: HTTP " (itoa (pos e.status_code))

-- The errors that the client returns. `other` stands for `errors.New` and for the errors of the
-- libraries; `wrapped` for `fmt.Errorf` with `%w`. `panicked` is no error of Go: it marks a call that
-- a run-time panic ends, and matches no sentinel.
pub data Error : Type 0 where
  sentinel : Sentinel → Error
  api : ApiError → Error
  http : HttpError → Error
  other : String → Error
  panicked : String → Error
  wrapped : String → Error → Error

abbrev pub api_code_invalid_credentials : ℤ
api_code_invalid_credentials = pos 8002

abbrev pub status_unauthorized : ℕ
status_unauthorized = 401

abbrev pub status_not_found : ℕ
status_not_found = 404

abbrev pub status_too_many_requests : ℕ
status_too_many_requests = 429

abbrev pub api_code_auth_required : ℤ
api_code_auth_required = pos status_unauthorized

-- `err == target`: sentinels are compared by identity, and no other error is one of them.
abbrev pub same_sentinel : Sentinel → Sentinel → Bool
same_sentinel unauthorized unauthorized = true
same_sentinel not_found not_found = true
same_sentinel rate_limited rate_limited = true
same_sentinel no_unlockable_keys no_unlockable_keys = true
same_sentinel importer_closed importer_closed = true
same_sentinel _ _ = false

-- `(*APIError).Is`; a receiver or a target that is nil is `none`.
unfoldable pub api_error_is : Option ApiError → Option Sentinel → Bool
api_error_is none target = false
api_error_is (some err) none = false
api_error_is (some err) (some unauthorized) =
    eqb_ℤ err.code api_code_invalid_credentials || eqb_ℤ err.code api_code_auth_required
api_error_is (some err) (some _) = false

-- `(*HTTPError).Is`
unfoldable pub http_error_is : Option HttpError → Option Sentinel → Bool
http_error_is none target = false
http_error_is (some e) none = false
http_error_is (some e) (some unauthorized) = eqb e.status_code status_unauthorized
http_error_is (some e) (some not_found) = eqb e.status_code status_not_found
http_error_is (some e) (some rate_limited) = eqb e.status_code status_too_many_requests
http_error_is (some e) (some _) = false

-- `(*APIError).Unwrap`
unfoldable pub api_error_unwrap : Option ApiError → Option HttpError
api_error_unwrap none = none
api_error_unwrap (some err) = err.http_error

-- `errors.Is(err, target)` at a sentinel: the error itself, its `Is`, and then what it unwraps to.
unfoldable pub is : Error → Sentinel → Bool
unfolding api_error_is http_error_is api_error_unwrap
is (sentinel s) target = same_sentinel s target
is (api e) target =
    api_error_is (some e) (some target) || http_error_is (api_error_unwrap (some e)) (some target)
is (http e) target = http_error_is (some e) (some target)
is (other m) target = false
is (panicked m) target = false
is (wrapped m e) target = is e target
