-- ===== src/Errors/Tests.antt =====
-- Runs of errors.Is, after errors_test.go.
use protonmail_go.Prelude.{◌≡◌, refl, true, false, none, some, [], pos}
use protonmail_go.Errors.{not_found, HttpError, api, wrapped, is, api_error_text, http_error_text}
use protonmail_go.Text.{itoa}

abbrev missing : HttpError
missing = record { status_code = 404; status = "404 Not Found"; body = [] }

api_through_http :
    is
      (wrapped "call failed"
        (api (record { code = pos 9999; message = "missing"; http_error = some missing })))
      not_found
    ≡ true
unfolding is
api_through_http = refl

api_alone :
    is (api (record { code = pos 2501; message = "missing"; http_error = none })) not_found ≡ false
unfolding is
api_alone = refl

api_text_runs :
    api_error_text (some (record { code = pos 2501; message = "missing"; http_error = none }))
    ≡ "[2501] missing"
unfolding api_error_text itoa
api_text_runs = refl

-- Without a status line the number is shown.
http_text_runs :
    http_error_text (some (record { status_code = 502; status = ""; body = [] }))
    ≡ "protonmail: HTTP 502"
unfolding http_error_text itoa
http_text_runs = refl
