-- ===== src/Lifecycle/Tests.antt =====
-- A client in use at a server that first refuses its token.
use protonmail_go.Prelude.{ℕ, String, ◌≡◌, refl, Option, none, some, List, [], ◌∷◌, map}
use protonmail_go.Prelude.{lookup, insert, erase}
use protonmail_go.Endpoint.{fetch}
use protonmail_go.Auth.{logout}
use protonmail_go.Transport.{new_request, set_request_authorization}
use protonmail_go.Transport.Json.{do_json}
use protonmail_go.Http.{get_header}
use protonmail_go.Client.{
  Config, ReAuth, Client, Opt, new_client, apply_options, with_app_version, with_reauth,
}
use protonmail_go.Auth.SessionChanges.{signed_out}
use protonmail_go.Result.{ok}
use protonmail_go.Transport.{Net}
use protonmail_go.Transport.Exchange.{do_request}
use protonmail_go.Transport.Exchange.Tokens.{Grants}
use protonmail_go.Samples.{server, plain, wire, decodes, net_at}
use protonmail_go.Auth.Samples.{login, pgp, json, info, full_login}
use protonmail_go.Lifecycle.{Call, log_in, unlocks, log_out, gets, fresh, perform, perform_all}
use protonmail_go.Lifecycle.Tokens.{Known, IsGood, perform_all-IsGood}

-- The callback gives a new token, and the server then answers 200.
abbrev renew : ReAuth ℕ
renew s w = (none, record s { uid = "new"; access_token = "renewed" }, 200)

abbrev opts : List (Opt ℕ)
opts = with_app_version "t/1" ∷ with_reauth (some renew) ∷ []

abbrev renewing : Config ℕ
renewing = record plain { reauth = some renew }

abbrev client : Client ℕ
client = record { config = renewing; session = signed_out }

client_runs : new_client server 0 opts ≡ ok client
unfolding new_client apply_options with_app_version with_reauth
client_runs = refl

abbrev renewed : Grants
renewed uid token = (uid ≡ "new") × (token ≡ "renewed")

abbrev calls : List Call
calls =
    unlocks login [] (1 ∷ [])
    ∷ gets "GET" "/labels" (decodes tt)
    ∷ log_out
    ∷ gets "GET" "/labels" (decodes tt)
    ∷ log_in "ann" (1 ∷ []) (some info)
    ∷ []

abbrev authorizations : Option (Net ℕ) → List String
authorizations none = []
authorizations (some net) = map (λ q. get_header "Authorization" q.headers) net.sent

-- A refused request, a Logout and a request, newest first: the retry has the new token, and after
-- Logout there is none.
calls_send :
    authorizations (
      perform_all 2 wire renewing full_login json pgp
        (gets "GET" "/labels" (decodes tt) ∷ log_out ∷ gets "GET" "/labels" (decodes tt) ∷ [])
        (some (net_at 401)))
    ≡ "" ∷ "Bearer renewed" ∷ "Bearer renewed" ∷ "Bearer token" ∷ []
unfolding perform fetch logout lookup insert erase do_request do_json new_request
    set_request_authorization
calls_send = refl

perform_all-IsGood_example :
    IsGood
      (Known full_login renewed calls)
      (perform_all 2 wire renewing full_login json pgp calls (some (fresh client 401)))
perform_all-IsGood_example =
    perform_all-IsGood full_login server 0 opts client 2 wire json pgp renewed calls 401 client_runs
      (λ s w e. (refl, refl))
