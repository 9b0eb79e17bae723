-- ===== src/Client/Tests.antt =====
-- Runs of NewClient and of the options, and the theorems about them at concrete clients.
use protonmail_go.Prelude.{ℕ, ◌≡◌, ◌≢◌, ◌↔◌, refl, true, [], ◌∷◌}
use protonmail_go.Errors.{other}
use protonmail_go.Http.{HttpClient, failed}
use protonmail_go.Result.{ok, err}
use protonmail_go.Text.{trim_right_slashes, EndsClean, trim_right_slashes-EndsClean, equal_fold}
use protonmail_go.Client.{
  Client, Config, ParsedUrl, UrlParse, default_config, with_base_url, with_app_version,
  with_user_agent, apply_options, new_client, is_loopback_host,
}
use protonmail_go.Client.Construction.{IsAllowed, with_base_url-accepts_iff, new_client-fields}

abbrev offline : HttpClient ℕ
offline w q = (failed (other "offline"), w)

abbrev local : UrlParse
local text = ok (record { scheme = "http"; hostname = "LocalHost" })

abbrev named : Config ℕ
named = record (default_config offline 0) { app_version = "t/1" }

loopback_runs : is_loopback_host "LOCALHOST" ≡ true
unfolding is_loopback_host equal_fold
loopback_runs = refl

trimmed_runs : trim_right_slashes "http://[::1]/api//" ≡ "http://[::1]/api"
unfolding trim_right_slashes
trimmed_runs = refl

trimmed_clean : EndsClean (trim_right_slashes "https://a//")
trimmed_clean = trim_right_slashes-EndsClean "https://a//"

with_base_url-accepts_iff_example :
    (with_base_url local "http://LocalHost/" named
      ≡ ok (record named { base_url = trim_right_slashes "http://LocalHost/" }))
    ↔ ((p : ParsedUrl) × (local "http://LocalHost/" ≡ ok p)
        × IsAllowed p
        × (◌≡◌ {A = Config ℕ}
            (record named { base_url = trim_right_slashes "http://LocalHost/" })
            (record named { base_url = trim_right_slashes "http://LocalHost/" })))
with_base_url-accepts_iff_example =
    with_base_url-accepts_iff local "http://LocalHost/" named
      (record named { base_url = trim_right_slashes "http://LocalHost/" })

before_runs : apply_options (with_app_version "t/1" ∷ []) (default_config offline 0) ≡ ok named
unfolding apply_options with_app_version
before_runs = refl

no_agent_runs : with_user_agent "" named ≡ err (other "WithUserAgent: user agent must not be empty")
unfolding with_user_agent
no_agent_runs = refl

abbrev built : Client ℕ
built = record { config = named; session = record { uid = ""; access_token = ""; key_ring = [] } }

built_runs : new_client offline 0 (with_app_version "t/1" ∷ []) ≡ ok built
unfolding new_client with_app_version
built_runs = refl

built_fields :
    (apply_options (with_app_version "t/1" ∷ []) (default_config offline 0) ≡ ok named)
    × (built.config.app_version ≢ "")
    × (built.session ≡ record { uid = ""; access_token = ""; key_ring = [] })
built_fields = new_client-fields offline 0 (with_app_version "t/1" ∷ []) built built_runs
