-- ===== src/Client.antt =====
-- The Client of protonmail.go, its constructor NewClient, and the options of options.go.
pub mod Construction
mod Tests
use protonmail_go.Prelude.{
  ℕ, String, ◌≡◌, Bool, true, false, ◌||◌, not, Option, none, some, List, [], ◌∷◌, ◌==◌,
  if◌then◌else◌,
}
use protonmail_go.Errors.{Error, other, wrapped}
use protonmail_go.Http.{HttpClient}
use protonmail_go.Pgp.{Entity}
use protonmail_go.Result.{Result, ok, err, ◌>>=◌}
use protonmail_go.Text.{trim_right_slashes, equal_fold}

-- The fields that change while the client is used.
pub record Session : Type 0 where
  pub uid : String
  pub access_token : String
  pub key_ring : List Entity

-- A callback of WithReAuth acts on the session and on the outside world.
abbrev pub ReAuth : Type 0 → Type 0
ReAuth W = Session → W → Option Error × Session × W

-- The fields that are fixed once the client is built. `Logger` values are not looked into.
pub record Config (W : Type 0) : Type 0 where
  pub base_url : String
  pub app_version : String
  pub user_agent : String
  pub http_client : HttpClient W
  pub reauth : Option (ReAuth W)
  pub logger : ℕ

pub record Client (W : Type 0) : Type 0 where
  pub config : Config W
  pub session : Session

abbrev pub default_base_url : String
default_base_url = "https://mail.proton.me/api"

abbrev pub default_user_agent : String
default_user_agent = "protonmail-go/0.2.0-dev (+https://github.com/joestump/protonmail-go)"

-- What `url.Parse` tells the option of a base URL.
pub record ParsedUrl : Type 0 where
  pub scheme : String
  pub hostname : String

abbrev pub UrlParse : Type 0
UrlParse = String → Result ParsedUrl

abbrev pub Opt : Type 0 → Type 0
Opt W = Config W → Result (Config W)

unfoldable pub is_loopback_host : String → Bool
is_loopback_host host =
    if host == "127.0.0.1"
    then true
    else if host == "::1"
    then true
    else if equal_fold host "localhost"
    then true
    else false

module _ {W : Type 0} where
  accept_url : String → ParsedUrl → Opt W
  unfolding is_loopback_host
  accept_url text parsed c =
      if parsed.scheme == "https"
      then ok (record c { base_url = trim_right_slashes text })
      else if parsed.scheme == "http"
      then (if not (is_loopback_host parsed.hostname)
          then err
              (other "WithBaseURL: URL must use https (http allowed only for loopback addresses)")
          else ok (record c { base_url = trim_right_slashes text }))
      else err (other "WithBaseURL: unsupported scheme")

  unfoldable pub with_base_url : UrlParse → String → Opt W
  unfolding accept_url
  with_base_url url_parse text c = elim (url_parse text) [
    | err e ↦ err (wrapped "WithBaseURL" e)
    | ok parsed ↦ accept_url text parsed c
  ]

  unfoldable pub with_http_client : Option (HttpClient W) → Opt W
  with_http_client none c = err (other "WithHTTPClient: client must be non-nil")
  with_http_client (some h) c = ok (record c { http_client = h })

  unfoldable pub with_app_version : String → Opt W
  with_app_version v c =
      if v == ""
      then err (other "WithAppVersion: app version must not be empty")
      else ok (record c { app_version = v })

  unfoldable pub with_user_agent : String → Opt W
  with_user_agent ua c =
      if ua == ""
      then err (other "WithUserAgent: user agent must not be empty")
      else ok (record c { user_agent = ua })

  unfoldable pub with_reauth : Option (ReAuth W) → Opt W
  with_reauth none c = err (other "WithReAuth: callback must be non-nil")
  with_reauth (some fn) c = ok (record c { reauth = some fn })

  unfoldable pub with_logger : Option ℕ → Opt W
  with_logger none c = err (other "WithLogger: logger must be non-nil")
  with_logger (some l) c = ok (record c { logger = l })

  -- The option loop of NewClient; the first error ends it.
  unfoldable pub apply_options : List (Opt W) → Config W → Result (Config W)
  apply_options [] c = ok c
  apply_options (opt ∷ opts) c = opt c >>= apply_options opts

  finish : Config W → Result (Client W)
  finish c =
      if c.app_version == ""
      then err (other "NewClient: app version is required (use WithAppVersion)")
      else ok
          (record { config = c; session = record { uid = ""; access_token = ""; key_ring = [] } })

  -- `http.DefaultClient` and the discarding logger are arguments.
  abbrev pub default_config : HttpClient W → ℕ → Config W
  default_config default_client discard = record {
    base_url = default_base_url;
    app_version = "";
    user_agent = default_user_agent;
    http_client = default_client;
    reauth = none;
    logger = discard;
  }

  unfoldable pub new_client : HttpClient W → ℕ → List (Opt W) → Result (Client W)
  unfolding apply_options finish
  new_client default_client discard opts =
      apply_options opts (default_config default_client discard) >>= finish
