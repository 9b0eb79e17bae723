-- ===== src/Transport/Exchange.antt =====
-- `(*Client).do` of protonmail.go. The recursive call of the retry is made on fuel.
pub mod Lifecycle
pub mod Rounds
pub mod Divergence
pub mod Termination
pub mod Replay
pub mod Sessions
pub mod Tokens
use protonmail_go.Prelude.{
  ℕ, zero, suc, ◌-◌, Bool, true, false, ◌&&◌, not, Option, none, some, ◌∷◌, eqb, if◌then◌else◌,
}
use protonmail_go.Errors.{Error, status_unauthorized}
use protonmail_go.Result.{ok, err}
use protonmail_go.Http.{
  set_header, has_header, consumed, is_replayable, rewound, Request, Response, Reply, replied,
  failed,
}
use protonmail_go.Client.{Session, Config, ReAuth}
use protonmail_go.Transport.{Act, Net, note, skipping_retry, set_request_authorization}

abbrev pub without_token : Session → Session
without_token s = record s { access_token = "" }

-- `resp.StatusCode == 401 && hasAuth`
abbrev pub is_refused : Request → Response → Bool
is_refused req r = eqb r.status_code status_unauthorized && has_header "Authorization" req.headers

module _ {W : Type 0} where
  -- A body is drained and closed.
  abbrev pub drain_and_close : Net W → Net W
  drain_and_close net = record net { open_bodies = net.open_bodies - 1 }

  -- After the callback: the request gets the new credentials and its body anew.
  resume : (Request → Act W Response) → Request → Option Error × Session × W → Act W Response
  resume again req (some e, s, w) net = some (err e, record net { session = s; world = w })
  resume again req (none, s, w) net =
      again
        (record req { headers = set_request_authorization s req.headers; body = rewound req.body })
        (record net { session = s; world = w })

  retry : (Request → Act W Response) → ReAuth W → Request → Act W Response
  unfolding resume
  retry again fn req net =
      resume again req (fn (without_token net.session) net.world)
        (drain_and_close (record net { session = without_token net.session }))

  answer : (Request → Act W Response) → Option (ReAuth W) → Request → Response → Act W Response
  unfolding retry
  answer again none req r net = some (
    ok r,
    if is_refused req r && not (is_replayable req.body)
        then note (skipping_retry req.method req.path) net
        else net,
  )
  answer again (some fn) req r net =
      if is_refused req r
      then (if is_replayable req.body
          then retry again fn req net
          else some (ok r, note (skipping_retry req.method req.path) net))
      else some (ok r, net)

  receive : (Request → Act W Response) → Option (ReAuth W) → Request → Reply × W → Act W Response
  unfolding answer
  receive again reauth req (failed e, w) net =
      some (err e, record net { world = w; sent = req ∷ net.sent })
  receive again reauth req (replied r, w) net =
      answer again reauth (record req { body = consumed req.body }) r
        (record net { world = w; open_bodies = suc net.open_bodies; sent = req ∷ net.sent })

  -- `req.Header.Set("User-Agent", c.userAgent)`
  abbrev pub with_agent : Config W → Request → Request
  with_agent cfg req = record req { headers = set_header "User-Agent" cfg.user_agent req.headers }

  unfoldable pub do_request : ℕ → Config W → Request → Act W Response
  unfolding receive
  do_request zero cfg req net = none
  do_request (suc fuel) cfg req net =
      receive (do_request fuel cfg) cfg.reauth (with_agent cfg req)
        (cfg.http_client net.world (with_agent cfg req)) net
