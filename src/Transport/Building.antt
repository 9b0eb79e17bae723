-- ===== src/Transport/Building.antt =====
-- What newRequest and newJSONRequest build, and what they leave alone.
use Prim.Native.String.{◌++◌ as append}
use protonmail_go.Prelude.{
  String, ◌≡◌, refl, Bool, true, false, Option, none, some, List, [], ◌∷◌, lookup, lookup-insert,
  insert, ◌==◌, not, ◌&&◌, if◌then◌else◌, inl, inr,
}
use protonmail_go.Result.{Result, ok, err, Result-cases}
use protonmail_go.Http.{Bytes, Body, stream, Request, Headers, set_header}
use protonmail_go.Client.{Config, Session}
use protonmail_go.Transport.{
  Net, Wire, new_request, new_json_request, json_request, set_request_authorization, base_headers,
  continue,
}

-- The session has both credentials.
abbrev pub has_credentials : Session → Bool
has_credentials s = not (s.uid == "") && not (s.access_token == "")

-- The Authorization header that a session gives: none, or its bearer token.
abbrev pub bearer : Session → Option (List String)
bearer s = if has_credentials s then some (append "Bearer " s.access_token ∷ []) else none

lookup-authorized :
    (credentials : Bool) (token uid : String) (h : Headers)
    → lookup "Authorization" h ≡ none
    → lookup "Authorization"
        (if credentials then set_header "Authorization" token (set_header "X-Pm-Uid" uid h) else h)
      ≡ (if credentials then some (token ∷ []) else none)
lookup-authorized true token uid h e =
    lookup-insert "Authorization" "Authorization" (token ∷ []) (set_header "X-Pm-Uid" uid h)
lookup-authorized false token uid h e = e

lookup-base_headers :
    {W : Type 0} (cfg : Config W) (s : Session)
    → lookup "Authorization" (base_headers cfg s) ≡ bearer s
unfolding set_request_authorization lookup insert
lookup-base_headers cfg s =
    lookup-authorized (has_credentials s) _ _
      (set_header "X-Pm-Apiversion" "3" (set_header "X-Pm-Appversion" cfg.app_version [])) refl

-- What the built request has, given the net `net` it was built at.
abbrev pub IsBuilt : {W : Type 0} → Config W → String → String → Body → Net W → Request → Type 0
IsBuilt cfg method path body net q =
    (q.method ≡ method)
    × (q.url ≡ append cfg.base_url path)
    × (q.body ≡ body)
    × (lookup "Authorization" q.headers ≡ bearer net.session)

-- Building a request changes the log only.
abbrev pub LogOnly : {W : Type 0} → Net W → Net W → Type 0
LogOnly old new =
    (new.session ≡ old.session)
    × (new.world ≡ old.world)
    × (new.open_bodies ≡ old.open_bodies)
    × (new.sent ≡ old.sent)

abbrev pub Builds :
    {W : Type 0} → (Net W → Request → Type 0) → Net W → Option (Result Request × Net W) → Type 0
Builds P old none = ⊥
Builds P old (some (err e, net)) = LogOnly old net
Builds P old (some (ok q, net)) = LogOnly old net × P old q

module _ {W : Type 0} (wire : Wire) (cfg : Config W) where
  -- newRequest returns an error, or a request with the given method and body to the base URL and
  -- path, which carries the session's bearer token exactly if the session has both credentials.
  pub new_request-Builds :
      (method path : String) (body : Body) (net : Net W)
      → Builds (IsBuilt cfg method path body) net (new_request wire cfg method path body net)
  unfolding new_request
  new_request-Builds method path body net =
      elim (Result-cases (wire.url_path (append cfg.base_url path))) [
        | inl (p, e) ↦
            rw (e, new_request)
              ((refl, refl, refl, refl), (refl, refl, refl, lookup-base_headers cfg net.session))
        | inr (x, e) ↦ rw (e, new_request) (refl, refl, refl, refl)
      ]

  continue-Builds :
      (method : String) (b : Bytes) (path : String) (net : Net W)
      (o : Option (Result Request × Net W))
      → Builds (IsBuilt cfg method path (stream b (some b))) net o
      → Builds
          (IsBuilt cfg method path (stream b (some b)))
          net
          (continue o (json_request method b))
  unfolding json_request
  continue-Builds method b path net none h = h
  continue-Builds method b path net (some (err e, m)) h = h
  continue-Builds method b path net (some (ok q, m)) (l, (t, u, c, a)) =
      (l, (t, u, c, rw lookup-insert a))

  -- So does newJSONRequest, with the encoded bytes as a body that can be sent again.
  pub new_json_request-Builds :
      (method path : String) (b : Bytes) (net : Net W)
      → Builds
          (IsBuilt cfg method path (stream b (some b)))
          net
          (new_json_request wire cfg method path (ok b) net)
  unfolding new_json_request
  new_json_request-Builds method path b net =
      continue-Builds method b path net _ (new_request-Builds method path (stream b (some b)) net)
