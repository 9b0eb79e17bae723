-- ===== src/Endpoint/Requests.antt =====
-- What the compositions of a request and doJSON send, and the bodies they leave open.
use Prim.Native.String.{◌++◌ as append}
use protonmail_go.Prelude.{
  ℕ, String, ◌≡◌, refl, ◌∙◌, sym, subst, Option, none, some, List, [], ◌∷◌, All,
}
use protonmail_go.Result.{Result, ok, err}
use protonmail_go.Http.{Bytes, Body, no_body, stream, Headers, Request, get_header}
use protonmail_go.Client.{Config}
use protonmail_go.Transport.{Net, Envelope, Wire, continue, new_json_request}
use protonmail_go.Transport.Building.{IsBuilt, Builds, new_request-Builds, new_json_request-Builds}
use protonmail_go.Transport.Exchange.Replay.{IsWhole, Repeats, SentOnly}
use protonmail_go.Transport.Json.{do_json}
use protonmail_go.Transport.Json.Closing.{Unchanged, do_json-Unchanged}
use protonmail_go.Transport.Json.Decoding.{Decodes, Yields, continue-Yields, do_json-Yields}
use protonmail_go.Transport.Json.Sending.{do_json-SentOnly}
use protonmail_go.Endpoint.{fetch, submit, upload}

-- A request with the method, to the URL of the path, with the body and the client's user agent.
abbrev pub IsAsked : {W : Type 0} → Config W → String → String → Body → Request → Type 0
IsAsked cfg method path body q =
    (q.method ≡ method)
    × (q.url ≡ append cfg.base_url path)
    × (q.body ≡ body)
    × (get_header "User-Agent" q.headers ≡ cfg.user_agent)

All-map :
    {A : Type 0} {P Q : A → Type 0} (f : (x : A) → P x → Q x) (xs : List A) → All P xs → All Q xs
All-map f [] h = tt
All-map f (x ∷ xs) (p, h) = (f x p, All-map f xs h)

module _ {W A : Type 0} where
  SentOnly-map :
      (P Q : Request → Type 0) (f : (q : Request) → P q → Q q) (old : List Request)
      (o : Option (Result A × Net W))
      → SentOnly P old o
      → SentOnly Q old o
  SentOnly-map P Q f old none h = tt
  SentOnly-map P Q f old (some (r, net)) (new, e, all) = (new, e, All-map f new all)

  -- Everything sent satisfies `P`, and every response body that was opened is closed.
  abbrev pub Asks : (Request → Type 0) → Net W → Option (Result A × Net W) → Type 0
  Asks P net o = SentOnly P net.sent o × Unchanged net.open_bodies o

  module _ (fuel : ℕ) (wire : Wire) (cfg : Config W) (decode : Bytes → Result (Envelope A))
      (change : Headers → Headers) where
    abbrev send : Request → Net W → Option (Result A × Net W)
    send q = do_json fuel wire cfg decode (record q { headers = change q.headers })

    built-Asks :
        (method path : String) (body : Body) (net : Net W) (o : Option (Result Request × Net W))
        → IsWhole body
        → Builds (IsBuilt cfg method path body) net o
        → Asks (IsAsked cfg method path body) net (continue o send)
    built-Asks method path body net none whole b = (tt, tt)
    built-Asks method path body net (some (err e, m)) whole (s, w, o, l) = (([], l, tt), o)
    built-Asks method path body net (some (ok q, m)) whole ((s, w, o, l), (t, u, c, a)) =
        let q' = record q { headers = change q.headers } in
        (
          subst (λ old. SentOnly (IsAsked cfg method path body) old (send q m)) l
              (SentOnly-map (Repeats cfg q') (IsAsked cfg method path body)
                (λ x r. (r.0.0 ∙ t, r.0.1 ∙ u, r.0.2 ∙ c, r.1)) m.sent (send q m)
                (do_json-SentOnly fuel wire cfg decode q' m (subst IsWhole (sym c) whole))),
          subst (λ n. Unchanged n (send q m)) o (do_json-Unchanged fuel wire cfg decode q' m),
        )

  module _ (fuel : ℕ) (wire : Wire) (cfg : Config W) (method path : String)
      (decode : Bytes → Result (Envelope A)) (net : Net W) where
    -- A method without a body sends nothing but requests with its method, to the base URL followed
    -- by its path, without a body, and closes what it opens.
    pub fetch-Asks :
        Asks (IsAsked cfg method path no_body) net (fetch fuel wire cfg method path decode net)
    unfolding fetch
    fetch-Asks =
        built-Asks fuel wire cfg decode (λ h. h) method path no_body net _ (λ e. refl)
          (new_request-Builds wire cfg method path no_body net)

    -- A method with a JSON body sends nothing but requests with its method, to its path, with the
    -- encoded bytes whole, on every retry, and closes what it opens; if they cannot be encoded it
    -- sends nothing.
    pub submit-Asks :
        (encoded : Result Bytes)
        → Asks
            (λ q. (b : Bytes) × (encoded ≡ ok b) × IsAsked cfg method path (stream b (some b)) q)
            net
            (submit fuel wire cfg method path encoded decode net)
    unfolding submit new_json_request
    submit-Asks (err e) = (([], refl, tt), refl)
    submit-Asks (ok b) =
        let asked =
          built-Asks fuel wire cfg decode (λ h. h) method path (stream b (some b)) net _ (λ e. refl)
            (new_json_request-Builds wire cfg method path b net) in
        (SentOnly-map _ _ (λ q r. (b, refl, r)) net.sent _ asked.0, asked.1)

    -- An upload sends nothing but requests with its method and bytes to its path.
    pub upload-Asks :
        (content_type : String) (b : Bytes)
        → Asks
            (IsAsked cfg method path (stream b none))
            net
            (upload fuel wire cfg method path content_type b decode net)
    unfolding upload
    upload-Asks content_type b =
        built-Asks fuel wire cfg decode _ method path (stream b none) net _ (λ e. cc)
          (new_request-Builds wire cfg method path (stream b none) net)

-- What a method with a JSON body returns was decoded from the body of a response.
pub submit-Yields :
    {W A : Type 0} (fuel : ℕ) (wire : Wire) (cfg : Config W) (method path : String)
    (encoded : Result Bytes) (decode : Bytes → Result (Envelope A)) (net : Net W)
    → Yields (Decodes decode) (submit fuel wire cfg method path encoded decode net)
unfolding submit
submit-Yields fuel wire cfg method path encoded decode net =
    continue-Yields (Decodes decode) (new_json_request wire cfg method path encoded net)
      (do_json fuel wire cfg decode) (λ q m. do_json-Yields decode fuel wire cfg q m)
