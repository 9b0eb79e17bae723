-- ===== src/Transport/Json/Tokens.antt =====
-- The credentials of the requests that are built and sent by `doJSON`.
use Prim.Native.String.{◌++◌ as append}
use protonmail_go.Prelude.{ℕ, String, refl, Option, none, some, [], ◌∷◌, if-rule, inl, inr}
use protonmail_go.Errors.{Error, api, sentinel}
use protonmail_go.Result.{Result, ok, err, Result-cases}
use protonmail_go.Http.{Bytes, Body, stream, Request, Response}
use protonmail_go.Client.{Config}
use protonmail_go.Transport.{
  Act, Net, Envelope, Wire, continue, new_request, new_json_request, json_request,
}
use protonmail_go.Transport.Exchange.{drain_and_close, do_request}
use protonmail_go.Transport.Exchange.Tokens.{
  Grants, Carries, Good, GoesWell, Renews, base_headers-Carries, insert-Carries, continue-GoesWell,
  do_request-GoesWell,
}
use protonmail_go.Transport.Json.{do_json, interpret, note_status, decoded, conclude, is_success}
use protonmail_go.Transport.Json.Decoding.{Yields}
use protonmail_go.Transport.Json.Sending.{accepting}

module _ (G : Grants) {W : Type 0} where
  note_status-Good :
      (req : Request) (r : Response) (e : Error) (net : Net W)
      → Good G net
      → Good G (note_status req r e net)
  unfolding note_status
  note_status-Good req r (api a) net g = g
  note_status-Good req r (sentinel s) net g = g
  note_status-Good req r _ net g = g

  module _ {A : Type 0} where
    conclude-GoesWell :
        (req : Request) (payload : A) (o : Option Error) (net : Net W)
        → Good G net
        → GoesWell G (conclude req payload o net)
    unfolding conclude
    conclude-GoesWell req payload none net g = g
    conclude-GoesWell req payload (some e) net g = g

    decoded-GoesWell :
        (req : Request) (r : Response) (x : Result (Envelope A)) (net : Net W)
        → Good G net
        → GoesWell G (decoded req r x net)
    unfolding decoded
    decoded-GoesWell req r (err e) net g = g
    decoded-GoesWell req r (ok d) net g = conclude-GoesWell req d.payload _ _ g

    interpret-GoesWell :
        (wire : Wire) (decode : Bytes → Result (Envelope A)) (req : Request) (r : Response)
        (net : Net W)
        → Good G net
        → GoesWell G (interpret wire decode req r net)
    unfolding interpret
    interpret-GoesWell wire decode req r net g =
        if-rule (GoesWell G) (is_success r.status_code)
          (λ _. decoded-GoesWell req r (decode r.body) (drain_and_close net) g)
          (λ _. note_status-Good req r _ (drain_and_close net) g)

  -- A bind whose second part is told what the first one yields.
  pub bind-GoesWell :
      {A B : Type 0} (Q : A → Type 0) (o : Option (Result A × Net W)) (f : A → Act W B)
      → Yields Q o
      → GoesWell G o
      → ((a : A) (net : Net W) → Q a → Good G net → GoesWell G (f a net))
      → GoesWell G (continue o f)
  bind-GoesWell Q none f y h k = tt
  bind-GoesWell Q (some (ok a, net)) f y h k = k a net y h
  bind-GoesWell Q (some (err e, net)) f y h k = h

  -- Either a request that carries granted credentials or an error, and all is good.
  abbrev pub Prepares : Option (Result Request × Net W) → Type 0
  Prepares none = Unit
  Prepares (some (err e, net)) = Good G net
  Prepares (some (ok q, net)) = Carries G q.headers × Good G net

  module _ (wire : Wire) (cfg : Config W) where
    pub new_request-Prepares :
        (method path : String) (body : Body) (net : Net W)
        → Good G net
        → Prepares (new_request wire cfg method path body net)
    unfolding new_request
    new_request-Prepares method path body net g =
        elim (Result-cases (wire.url_path (append cfg.base_url path))) [
          | inl (p, e) ↦ rw (e, new_request) (base_headers-Carries G cfg net.session g.0, g)
          | inr (x, e) ↦ rw (e, new_request) g
        ]

    json_request-Prepares :
        (method : String) (b : Bytes) (o : Option (Result Request × Net W))
        → Prepares o
        → Prepares (continue o (json_request method b))
    unfolding json_request
    json_request-Prepares method b none h = tt
    json_request-Prepares method b (some (err e, net)) h = h
    json_request-Prepares method b (some (ok q, net)) (c, g) =
        (insert-Carries G "Content-Type" ("application/json" ∷ []) q.headers refl refl c, g)

    pub new_json_request-Prepares :
        (method path : String) (encoded : Result Bytes) (net : Net W)
        → Good G net
        → Prepares (new_json_request wire cfg method path encoded net)
    unfolding new_json_request
    new_json_request-Prepares method path (err e) net g = g
    new_json_request-Prepares method path (ok b) net g =
        json_request-Prepares method b _
          (new_request-Prepares method path (stream b (some b)) net g)

    module _ (renews : Renews G cfg.reauth) (fuel : ℕ) {A : Type 0}
        (decode : Bytes → Result (Envelope A)) where
      pub do_json-GoesWell :
          (q : Request) (net : Net W)
          → Carries G q.headers
          → Good G net
          → GoesWell G (do_json fuel wire cfg decode q net)
      unfolding do_json
      do_json-GoesWell q net c g =
          continue-GoesWell G (do_request fuel cfg (accepting q) net)
            (interpret wire decode (accepting q))
            (do_request-GoesWell G cfg renews fuel (accepting q) net
              (insert-Carries G "Accept" ("application/json" ∷ []) q.headers refl refl c) g)
            (λ r m h. interpret-GoesWell wire decode (accepting q) r m h)

      pub sends-GoesWell :
          (o : Option (Result Request × Net W))
          → Prepares o
          → GoesWell G (continue o (do_json fuel wire cfg decode))
      sends-GoesWell none h = tt
      sends-GoesWell (some (err e, net)) h = h
      sends-GoesWell (some (ok q, net)) (c, g) = do_json-GoesWell q net c g
