-- ===== src/Endpoint/Tokens.antt =====
-- The credentials of the requests that the client's methods send.
use protonmail_go.Prelude.{ℕ, String, refl, insert, Option, none, some, ◌∷◌, []}
use protonmail_go.Result.{Result, ok, err}
use protonmail_go.Http.{Bytes, no_body, stream, Request}
use protonmail_go.Client.{Config}
use protonmail_go.Transport.{Net, Envelope, Wire, continue, new_request, new_json_request}
use protonmail_go.Transport.Exchange.Tokens.{Grants, Good, GoesWell, Renews, insert-Carries}
use protonmail_go.Transport.Json.{do_json}
use protonmail_go.Transport.Json.Tokens.{
  Prepares, new_request-Prepares, new_json_request-Prepares, do_json-GoesWell, sends-GoesWell,
}
use protonmail_go.Endpoint.{fetch, submit, upload}

module _ (G : Grants) {W : Type 0} (fuel : ℕ) (wire : Wire) (cfg : Config W)
    (renews : Renews G cfg.reauth) {A : Type 0} (method path : String)
    (decode : Bytes → Result (Envelope A)) (net : Net W) (good : Good G net) where
  pub fetch-GoesWell : GoesWell G (fetch fuel wire cfg method path decode net)
  unfolding fetch
  fetch-GoesWell =
      sends-GoesWell G wire cfg renews fuel decode (new_request wire cfg method path no_body net)
        (new_request-Prepares G wire cfg method path no_body net good)

  pub submit-GoesWell :
      (encoded : Result Bytes) → GoesWell G (submit fuel wire cfg method path encoded decode net)
  unfolding submit
  submit-GoesWell encoded =
      sends-GoesWell G wire cfg renews fuel decode
        (new_json_request wire cfg method path encoded net)
        (new_json_request-Prepares G wire cfg method path encoded net good)

  uploads-GoesWell :
      (content_type : String) (o : Option (Result Request × Net W))
      → Prepares G o
      → GoesWell G (
          continue o (λ q.
            do_json fuel wire cfg decode
              (record q { headers = insert "Content-Type" (content_type ∷ []) q.headers })))
  uploads-GoesWell content_type none h = tt
  uploads-GoesWell content_type (some (err e, m)) h = h
  uploads-GoesWell content_type (some (ok q, m)) (c, g) =
      do_json-GoesWell G wire cfg renews fuel decode _ m
        (insert-Carries G "Content-Type" (content_type ∷ []) q.headers refl refl c) g

  pub upload-GoesWell :
      (content_type : String) (b : Bytes)
      → GoesWell G (upload fuel wire cfg method path content_type b decode net)
  unfolding upload
  upload-GoesWell content_type b =
      uploads-GoesWell content_type (new_request wire cfg method path (stream b none) net)
        (new_request-Prepares G wire cfg method path (stream b none) net good)
