-- ===== src/Endpoint.antt =====
-- How the methods of the client reach the API: a request is built, and doJSON interprets the
-- answer. Every networked method but GetAttachment is one of the two compositions here.
pub mod Requests
pub mod Tokens
use protonmail_go.Prelude.{ℕ, String, StringMap, insert, List, [], ◌∷◌, none}
use protonmail_go.Result.{Result}
use protonmail_go.Http.{Bytes, Body, no_body, stream}
use protonmail_go.Client.{Config}
use protonmail_go.Transport.{Act, Envelope, Wire, new_request, new_json_request, ◌>>=◌}
use protonmail_go.Transport.Json.{do_json}

-- `url.Values` and `Values.Encode`; the encoder is an argument.
abbrev pub Values : Type 0
Values = StringMap String

abbrev pub QueryEncode : Type 0
QueryEncode = Values → String

module _ {W : Type 0} (fuel : ℕ) (wire : Wire) (cfg : Config W) where
  -- newRequest without a body, then doJSON
  unfoldable pub fetch : {A : Type 0} → String → String → (Bytes → Result (Envelope A)) → Act W A
  fetch method path decode = do
    req ← new_request wire cfg method path no_body
    do_json fuel wire cfg decode req

  -- newJSONRequest, then doJSON
  unfoldable pub submit :
      {A : Type 0} → String → String → Result Bytes → (Bytes → Result (Envelope A)) → Act W A
  submit method path encoded decode = do
    req ← new_json_request wire cfg method path encoded
    do_json fuel wire cfg decode req

  -- newRequest with a body that can be read once, then doJSON, under another content type
  unfoldable pub upload :
      {A : Type 0} → String → String → String → Bytes → (Bytes → Result (Envelope A)) → Act W A
  upload method path content_type body decode = do
    req ← new_request wire cfg method path (stream body none)
    do_json fuel wire cfg decode
        (record req { headers = insert "Content-Type" (content_type ∷ []) req.headers })
