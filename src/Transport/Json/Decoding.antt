-- ===== src/Transport/Json/Decoding.antt =====
-- What a success of `doJSON` is made of.
use protonmail_go.Prelude.{String, ◌≡◌, refl, ℕ, Option, none, some, if-rule}
use protonmail_go.Result.{Result, ok, err}
use protonmail_go.Http.{Bytes, Request, Response}
use protonmail_go.Client.{Config}
use protonmail_go.Transport.{Act, Net, Envelope, Wire, continue, code_error, envelope_err}
use protonmail_go.Transport.Exchange.{drain_and_close, do_request}
use protonmail_go.Transport.Json.{do_json, interpret, decoded, conclude, is_success}
use protonmail_go.Transport.Json.Sending.{accepting}

module _ {W A : Type 0} where
  -- A value that is returned satisfies `Q`.
  abbrev pub Yields : (A → Type 0) → Option (Result A × Net W) → Type 0
  Yields Q none = Unit
  Yields Q (some (ok a, net)) = Q a
  Yields Q (some (err e, net)) = Unit

  pub continue-Yields :
      {B : Type 0} (Q : A → Type 0) (o : Option (Result B × Net W)) (f : B → Act W A)
      → ((b : B) (net : Net W) → Yields Q (f b net))
      → Yields Q (continue o f)
  continue-Yields Q none f k = tt
  continue-Yields Q (some (ok b, net)) f k = k b net
  continue-Yields Q (some (err e, net)) f k = tt

-- The payload of an envelope without an error that bytes decode to.
abbrev pub Decodes : {A : Type 0} → (Bytes → Result (Envelope A)) → A → Type 0
Decodes {A} decode a =
    (body : Bytes) × (d : Envelope A) × (decode body ≡ ok d)
    × (d.error_message ≡ none)
    × (d.payload ≡ a)

module _ {W A : Type 0} (decode : Bytes → Result (Envelope A)) where
  conclude-Yields :
      (req : Request) (body : Bytes) (d : Envelope A) (o : Option String) (net : Net W)
      → decode body ≡ ok d
      → d.error_message ≡ o
      → Yields (Decodes decode) (conclude req d.payload (code_error d.code o) net)
  unfolding conclude code_error
  conclude-Yields req body d none net e m = (body, d, e, m, refl)
  conclude-Yields req body d (some x) net e m = tt

  decoded-Yields :
      (req : Request) (r : Response) (body : Bytes) (x : Result (Envelope A)) (net : Net W)
      → decode body ≡ x
      → Yields (Decodes decode) (decoded req r x net)
  unfolding decoded envelope_err
  decoded-Yields req r body (err e) net h = tt
  decoded-Yields req r body (ok d) net h = conclude-Yields req body d d.error_message _ h refl

  interpret-Yields :
      (wire : Wire) (req : Request) (r : Response) (net : Net W)
      → Yields (Decodes decode) (interpret wire decode req r net)
  unfolding interpret
  interpret-Yields wire req r net =
      if-rule (Yields (Decodes decode)) (is_success r.status_code)
        (λ _. decoded-Yields req r r.body (decode r.body) (drain_and_close net) refl) (λ _. tt)

  -- What doJSON returns was decoded from a body, as the payload of an envelope without an error.
  pub do_json-Yields :
      (fuel : ℕ) (wire : Wire) (cfg : Config W) (req : Request) (net : Net W)
      → Yields (Decodes decode) (do_json fuel wire cfg decode req net)
  unfolding do_json
  do_json-Yields fuel wire cfg req net =
      continue-Yields (Decodes decode) (do_request fuel cfg (accepting req) net)
        (interpret wire decode (accepting req)) (λ r m. interpret-Yields wire (accepting req) r m)
