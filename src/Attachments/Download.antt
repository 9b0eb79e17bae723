-- ===== src/Attachments/Download.antt =====
-- The bodies that GetAttachment leaves open, and the errors it returns.
use Prim.Native.String.{◌++◌ as append}
use protonmail_go.Prelude.{ℕ, ◌+◌, String, ◌≡◌, subst, Option, none, some, arith, if-rule}
use protonmail_go.Result.{Result, ok, err}
use protonmail_go.Http.{Bytes, no_body, Request, Response}
use protonmail_go.Client.{Config}
use protonmail_go.Transport.{Net, Wire, continue}
use protonmail_go.Transport.Building.{IsBuilt, Builds, new_request-Builds}
use protonmail_go.Transport.Exchange.{do_request}
use protonmail_go.Transport.Exchange.Lifecycle.{Balanced, do_request-Balanced}
use protonmail_go.Transport.Json.{is_success}
use protonmail_go.Attachments.{returned, get_attachment}

module _ {W : Type 0} where
  -- With the bytes, one more body is open, which the caller closes; with an error, none is.
  abbrev pub Hands : ℕ → Option (Result Bytes × Net W) → Type 0
  Hands n none = Unit
  Hands n (some (ok b, net)) = net.open_bodies ≡ n + 1
  Hands n (some (err e, net)) = net.open_bodies ≡ n

  module _ (fuel : ℕ) (wire : Wire) (cfg : Config W) where
    returned-Hands :
        (n : ℕ) (o : Option (Result Response × Net W))
        → Balanced n o
        → Hands n (continue o (returned fuel wire cfg))
    unfolding returned
    returned-Hands n none b = tt
    returned-Hands n (some (err e, net)) b = b
    returned-Hands n (some (ok r, net)) b =
        if-rule (Hands n) (is_success r.status_code) (λ _. b) (λ _. omega arith)

    built-Hands :
        (id : String) (old : Net W) (o : Option (Result Request × Net W))
        → Builds (IsBuilt cfg "GET" (append "/attachments/" id) no_body) old o
        → Hands old.open_bodies
            (continue o (λ q m. continue (do_request fuel cfg q m) (returned fuel wire cfg)))
    built-Hands id old none b = tt
    built-Hands id old (some (err e, net)) (s, w, o, l) = o
    built-Hands id old (some (ok q, net)) ((s, w, o, l), p) =
        subst (λ n. Hands n (continue (do_request fuel cfg q net) (returned fuel wire cfg))) o
          (returned-Hands net.open_bodies (do_request fuel cfg q net)
            (do_request-Balanced fuel cfg q net))

    -- GetAttachment hands its caller exactly one open body when it succeeds, and leaves none open
    -- when it fails.
    pub get_attachment-Hands :
        (id : String) (net : Net W) → Hands net.open_bodies (get_attachment fuel wire cfg id net)
    unfolding get_attachment
    get_attachment-Hands id net =
        built-Hands id net _
          (new_request-Builds wire cfg "GET" (append "/attachments/" id) no_body net)
