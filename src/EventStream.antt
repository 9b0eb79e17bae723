-- ===== src/EventStream.antt =====
-- The change stream of events.go: a page of events, and how it is fetched.
use Prim.Native.String.{◌++◌ as append}
use protonmail_go.Prelude.{ℕ, String, Option, List, ℤ, ◌==◌, if◌then◌else◌}
use protonmail_go.Result.{Result}
use protonmail_go.Http.{Bytes}
use protonmail_go.Client.{Config}
use protonmail_go.Contacts.{Contact}
use protonmail_go.Messages.{MessageCount}
use protonmail_go.Events.{EventMessage}
use protonmail_go.Transport.{Act, Envelope, Wire}
use protonmail_go.Endpoint.{fetch}

pub record EventContact : Type 0 where
  pub id : String
  pub action : ℤ
  pub contact : Option Contact

pub record Event : Type 0 where
  pub id : String
  pub refresh : ℤ
  pub messages : List (Option EventMessage)
  pub contacts : List (Option EventContact)
  pub message_counts : List (Option MessageCount)
  pub notices : List String

module _ {W : Type 0} (fuel : ℕ) (wire : Wire) (cfg : Config W) where
  -- `(*Client).GetEvent`
  unfoldable pub get_event :
      (Bytes → Result (Envelope (Option Event))) → String → Act W (Option Event)
  get_event decode last =
      let cursor = if last == "" then "latest" else last in
      fetch fuel wire cfg "GET" (append "/events/" cursor) decode
