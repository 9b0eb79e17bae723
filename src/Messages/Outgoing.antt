-- ===== src/Messages/Outgoing.antt =====
-- SendMessage of messages.go.
use Prim.Native.String.{◌++◌ as append}
use protonmail_go.Prelude.{ℕ, String, Option, List, ℤ}
use protonmail_go.Result.{Result}
use protonmail_go.Http.{Bytes}
use protonmail_go.Client.{Config}
use protonmail_go.Mail.{Message}
use protonmail_go.Packages.{MessagePackageSet}
use protonmail_go.Transport.{Act, Envelope, Wire}
use protonmail_go.Endpoint.{submit}

pub record OutgoingMessage : Type 0 where
  pub id : String
  pub expiration_time : ℤ
  pub packages : List (Option MessagePackageSet)

-- The message that was sent, and the parent of its draft, if the server gives one.
pub record SentMessages : Type 0 where
  pub sent : Option Message
  pub parent : Option Message

module _ {W : Type 0} (fuel : ℕ) (wire : Wire) (cfg : Config W) where
  -- `(*Client).SendMessage`
  unfoldable pub send_message :
      (OutgoingMessage → Result Bytes)
      → (Bytes → Result (Envelope SentMessages))
      → OutgoingMessage
      → Act W SentMessages
  send_message encode decode msg =
      submit fuel wire cfg "POST" (append "/messages/" msg.id) (encode msg) decode
