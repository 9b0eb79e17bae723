-- ===== src/Conversations.antt =====
-- conversations.go
use Prim.Native.String.{◌++◌ as append}
use protonmail_go.Prelude.{ℕ, String, not, Option, List, ℤ, [], ◌==◌}
use protonmail_go.Result.{Result}
use protonmail_go.Http.{Bytes}
use protonmail_go.Client.{Config}
use protonmail_go.Mail.{Message, MessageAddress}
use protonmail_go.Transport.{Act, Envelope, Wire}
use protonmail_go.Endpoint.{QueryEncode, fetch}
use protonmail_go.Messages.{set_if}

pub record Conversation : Type 0 where
  pub id : String
  pub order : ℤ
  pub subject : String
  pub senders : List (Option MessageAddress)
  pub recipients : List (Option MessageAddress)
  pub num_messages : ℤ
  pub num_unread : ℤ
  pub num_attachments : ℤ
  pub expiration_time : ℤ
  pub total_size : ℤ
  pub address_id : String
  pub label_ids : List String

pub record ConversationResp : Type 0 where
  pub conversation : Option Conversation
  pub messages : List (Option Message)

module _ {W : Type 0} (fuel : ℕ) (wire : Wire) (cfg : Config W) where
  -- `(*Client).GetConversation`
  unfoldable pub get_conversation :
      QueryEncode
      → (Bytes → Result (Envelope ConversationResp))
      → String
      → String
      → Act W ConversationResp
  get_conversation encode decode id msg_id =
      fetch fuel wire cfg "GET"
        (append "/conversations/"
          (append id (append "?" (encode (set_if (not (msg_id == "")) "MessageID" msg_id [])))))
        decode
