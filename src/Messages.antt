-- ===== src/Messages.antt =====
-- The endpoints of messages.go.
pub mod Query
pub mod Reading
pub mod Outgoing
mod Tests
use Prim.Native.String.{◌++◌ as append}
use protonmail_go.Prelude.{
  ℕ, String, Bool, not, Option, none, some, List, ℤ, pos, eqb_ℤ, insert, [], ◌==◌, if◌then◌else◌,
}
use protonmail_go.Result.{Result, ok, err}
use protonmail_go.Text.{itoa}
use protonmail_go.Http.{Bytes}
use protonmail_go.Client.{Config}
use protonmail_go.Mail.{Message}
use protonmail_go.Transport.{Act, Envelope, Wire}
use protonmail_go.Endpoint.{Values, QueryEncode, fetch, submit}

pub record MessageFilter : Type 0 where
  pub page : ℤ
  pub page_size : ℤ
  pub limit : ℤ
  pub label : String
  pub sort : String
  pub asc : Bool
  pub begin : ℤ
  pub end_time : ℤ
  pub keyword : String
  pub to : String
  pub from : String
  pub subject : String
  pub attachments : Option Bool
  pub starred : Option Bool
  pub unread : Option Bool
  pub conversation : String
  pub address_id : String
  pub id : List String
  pub external_id : String

-- `if given { v.Set(key, value) }`
unfoldable pub set_if : Bool → String → String → Values → Values
set_if given key value v = if given then insert key value v else v

set_number : String → ℤ → Values → Values
unfolding set_if
set_number key n = set_if (not (eqb_ℤ n (pos 0))) key (itoa n)

set_text : String → String → Values → Values
unfolding set_if
set_text key s = set_if (not (s == "")) key s

-- The query of `(*Client).ListMessages`.
unfoldable pub filter_values : MessageFilter → Values
unfolding set_number set_text set_if
filter_values f =
    let v1 = set_number "Page" f.page [] in
    let v2 = set_number "PageSize" f.page_size v1 in
    let v3 = set_number "Limit" f.limit v2 in
    let v4 = set_text "Label" f.label v3 in
    let v5 = set_text "Sort" f.sort v4 in
    let v6 = set_if f.asc "Desc" "0" v5 in
    let v7 = set_text "Conversation" f.conversation v6 in
    let v8 = set_text "AddressID" f.address_id v7 in set_text "ExternalID" f.external_id v8

pub record MessageCount : Type 0 where
  pub label_id : String
  pub total : ℤ
  pub unread : ℤ

pub data MessageAction : Type 0 where
  message_reply message_reply_all message_forward : MessageAction

-- The bodies of the requests.
pub record DraftRequest : Type 0 where
  pub message : Option Message
  pub parent_id : String
  pub action : Option MessageAction

pub record LabelRequest : Type 0 where
  pub label_id : String
  pub ids : List String

pub record MessageList : Type 0 where
  pub total : ℤ
  pub messages : List (Option Message)

-- encoding/json at the requests and the responses of this file
pub record MessageJson : Type 0 where
  pub encode_draft : DraftRequest → Result Bytes
  pub encode_message : Message → Result Bytes
  pub encode_ids : List String → Result Bytes
  pub encode_label : LabelRequest → Result Bytes
  pub decode_list : Bytes → Result (Envelope MessageList)
  pub decode_counts : Bytes → Result (Envelope (List (Option MessageCount)))
  pub decode_message : Bytes → Result (Envelope (Option Message))
  pub decode_resp : Bytes → Result (Envelope (Unit {0}))

-- The request of `(*Client).CreateDraftMessage`: a draft with a parent is a reply.
unfoldable pub draft_request : Message → String → DraftRequest
draft_request msg parent_id = record {
  message = some msg;
  parent_id = parent_id;
  action = if not (parent_id == "") then some message_reply else none;
}

module _ {W : Type 0} (fuel : ℕ) (wire : Wire) (cfg : Config W) (json : MessageJson) where
  -- `(*Client).ListMessages`
  unfoldable pub list_messages : QueryEncode → MessageFilter → Act W MessageList
  list_messages encode filter =
      fetch fuel wire cfg "GET" (append "/messages?" (encode (filter_values filter)))
        json.decode_list

  -- `(*Client).CountMessages`
  unfoldable pub count_messages : QueryEncode → String → Act W (List (Option MessageCount))
  count_messages encode address =
      fetch fuel wire cfg "GET"
        (append "/messages/count?" (encode (set_if (not (address == "")) "Address" address [])))
        json.decode_counts

  -- `(*Client).GetMessage`
  unfoldable pub get_message : String → Act W (Option Message)
  get_message id = fetch fuel wire cfg "GET" (append "/messages/" id) json.decode_message

  -- `(*Client).CreateDraftMessage`
  unfoldable pub create_draft_message : Message → String → Act W (Option Message)
  create_draft_message msg parent_id =
      submit fuel wire cfg "POST" "/messages" (json.encode_draft (draft_request msg parent_id))
        json.decode_message

  -- `(*Client).UpdateDraftMessage`
  unfoldable pub update_draft_message : Message → Act W (Option Message)
  update_draft_message msg =
      submit fuel wire cfg "PUT" (append "/messages/" msg.id) (json.encode_message msg)
        json.decode_message

  -- `(*Client).doMessages`
  unfoldable pub do_messages : String → List String → Act W (Unit {0})
  do_messages action ids =
      submit fuel wire cfg "PUT" (append "/messages/" action) (json.encode_ids ids) json.decode_resp

  -- `(*Client).MarkMessagesRead`, `MarkMessagesUnread`, `DeleteMessages` and `UndeleteMessages`
  unfoldable pub mark_messages_read : List String → Act W (Unit {0})
  mark_messages_read = do_messages "read"

  unfoldable pub mark_messages_unread : List String → Act W (Unit {0})
  mark_messages_unread = do_messages "unread"

  unfoldable pub delete_messages : List String → Act W (Unit {0})
  delete_messages = do_messages "delete"

  unfoldable pub undelete_messages : List String → Act W (Unit {0})
  undelete_messages = do_messages "undelete"

  -- `(*Client).LabelMessages`
  unfoldable pub label_messages : String → List String → Act W (Unit {0})
  label_messages label_id ids =
      submit fuel wire cfg "PUT" "/messages/label"
        (json.encode_label (record { label_id = label_id; ids = ids })) json.decode_resp

  -- `(*Client).UnlabelMessages`
  unfoldable pub unlabel_messages : String → List String → Act W (Unit {0})
  unlabel_messages label_id ids =
      submit fuel wire cfg "PUT" "/messages/unlabel"
        (json.encode_label (record { label_id = label_id; ids = ids })) json.decode_resp
