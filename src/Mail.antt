-- ===== src/Mail.antt =====
-- The mail values of messages.go and attachments.go as JSON carries them.
use protonmail_go.Prelude.{ℕ, String, Option, none, List, [], ℤ, pos}
use protonmail_go.Http.{Bytes}

pub record MessageAddress : Type 0 where
  pub address : String
  pub name : String

-- `packet.EncryptedKey`: a cipher and a session key.
pub record EncryptedKey : Type 0 where
  pub cipher_func : ℕ
  pub key : Bytes

pub record Attachment : Type 0 where
  pub id : String
  pub message_id : String
  pub name : String
  pub size : ℤ
  pub mime_type : String
  pub content_id : String
  pub key_packets : String
  pub signature : String
  pub unencrypted_key : Option EncryptedKey

pub record Message : Type 0 where
  pub id : String
  pub order : ℤ
  pub conversation_id : String
  pub subject : String
  pub unread : ℤ
  pub type : ℤ
  pub sender : Option MessageAddress
  pub to_list : List (Option MessageAddress)
  pub time : ℤ
  pub size : ℤ
  pub num_attachments : ℤ
  pub is_encrypted : ℤ
  pub expiration_time : ℤ
  pub is_replied : ℤ
  pub is_replied_all : ℤ
  pub is_forwarded : ℤ
  pub spam_score : ℤ
  pub address_id : String
  pub body : String
  pub mime_type : String
  pub cc_list : List (Option MessageAddress)
  pub bcc_list : List (Option MessageAddress)
  pub reply_tos : List (Option MessageAddress)
  pub header : String
  pub attachments : List (Option Attachment)
  pub label_ids : List String
  pub external_id : String

-- `new(Message)`
abbrev pub zero_message : Message
zero_message = record {
  id = "";
  order = pos 0;
  conversation_id = "";
  subject = "";
  unread = pos 0;
  type = pos 0;
  sender = none;
  to_list = [];
  time = pos 0;
  size = pos 0;
  num_attachments = pos 0;
  is_encrypted = pos 0;
  expiration_time = pos 0;
  is_replied = pos 0;
  is_replied_all = pos 0;
  is_forwarded = pos 0;
  spam_score = pos 0;
  address_id = "";
  body = "";
  mime_type = "";
  cc_list = [];
  bcc_list = [];
  reply_tos = [];
  header = "";
  attachments = [];
  label_ids = [];
  external_id = "";
}
