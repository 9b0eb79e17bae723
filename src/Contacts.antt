-- ===== src/Contacts.antt =====
-- The endpoints of contacts.go, and its contacts and cards.
pub mod Cards
use Prim.Native.String.{◌++◌ as append}
use protonmail_go.Prelude.{ℕ, String, Option, none, some, List, ℤ, pos, []}
use protonmail_go.Errors.{Error}
use protonmail_go.Result.{Result}
use protonmail_go.Http.{Bytes}
use protonmail_go.Client.{Config}
use protonmail_go.Transport.{Act, Envelope, envelope_err, Wire}
use protonmail_go.Endpoint.{QueryEncode, fetch, submit}
use protonmail_go.Calendar.{page_values}

pub record ContactEmail : Type 0 where
  pub id : String
  pub email : String
  pub type : List String
  pub defaults : ℤ
  pub order : ℤ
  pub contact_id : String
  pub label_ids : List String
  pub name : String

-- Any integer may stand for the type of a card; the four that have a name are below.
pub record ContactCard : Type 0 where
  pub type : ℤ
  pub data_text : String
  pub signature : String

abbrev pub contact_card_cleartext : ℤ
contact_card_cleartext = pos 0

abbrev pub contact_card_encrypted : ℤ
contact_card_encrypted = pos 1

abbrev pub contact_card_signed : ℤ
contact_card_signed = pos 2

abbrev pub contact_card_encrypted_and_signed : ℤ
contact_card_encrypted_and_signed = pos 3

pub record Contact : Type 0 where
  pub id : String
  pub name : String
  pub uid : String
  pub size : ℤ
  pub create_time : ℤ
  pub modify_time : ℤ
  pub label_ids : List String
  pub contact_emails : List (Option ContactEmail)
  pub cards : List (Option ContactCard)

pub record ContactExport : Type 0 where
  pub id : String
  pub cards : List (Option ContactCard)

pub record ContactImport : Type 0 where
  pub cards : List (Option ContactCard)

-- A page of a list, with the number of entries in all pages.
pub record Page (A : Type 0) : Type 0 where
  pub total : ℤ
  pub items : List (Option A)

pub record CreateContactsRequest : Type 0 where
  pub contacts : List (Option ContactImport)
  pub overwrite : ℤ
  pub groups : ℤ
  pub labels : ℤ

pub record CreateContactResp : Type 0 where
  pub index : ℤ
  pub response : Envelope (Option Contact)

pub record DeleteContactResp : Type 0 where
  pub id : String
  pub response : Envelope (Unit {0})

-- `(*CreateContactResp).Err`
unfoldable pub create_contact_err : CreateContactResp → Option Error
create_contact_err r = envelope_err r.response

-- `(*DeleteContactResp).Err`
unfoldable pub delete_contact_err : DeleteContactResp → Option Error
delete_contact_err r = envelope_err r.response

-- encoding/json at the requests and the responses of this file
pub record ContactJson : Type 0 where
  pub encode_create : CreateContactsRequest → Result Bytes
  pub encode_import : Option ContactImport → Result Bytes
  pub encode_ids : List String → Result Bytes
  pub decode_contacts : Bytes → Result (Envelope (Page Contact))
  pub decode_emails : Bytes → Result (Envelope (Page ContactEmail))
  pub decode_exports : Bytes → Result (Envelope (Page ContactExport))
  pub decode_contact : Bytes → Result (Envelope (Option Contact))
  pub decode_created : Bytes → Result (Envelope (List (Option CreateContactResp)))
  pub decode_deleted : Bytes → Result (Envelope (List (Option DeleteContactResp)))
  pub decode_resp : Bytes → Result (Envelope (Unit {0}))

module _ {W : Type 0} (fuel : ℕ) (wire : Wire) (cfg : Config W) (json : ContactJson) where
  -- `(*Client).ListContacts`
  unfoldable pub list_contacts : QueryEncode → ℤ → ℤ → Act W (Page Contact)
  list_contacts encode page page_size =
      fetch fuel wire cfg "GET" (append "/contacts?" (encode (page_values page page_size [])))
        json.decode_contacts

  -- `(*Client).ListContactsEmails`
  unfoldable pub list_contacts_emails : QueryEncode → ℤ → ℤ → Act W (Page ContactEmail)
  list_contacts_emails encode page page_size =
      fetch fuel wire cfg "GET"
        (append "/contacts/emails?" (encode (page_values page page_size []))) json.decode_emails

  -- `(*Client).ListContactsExport`
  unfoldable pub list_contacts_export : QueryEncode → ℤ → ℤ → Act W (Page ContactExport)
  list_contacts_export encode page page_size =
      fetch fuel wire cfg "GET"
        (append "/contacts/export?" (encode (page_values page page_size []))) json.decode_exports

  -- `(*Client).GetContact`
  unfoldable pub get_contact : String → Act W (Option Contact)
  get_contact id = fetch fuel wire cfg "GET" (append "/contacts/" id) json.decode_contact

  -- `(*Client).CreateContacts`
  unfoldable pub create_contacts :
      List (Option ContactImport) → Act W (List (Option CreateContactResp))
  create_contacts contacts =
      submit fuel wire cfg "POST" "/contacts"
        (json.encode_create
          (record { contacts = contacts; overwrite = pos 0; groups = pos 0; labels = pos 0 }))
        json.decode_created

  -- `(*Client).UpdateContact`
  unfoldable pub update_contact : String → Option ContactImport → Act W (Option Contact)
  update_contact id contact =
      submit fuel wire cfg "PUT" (append "/contacts/" id) (json.encode_import contact)
        json.decode_contact

  -- `(*Client).DeleteContacts`
  unfoldable pub delete_contacts : List String → Act W (List (Option DeleteContactResp))
  delete_contacts ids =
      submit fuel wire cfg "PUT" "/contacts/delete" (json.encode_ids ids) json.decode_deleted

  -- `(*Client).DeleteAllContacts`
  unfoldable pub delete_all_contacts : Act W (Unit {0})
  delete_all_contacts = fetch fuel wire cfg "DELETE" "/contacts" json.decode_resp
