-- ===== src/Messages/Tests.antt =====
-- The query of a filter, and the theorem about it there.
use protonmail_go.Prelude.{
  String, ◌==◌, if◌then◌else◌, sym, ap, arith, eq_iff, ◌≡◌, ◌≢◌, refl, true, false, none, some, [],
  ◌∷◌, pos, insert,
}
use protonmail_go.Messages.{MessageFilter, filter_values, draft_request, message_reply}
use protonmail_go.Messages.Query.{Tells, filter_values-Tells}
use protonmail_go.Mail.{Message, zero_message}
use protonmail_go.Result.{Result, ok, err}
use protonmail_go.Samples.{entity}
use protonmail_go.Messages.Reading.{
  MessagePgp, message_unencrypted, encrypt_message, encrypt_chunks, write_and_close, goes_on,
  write_plaintext, close_message,
}
use protonmail_go.Messages.Reading.Sealed.{Opens, IsSealed, encrypt_chunks-IsSealed}
use protonmail_go.Errors.{other}
use protonmail_go.Http.{Bytes}
use Prim.Native.String.{◌++◌ as append}
use protonmail_go.Text.{itoa}

abbrev starred_inbox : MessageFilter
starred_inbox = record {
  page = pos 2;
  page_size = pos 0;
  limit = pos 150;
  label = "0";
  sort = "";
  asc = true;
  begin = pos 0;
  end_time = pos 0;
  keyword = "invoice";
  to = "";
  from = "";
  subject = "";
  attachments = none;
  starred = some true;
  unread = none;
  conversation = "";
  address_id = "";
  id = [];
  external_id = "";
}

filter_runs :
    filter_values starred_inbox
    ≡ ("Desc", "0") ∷ ("Label", "0") ∷ ("Limit", "150") ∷ ("Page", "2") ∷ []
unfolding filter_values insert itoa
filter_runs = refl

reply_runs : (draft_request zero_message "parent").action ≡ some message_reply
unfolding draft_request
reply_runs = refl

filter_values-Tells_example : Tells starred_inbox (filter_values starred_inbox)
filter_values-Tells_example = filter_values-Tells starred_inbox

-- A toy OpenPGP that can encrypt one text, to no bytes.
abbrev toy_armor : Bytes → Result String
toy_armor [] = ok "armored"
toy_armor (b ∷ bytes) = err (other "armor")

abbrev toy_text : String → Result Bytes
toy_text text = if text == "ada" then ok [] else err (other "text")

abbrev toy : MessagePgp
toy = record {
  decode_armor = λ text. ok [];
  read_message =
      λ ring bytes. ok (record { is_encrypted = true; is_signed = false; body = ok "ada" });
  encode_armor = none;
  encrypt = λ to signed. none;
  write_text = λ text more. (none, append text more);
  close_text = λ to signed text. toy_text text;
  close_armor = toy_armor;
}

abbrev internal : Message
internal = record zero_message { is_encrypted = pos 1 }

internal-marked : internal.is_encrypted ≢ message_unencrypted
internal-marked e = cc

toy-dearmors : (bytes : Bytes) (body : String) → toy_armor bytes ≡ ok body → ok [] ≡ ok bytes
toy-dearmors [] body h = refl
toy-dearmors (b ∷ bytes) body h = absurd (cc)

toy-Opens : Opens toy (entity ∷ []) (entity ∷ []) none
toy-Opens = record {
  takes = λ text more taken h. sym (ap (λ x. x.1) h);
  dearmors = toy-dearmors;
  decrypts = λ text bytes h. (
    record { is_encrypted = true; is_signed = false; body = ok "ada" },
    refl,
    ground (arith, eq_iff text "ada"),
  );
}

encrypt_runs :
    encrypt_chunks toy (entity ∷ []) none ("a" ∷ "da" ∷ []) internal
    ≡ (none, record internal { body = "armored" })
unfolding encrypt_chunks encrypt_message write_and_close goes_on write_plaintext close_message
encrypt_runs = refl

encrypt_chunks-IsSealed_example :
    IsSealed toy
      (entity ∷ [])
      (entity ∷ [])
      none
      internal
      "ada"
      (encrypt_chunks toy (entity ∷ []) none ("a" ∷ "da" ∷ []) internal)
encrypt_chunks-IsSealed_example =
    encrypt_chunks-IsSealed toy (entity ∷ []) (entity ∷ []) none internal toy-Opens internal-marked
      ("a" ∷ "da" ∷ [])
