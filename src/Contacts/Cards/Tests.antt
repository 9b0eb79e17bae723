-- ===== src/Contacts/Cards/Tests.antt =====
-- Cards made and read with a toy OpenPGP, and the theorems about them there.
use Prim.Native.String.{◌++◌ as append}
use protonmail_go.Prelude.{
  String, ap, sym, ◌==◌, if◌then◌else◌, ◌≡◌, refl, true, false, none, some, List, [], ◌∷◌, arith,
}
use protonmail_go.Result.{ok, ok-injective}
use protonmail_go.Pgp.{Key}
use protonmail_go.KeySelection.{entity_primary_key}
use protonmail_go.Samples.{entity, signature_at}
use protonmail_go.Contacts.Cards.{
  CardPgp, CardDetails, buffer, new_encrypted_contact_card, read_card, at_end, with_check, signed,
  encrypted,
}
use protonmail_go.Contacts.Cards.Streaming.{
  Piece, SignatureReader, outcome, new_reader, read, reads, reads-at_end,
}
use protonmail_go.Contacts.Cards.Protection.{
  signed_details, Verifies, Opens, Tells, ReadsBack, new_encrypted_contact_card-ReadsBack,
}
use protonmail_go.Contacts.Cards.Checked.{TellsCheck, read_card-TellsCheck}
use protonmail_go.Contacts.{ContactCard, contact_card_encrypted_and_signed}
use protonmail_go.Errors.{other}

-- The message that the armored text "ada" opens to.
abbrev inner : CardDetails
inner = record {
  is_encrypted = true;
  is_signed = true;
  signature_error = none;
  signed_by_key_id = 0;
  signed_by = none;
  body = ok "ada";
}

abbrev toy : CardPgp
toy = record {
  encode_armor = none;
  encrypt = λ to. none;
  write_cleartext = λ to text. none;
  close_cleartext = λ to text. ok text;
  close_ciphertext = λ block. ok block;
  sign_text = λ signer r. ok (append "by a: " r.text);
  check = λ ring text sig. (some entity, none);
  decode_armor = λ text. ok text;
  read_message = λ ring text. ok (record inner { body = ok text });
}

abbrev key : Key
key = record {
  entity = entity;
  public_key = entity.primary_key;
  private_key = entity.private_key;
  self_signature = signature_at 1;
  revocations = [];
}

key_runs : entity_primary_key entity ≡ ok key
unfolding entity_primary_key
key_runs = refl

toy-Verifies : Verifies toy (entity ∷ []) entity key
toy-Verifies = record { checks = λ r sig e. refl; has_key = key_runs }

toy-Opens : Opens toy (entity ∷ []) (entity ∷ [])
toy-Opens text block armored c a = (
  record inner { body = ok block },
  sym a,
  refl,
  ap (λ (t : String). ok t) (sym (ok-injective c)),
)

new_encrypted_contact_card-ReadsBack_example :
    ReadsBack toy
      (entity ∷ [])
      "ada"
      (Tells toy (entity ∷ []) (some (entity, key)))
      (new_encrypted_contact_card toy (buffer "ada") (entity ∷ []) (some entity))
new_encrypted_contact_card-ReadsBack_example =
    new_encrypted_contact_card-ReadsBack toy (entity ∷ []) (buffer "ada") (entity ∷ [])
      (some (entity, key)) toy-Opens toy-Verifies

-- A check that finds another text's signature wrong.
abbrev strict : CardPgp
strict = record toy {
  check = λ ring text sig. (some entity, if text == "ada" then none else some (other "signature"));
}

abbrev tampered : ContactCard
tampered = record {
  type = contact_card_encrypted_and_signed;
  data_text = "bob";
  signature = "by a: ada";
}

abbrev tampered_details : CardDetails
tampered_details = record (signed_details entity key inner) {
  body = ok "bob";
  signature_error = some (other "signature");
}

tampered_runs : read_card strict (entity ∷ []) tampered ≡ ok tampered_details
unfolding read_card encrypted signed entity_primary_key with_check at_end
tampered_runs = refl

signed_runs : signed contact_card_encrypted_and_signed ≡ true
unfolding signed
signed_runs = refl

read_card-TellsCheck_example : TellsCheck strict (entity ∷ []) "by a: ada" "bob" tampered_details
read_card-TellsCheck_example =
    read_card-TellsCheck strict (entity ∷ []) tampered "bob" tampered_details signed_runs
      tampered_runs refl

abbrev pieces : List Piece
pieces = record { text = "a"; last = false } ∷ record { text = "da"; last = true } ∷ []

abbrev read_to_end : SignatureReader
read_to_end = record (new_reader toy inner [] none "by a: ada" (entity ∷ [])) {
  md = signed_details entity key inner;
  signed = "ada";
  checked = true;
}

reads_run :
    reads toy 3 (new_reader toy inner pieces none "by a: ada" (entity ∷ [])) ≡ ok read_to_end
unfolding reads read entity_primary_key with_check
reads_run = refl

reads-at_end_example :
    at_end toy (entity ∷ []) "by a: ada" (outcome "" pieces none) inner ≡ ok read_to_end.md
reads-at_end_example =
    reads-at_end toy inner pieces none "by a: ada" (entity ∷ []) 3 read_to_end (omega arith)
      reads_run
