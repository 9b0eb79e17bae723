-- ===== src/Contacts/Cards.antt =====
-- The protection of contact cards, in contacts.go: how a card is made and read.
pub mod Protection
pub mod Checked
pub mod Streaming
mod Tests
use protonmail_go.Prelude.{
  ℕ, String, Bool, true, false, ◌||◌, not, Option, none, some, List, ℤ, eqb_ℤ, if◌then◌else◌,
}
use protonmail_go.Errors.{Error}
use protonmail_go.Pgp.{Entity, Key}
use protonmail_go.Result.{Result, ok, err, ◌>>=◌}
use protonmail_go.KeySelection.{entity_primary_key}
use protonmail_go.Contacts.{
  ContactCard, contact_card_signed, contact_card_encrypted, contact_card_encrypted_and_signed,
}

-- `(ContactCardType).Signed` and `Encrypted`
unfoldable pub signed : ℤ → Bool
signed t = eqb_ℤ t contact_card_signed || eqb_ℤ t contact_card_encrypted_and_signed

unfoldable pub encrypted : ℤ → Bool
encrypted t = eqb_ℤ t contact_card_encrypted || eqb_ℤ t contact_card_encrypted_and_signed

-- `openpgp.MessageDetails` once its body has been read to the end: the fields that the client sets,
-- and what the body gave, the text or a read error.
pub record CardDetails : Type 0 where
  pub is_encrypted : Bool
  pub is_signed : Bool
  pub signature_error : Option Error
  pub signed_by_key_id : ℕ
  pub signed_by : Option Key
  pub body : Result String

-- An io.Reader of a card's text: what it gives, and the error at its end unless it is io.EOF.
pub record CardReader : Type 0 where
  pub text : String
  pub failure : Option Error

-- The calls of armor and of OpenPGP: the beginnings of the armor and of the encryption, the writes of
-- io.Copy, the Close of the cleartext, which gives the encrypted message, and that of the armor, which
-- gives the armored text; armored detached signing of what is read, and the check of a signature,
-- which gives the signer, if it finds one, and the error, if there is one; decoding of the armor, and
-- opening a message, whose body is read to the end.
pub record CardPgp : Type 0 where
  pub encode_armor : Option Error
  pub encrypt : List Entity → Option Error
  pub write_cleartext : List Entity → String → Option Error
  pub close_cleartext : List Entity → String → Result String
  pub close_ciphertext : String → Result String
  pub sign_text : Entity → CardReader → Result String
  pub check : List Entity → String → String → Option Entity × Option Error
  pub decode_armor : String → Result String
  pub read_message : List Entity → String → Result CardDetails

-- What is done once a call has not failed.
abbrev unless : {A : Type 0} → Option Error → Result A → Result A
unless (some e) r = err e
unless none r = r

-- A buffer that is read.
abbrev pub buffer : String → CardReader
buffer text = record { text = text; failure = none }

module _ (pgp : CardPgp) where
  -- `io.Copy(cleartext, r)`: the writes, or the end of the reader, fail.
  abbrev copied : List Entity → CardReader → Option Error
  copied to r = elim (pgp.write_cleartext to r.text) [ some e ↦ some e | none ↦ r.failure ]

  -- NewEncryptedContactCard up to the Close of the armor
  encrypted_text : List Entity → CardReader → Result String
  encrypted_text to r = unless pgp.encode_armor (
      unless (pgp.encrypt to)
        (unless (copied to r) (pgp.close_cleartext to r.text >>= pgp.close_ciphertext)))

  sign_encrypted : Option Entity → String → String → Result ContactCard
  sign_encrypted none msg armored =
      ok (record { type = contact_card_encrypted; data_text = armored; signature = "" })
  sign_encrypted (some signer) msg armored = do
    sig ← pgp.sign_text signer (buffer msg)
    ok (record { type = contact_card_encrypted_and_signed; data_text = armored; signature = sig })

  -- `NewEncryptedContactCard`; the copy that is signed holds the text that was read.
  unfoldable pub new_encrypted_contact_card :
      CardReader → List Entity → Option Entity → Result ContactCard
  unfolding encrypted_text sign_encrypted
  new_encrypted_contact_card r to signer = encrypted_text to r >>= sign_encrypted signer r.text

  -- `NewSignedContactCard`
  unfoldable pub new_signed_contact_card : CardReader → Entity → Result ContactCard
  new_signed_contact_card r signer = do
    sig ← pgp.sign_text signer r
    ok (record { type = contact_card_signed; data_text = r.text; signature = sig })

  -- The outcome of a signature's check, on the details.
  pub with_check : Option Entity × Option Error → CardDetails → Result CardDetails
  with_check (none, e) md = ok (record md { is_signed = true; signature_error = e })
  with_check (some signer, e) md = do
    key ← entity_primary_key signer
    ok (record md {
      is_signed = true;
      signature_error = e;
      signed_by_key_id = signer.primary_key.key_id;
      signed_by = some key;
    })

  -- The check over the text, once the end of the text is reached.
  pub at_end : List Entity → String → Result String → CardDetails → Result CardDetails
  unfolding with_check
  at_end keyring signature (err e) md = ok md
  at_end keyring signature (ok text) md = with_check (pgp.check keyring text signature) md

  verified : List Entity → ContactCard → CardDetails → Result CardDetails
  unfolding at_end signed
  verified keyring card md =
      if signed card.type then at_end keyring card.signature md.body md else ok md

  -- The details of a card that is not encrypted.
  abbrev pub cleartext_details : String → CardDetails
  cleartext_details text = record {
    is_encrypted = false;
    is_signed = false;
    signature_error = none;
    signed_by_key_id = 0;
    signed_by = none;
    body = ok text;
  }

  read_encrypted : List Entity → ContactCard → Result CardDetails
  unfolding verified
  read_encrypted keyring card = do
    block ← pgp.decode_armor card.data_text
    md ← pgp.read_message keyring block
    verified keyring card md

  -- `(*ContactCard).Read`, and its body read to the end, where `detachedSignatureReader` checks the
  -- signature of an encrypted card.
  unfoldable pub read_card : List Entity → ContactCard → Result CardDetails
  unfolding read_encrypted encrypted
  read_card keyring card =
      if not (encrypted card.type)
      then verified keyring card (cleartext_details card.data_text)
      else read_encrypted keyring card
