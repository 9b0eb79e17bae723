-- ===== src/Contacts/Cards/Protection.antt =====
-- What a card that was made is read as.
use protonmail_go.Prelude.{ap, ◌∙◌, String, ◌≡◌, refl, true, Option, none, some, List, inl, inr}
use protonmail_go.Errors.{Error}
use protonmail_go.Pgp.{Entity, Key}
use protonmail_go.Result.{Result, ok, err, Result-cases}
use protonmail_go.KeySelection.{entity_primary_key}
use protonmail_go.Contacts.{ContactCard}
use protonmail_go.Contacts.Cards.{
  CardPgp, CardDetails, CardReader, buffer, unless, copied, encrypted_text,
  new_encrypted_contact_card, new_signed_contact_card, read_card, cleartext_details, with_check,
  at_end, verified, read_encrypted, sign_encrypted, signed, encrypted,
}

-- The details tell of a signature by the entity, as its key, and of no error in it.
abbrev pub TellsSigner : Entity → Key → CardDetails → Type 0
TellsSigner signer key d =
    (d.is_signed ≡ true)
    × (d.signature_error ≡ none)
    × (d.signed_by_key_id ≡ signer.primary_key.key_id)
    × (d.signed_by ≡ some key)

abbrev pub signed_details : Entity → Key → CardDetails → CardDetails
signed_details signer key md = record md {
  is_signed = true;
  signature_error = none;
  signed_by_key_id = signer.primary_key.key_id;
  signed_by = some key;
}

module _ (pgp : CardPgp) (keyring : List Entity) where
  -- What OpenPGP does for an entity of the key ring, and the key it signs with: a signature it makes of
  -- a text is found right, and ascribed to it.
  pub record Verifies (signer : Entity) (key : Key) : Type 0 where
    pub checks :
        (r : CardReader) (sig : String)
        → pgp.sign_text signer r ≡ ok sig
        → pgp.check keyring r.text sig ≡ (some signer, none)
    pub has_key : entity_primary_key signer ≡ ok key

  -- The key ring opens what is encrypted for the recipients.
  abbrev pub Opens : List Entity → Type 0
  Opens to =
      (text block armored : String)
      → pgp.close_cleartext to text ≡ ok block
      → pgp.close_ciphertext block ≡ ok armored
      → (md : CardDetails) × (pgp.decode_armor armored ≡ ok block)
        × (pgp.read_message keyring block ≡ ok md)
        × (md.body ≡ ok text)

  unless-ok :
      {A : Type 0} (o : Option Error) (r : Result A) (a : A)
      → unless o r ≡ ok a
      → (o ≡ none) × (r ≡ ok a)
  unless-ok (some e) r a h = cc
  unless-ok none r a h = (refl, h)

  -- A text that was encrypted opens, and nothing failed, the reader included.
  encrypted_text-Opens :
      (to : List Entity) (r : CardReader) (armored : String)
      → Opens to
      → encrypted_text pgp to r ≡ ok armored
      → (block : String) × (md : CardDetails) × (pgp.decode_armor armored ≡ ok block)
        × (pgp.read_message keyring block ≡ ok md)
        × (md.body ≡ ok r.text)
  unfolding encrypted_text
  encrypted_text-Opens to r armored opens h =
      let (a, h1) = unless-ok pgp.encode_armor _ armored h in
      let (b, h2) = unless-ok (pgp.encrypt to) _ armored h1 in
      let (c, h3) = unless-ok (copied pgp to r) _ armored h2 in
      elim (Result-cases (pgp.close_cleartext to r.text)) [
        | inl (block, e) ↦
            let (md, d, m, b) = opens r.text block armored e (rw e at h3) in (block, md, d, m, b)
        | inr (x, e) ↦ cc (rw e at h3)
      ]

  -- What the reading of a card that was made gives: its text, and `P` of the details.
  abbrev pub ReadsBack : String → (CardDetails → Type 0) → Result ContactCard → Type 0
  ReadsBack text P (err e) = Unit
  ReadsBack text P (ok card) =
      (d : CardDetails) × (read_card pgp keyring card ≡ ok d) × (d.body ≡ ok text) × P d

  -- A card that NewSignedContactCard gives is read back as its text, with the signer's key and no
  -- signature error.
  pub new_signed_contact_card-ReadsBack :
      (r : CardReader) (signer : Entity) (key : Key)
      → Verifies signer key
      → ReadsBack r.text (TellsSigner signer key) (new_signed_contact_card pgp r signer)
  unfolding new_signed_contact_card read_card encrypted signed verified at_end with_check
  new_signed_contact_card-ReadsBack r signer key v = elim (Result-cases (pgp.sign_text signer r)) [
    | inl (sig, e) ↦ rw e (
      signed_details signer key (cleartext_details pgp r.text),
      rw (v.checks r sig e, v.has_key) refl,
      refl,
      (refl, refl, refl, refl),
    )
    | inr (x, e) ↦ rw e tt
  ]

  -- What a signer, or none, adds to what the details tell.
  abbrev pub Tells : Option (Entity × Key) → CardDetails → Type 0
  Tells none d = Unit
  Tells (some (signer, key)) d = TellsSigner signer key d

  abbrev pub VerifiesAny : Option (Entity × Key) → Type 0
  VerifiesAny none = Unit
  VerifiesAny (some (signer, key)) = Verifies signer key

  abbrev pub entity_of : Option (Entity × Key) → Option Entity
  entity_of none = none
  entity_of (some (signer, key)) = some signer

  -- A card that NewEncryptedContactCard gives is read back as the text, by a key ring that opens what
  -- is encrypted for the recipients; with a signer whose signatures the key ring finds right also with
  -- the signer's key and no signature error.
  pub new_encrypted_contact_card-ReadsBack :
      (r : CardReader) (to : List Entity) (signer : Option (Entity × Key))
      → Opens to
      → VerifiesAny signer
      → ReadsBack r.text (Tells signer) (new_encrypted_contact_card pgp r to (entity_of signer))
  unfolding new_encrypted_contact_card sign_encrypted read_card encrypted signed verified
      read_encrypted at_end with_check
  new_encrypted_contact_card-ReadsBack r to none opens v =
      elim (Result-cases (encrypted_text pgp to r)) [
        | inl (armored, e) ↦
            let (block, md, d, m, b) = encrypted_text-Opens to r armored opens e in
            rw e (md, rw (d, m) refl, b, tt)
        | inr (x, e) ↦ rw e tt
      ]
  new_encrypted_contact_card-ReadsBack r to (some (signer, key)) opens v =
      elim (Result-cases (encrypted_text pgp to r)) [
        | inl (armored, e) ↦
            let (block, md, d, m, b) = encrypted_text-Opens to r armored opens e in
            rw e (elim (Result-cases (pgp.sign_text signer (buffer r.text))) [
              | inl (sig, s) ↦ rw s (
                signed_details signer key md,
                rw (d, m)
                    (ap (λ x. at_end pgp keyring sig x md) b
                      ∙ rw (v.checks (buffer r.text) sig s, v.has_key) refl),
                b,
                (refl, refl, refl, refl),
              )
              | inr (x, s) ↦ rw s tt
            ])
        | inr (x, e) ↦ rw e tt
      ]
