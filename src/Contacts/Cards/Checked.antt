-- ===== src/Contacts/Cards/Checked.antt =====
-- What the reading of a card says of its signature.
use protonmail_go.Prelude.{
  Bool-cases, String, ◌≡◌, refl, sym, ap, ◌∙◌, true, Option, none, some, List, inl, inr,
}
use protonmail_go.Errors.{Error}
use protonmail_go.Pgp.{Entity}
use protonmail_go.Result.{Result, ok, err, Result-cases, ok-injective}
use protonmail_go.KeySelection.{entity_primary_key}
use protonmail_go.Contacts.{ContactCard}
use protonmail_go.Contacts.Cards.{
  CardPgp, CardDetails, read_card, cleartext_details, with_check, at_end, verified, read_encrypted,
  signed, encrypted,
}

module _ (pgp : CardPgp) (keyring : List Entity) where
  with_check-error :
      (x : Option Entity × Option Error) (md d : CardDetails)
      → with_check pgp x md ≡ ok d
      → (d.is_signed ≡ true) × (d.signature_error ≡ x.1) × (d.body ≡ md.body)
  unfolding with_check
  with_check-error (none, x) md d h =
      let e : record md { is_signed = true; signature_error = x } ≡ d = ok-injective h in
      (
        sym (ap (λ (c : CardDetails). c.is_signed) e),
        sym (ap (λ (c : CardDetails). c.signature_error) e),
        sym (ap (λ (c : CardDetails). c.body) e),
      )
  with_check-error (some signer, x) md d h = elim (Result-cases (entity_primary_key signer)) [
    | inl (key, k) ↦
        let e = ok-injective (rw k at h) in
        (
          sym (ap (λ (c : CardDetails). c.is_signed) e),
          sym (ap (λ (c : CardDetails). c.signature_error) e),
          sym (ap (λ (c : CardDetails). c.body) e),
        )
    | inr (y, k) ↦ cc (rw k at h)
  ]

  -- The details say what the check of the signature said of the text.
  abbrev pub TellsCheck : String → String → CardDetails → Type 0
  TellsCheck sig text d =
      (d.is_signed ≡ true) × (d.signature_error ≡ (pgp.check keyring text sig).1)

  at_end-TellsCheck :
      (sig text : String) (b : Result String) (md d : CardDetails)
      → at_end pgp keyring sig b md ≡ ok d
      → md.body ≡ b
      → d.body ≡ ok text
      → TellsCheck sig text d
  unfolding at_end
  at_end-TellsCheck sig text (err e) md d h b t =
      let same = ok-injective h in cc (sym b ∙ ap (λ (c : CardDetails). c.body) same ∙ t)
  at_end-TellsCheck sig text (ok text') md d h b t =
      let (s, e, c) = with_check-error (pgp.check keyring text' sig) md d h in
      let same : text' ≡ text = ok-injective (sym b ∙ sym c ∙ t) in
      (s, e ∙ ap (λ u. (pgp.check keyring u sig).1) same)

  verified-TellsCheck :
      (card : ContactCard) (text : String) (md d : CardDetails)
      → signed card.type ≡ true
      → verified pgp keyring card md ≡ ok d
      → d.body ≡ ok text
      → TellsCheck card.signature text d
  unfolding verified
  verified-TellsCheck card text md d s h b =
      at_end-TellsCheck card.signature text md.body md d (rw s at h) refl b

  read_encrypted-TellsCheck :
      (card : ContactCard) (text : String) (d : CardDetails)
      → signed card.type ≡ true
      → read_encrypted pgp keyring card ≡ ok d
      → d.body ≡ ok text
      → TellsCheck card.signature text d
  unfolding read_encrypted
  read_encrypted-TellsCheck card text d s h b =
      elim (Result-cases (pgp.decode_armor card.data_text)) [
        | inl (block, e) ↦
            let opened = rw e at h in
            elim (Result-cases (pgp.read_message keyring block)) [
              | inl (md, r) ↦ verified-TellsCheck card text md d s (rw r at opened) b
              | inr (x, r) ↦ cc (rw r at opened)
            ]
        | inr (x, e) ↦ cc (rw e at h)
      ]

  -- However a card of a signed type came about: when Read gives details whose body is a text, they say
  -- that it is signed, and their signature error is that of the check of the card's signature over this
  -- very text, also if the card is encrypted.
  pub read_card-TellsCheck :
      (card : ContactCard) (text : String) (d : CardDetails)
      → signed card.type ≡ true
      → read_card pgp keyring card ≡ ok d
      → d.body ≡ ok text
      → TellsCheck card.signature text d
  unfolding read_card
  read_card-TellsCheck card text d s h b = elim (Bool-cases (encrypted card.type)) [
    | inl e ↦ read_encrypted-TellsCheck card text d s (rw e at h) b
    | inr e ↦ verified-TellsCheck card text (cleartext_details pgp card.data_text) d s (rw e at h) b
  ]
