-- ===== src/Messages/Reading/Sealed.antt =====
-- What is encrypted for a message in pieces is read back whole.
use Prim.Native.String.{◌++◌ as append}
use text.Mathlib.TextLemmas.{append-nil, nil-append, append_assoc}
use protonmail_go.Prelude.{
  String, ◌≡◌, ◌≢◌, refl, sym, ap, ◌∙◌, subst, false, Option, none, some, List, [], ◌∷◌, eqb_ℤ,
  eqb_ℤ_iff, Bool-cases, inl, inr,
}
use protonmail_go.Errors.{Error}
use protonmail_go.Http.{Bytes}
use protonmail_go.Pgp.{Entity}
use protonmail_go.Result.{Result, ok, err}
use protonmail_go.Mail.{Message}
use protonmail_go.Messages.Reading.{
  message_unencrypted, Details, MessagePgp, MessageWriter, read_message, started, encrypt_message,
  write_plaintext, close_ciphertext, close_plaintext, close_message, goes_on, write_and_close,
  encrypt_chunks,
}

abbrev pub join : List String → String
join [] = ""
join (s ∷ rest) = append s (join rest)

-- What armor and OpenPGP do: a Write that does not fail takes all it is given; the armor of bytes is
-- decoded to them; and the key ring opens what was encrypted for the recipients.
pub record Opens (pgp : MessagePgp) (keyring to : List Entity) (signed : Option Entity)
    : Type 0 where
  pub takes :
      (text more taken : String)
      → pgp.write_text text more ≡ (none, taken)
      → taken ≡ append text more
  pub dearmors :
      (bytes : Bytes) (body : String)
      → pgp.close_armor bytes ≡ ok body
      → pgp.decode_armor body ≡ ok bytes
  pub decrypts :
      (text : String) (bytes : Bytes)
      → pgp.close_text to signed text ≡ ok bytes
      → (d : Details) × (pgp.read_message keyring bytes ≡ ok d) × (d.body ≡ ok text)

module _ (pgp : MessagePgp) (keyring to : List Entity) (signed : Option Entity)
    (msg : Message) where
  -- A failure leaves the message as it was. A success changes only its body, and Read gives the text.
  abbrev pub IsSealed : String → Option Error × Message → Type 0
  IsSealed text (some e, m) = m ≡ msg
  IsSealed text (none, m) =
      (m ≡ record msg { body = m.body })
      × ((d : Details) × (read_message pgp keyring m ≡ ok d) × (d.body ≡ ok text))

  marked :
      msg.is_encrypted ≢ message_unencrypted → eqb_ℤ msg.is_encrypted message_unencrypted ≡ false
  marked n = elim (Bool-cases (eqb_ℤ msg.is_encrypted message_unencrypted)) [
    | inl e ↦ elim (n ((eqb_ℤ_iff msg.is_encrypted message_unencrypted).0 e)) [ ]
    | inr e ↦ e
  ]

  abbrev writer : String → MessageWriter
  writer text = record { to = to; signed = signed; text = text; msg = msg }

  module _ (opens : Opens pgp keyring to signed) (n : msg.is_encrypted ≢ message_unencrypted) where
    close_ciphertext-IsSealed :
        (text : String) (bytes : Bytes) (r : Result String)
        → pgp.close_text to signed text ≡ ok bytes
        → pgp.close_armor bytes ≡ r
        → IsSealed text (close_ciphertext pgp msg r)
    unfolding close_ciphertext read_message
    close_ciphertext-IsSealed text bytes (err e) c a = refl
    close_ciphertext-IsSealed text bytes (ok body) c a =
        let (d, reads, whole) = opens.decrypts text bytes c in
        (refl, (d, rw (marked n, opens.dearmors bytes body a) reads, whole))

    close_plaintext-IsSealed :
        (text : String) (r : Result Bytes)
        → pgp.close_text to signed text ≡ r
        → IsSealed text (close_plaintext pgp msg r)
    unfolding close_plaintext
    close_plaintext-IsSealed text (err e) c = refl
    close_plaintext-IsSealed text (ok bytes) c =
        close_ciphertext-IsSealed text bytes (pgp.close_armor bytes) c refl

    goes_on-IsSealed :
        (text chunk : String) (rest : List String) (x : Option Error × String)
        → ((taken : String)
            → IsSealed (append taken (join rest)) (write_and_close pgp rest (writer taken)))
        → pgp.write_text text chunk ≡ x
        → IsSealed
            (append text (append chunk (join rest)))
            (goes_on pgp (writer x.1) x.0 (write_and_close pgp rest))
    unfolding goes_on
    goes_on-IsSealed text chunk rest (some e, taken) ih h = refl
    goes_on-IsSealed text chunk rest (none, taken) ih h =
        subst (λ t. IsSealed t (write_and_close pgp rest (writer taken)))
          (ap (λ t. append t (join rest)) (opens.takes text chunk taken h)
            ∙ append_assoc text chunk (join rest))
          (ih taken)

    write_and_close-IsSealed :
        (chunks : List String) (text : String)
        → IsSealed (append text (join chunks)) (write_and_close pgp chunks (writer text))
    unfolding write_and_close close_message write_plaintext
    write_and_close-IsSealed [] text =
        subst (λ t. IsSealed t (close_message pgp (writer text))) (sym (append-nil text))
          (close_plaintext-IsSealed text (pgp.close_text to signed text) refl)
    write_and_close-IsSealed (chunk ∷ rest) text =
        goes_on-IsSealed text chunk rest (pgp.write_text text chunk) (write_and_close-IsSealed rest)
          refl

    started-IsSealed :
        (chunks : List String) (first second : Option Error)
        → IsSealed (join chunks) (elim (started pgp to signed msg first second) [
          | err e ↦ (some e, msg)
          | ok w ↦ write_and_close pgp chunks w
        ])
    started-IsSealed chunks (some e) second = refl
    started-IsSealed chunks none (some e) = refl
    started-IsSealed chunks none none =
        subst (λ t. IsSealed t (write_and_close pgp chunks (writer ""))) (nil-append (join chunks))
          (write_and_close-IsSealed chunks "")

    -- A text is written in pieces to the writer that Encrypt gives for a message that is marked as
    -- encrypted, and the writer is closed. If nothing fails, only the body of the message changes, and
    -- Read gives the whole text with a key ring that opens what is encrypted for the recipients; if
    -- something fails, the message stays as it was.
    pub encrypt_chunks-IsSealed :
        (chunks : List String) → IsSealed (join chunks) (encrypt_chunks pgp to signed chunks msg)
    unfolding encrypt_chunks encrypt_message
    encrypt_chunks-IsSealed chunks =
        started-IsSealed chunks pgp.encode_armor (pgp.encrypt to signed)
