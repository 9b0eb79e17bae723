-- ===== src/Messages/Reading.antt =====
-- The reading and the encryption of a message's body, in messages.go.
pub mod Sealed
use Prim.Native.String.{◌++◌ as append}
use protonmail_go.Prelude.{
  String, Bool, false, Option, none, some, List, [], ◌∷◌, ℤ, pos, eqb_ℤ, if◌then◌else◌,
}
use protonmail_go.Errors.{Error}
use protonmail_go.Http.{Bytes}
use protonmail_go.Pgp.{Entity}
use protonmail_go.Result.{Result, ok, err, ◌>>=◌}
use protonmail_go.Mail.{Message}

abbrev pub message_unencrypted : ℤ
message_unencrypted = pos 0

-- `openpgp.MessageDetails` with its body read to the end, as far as Message.Read sets it
pub record Details : Type 0 where
  pub is_encrypted : Bool
  pub is_signed : Bool
  pub body : Result String

-- The calls of armor and of OpenPGP. A Write says, of the text that was written and of the bytes it is
-- given, what the text then is, and whether it failed; the Close of the plaintext gives the encrypted
-- bytes, and the Close of the armor gives what is in the buffer.
pub record MessagePgp : Type 0 where
  pub decode_armor : String → Result Bytes
  pub read_message : List Entity → Bytes → Result Details
  pub encode_armor : Option Error
  pub encrypt : List Entity → Option Entity → Option Error
  pub write_text : String → String → Option Error × String
  pub close_text : List Entity → Option Entity → String → Result Bytes
  pub close_armor : Bytes → Result String

-- `messageWriter`: its plaintext, by the recipients, the signer and the text so far, and its message.
pub record MessageWriter : Type 0 where
  pub to : List Entity
  pub signed : Option Entity
  pub text : String
  pub msg : Message

module _ (pgp : MessagePgp) where
  -- `(*Message).Read`
  unfoldable pub read_message : List Entity → Message → Result Details
  read_message keyring msg =
      if eqb_ℤ msg.is_encrypted message_unencrypted
      then ok (record { is_encrypted = false; is_signed = false; body = ok msg.body })
      else (do block ← pgp.decode_armor msg.body; pgp.read_message keyring block)

  abbrev pub started :
      List Entity → Option Entity → Message → Option Error → Option Error → Result MessageWriter
  started to signed msg (some e) second = err e
  started to signed msg none (some e) = err e
  started to signed msg none none = ok (record { to = to; signed = signed; text = ""; msg = msg })

  -- `(*Message).Encrypt`
  unfoldable pub encrypt_message : List Entity → Option Entity → Message → Result MessageWriter
  encrypt_message to signed msg = started to signed msg pgp.encode_armor (pgp.encrypt to signed)

  -- `(*messageWriter).Write`
  unfoldable pub write_plaintext : String → MessageWriter → Option Error × MessageWriter
  write_plaintext text w =
      let (e, written) = pgp.write_text w.text text in (e, record w { text = written })

  close_ciphertext : Message → Result String → Option Error × Message
  close_ciphertext msg (err e) = (some e, msg)
  close_ciphertext msg (ok body) = (none, record msg { body = body })

  close_plaintext : Message → Result Bytes → Option Error × Message
  unfolding close_ciphertext
  close_plaintext msg (err e) = (some e, msg)
  close_plaintext msg (ok bytes) = close_ciphertext msg (pgp.close_armor bytes)

  -- `(*messageWriter).Close`
  unfoldable pub close_message : MessageWriter → Option Error × Message
  unfolding close_plaintext
  close_message w = close_plaintext w.msg (pgp.close_text w.to w.signed w.text)

  unfoldable pub goes_on :
      MessageWriter
      → Option Error
      → (MessageWriter → Option Error × Message)
      → Option Error × Message
  goes_on w (some e) f = (some e, w.msg)
  goes_on w none f = f w

  -- Writes one after another up to the first that fails, and Close if none does.
  unfoldable pub write_and_close : List String → MessageWriter → Option Error × Message
  unfolding goes_on write_plaintext
  write_and_close [] w = close_message w
  write_and_close (chunk ∷ rest) w =
      let (e, w') = write_plaintext chunk w in goes_on w' e (write_and_close rest)

  -- A writer that is asked for, written to and closed.
  unfoldable pub encrypt_chunks :
      List Entity → Option Entity → List String → Message → Option Error × Message
  encrypt_chunks to signed chunks msg = elim (encrypt_message to signed msg) [
    | err e ↦ (some e, msg)
    | ok w ↦ write_and_close chunks w
  ]
