-- ===== src/Streams/Chunks.antt =====
-- A stream on writers that do not fail, against a message that is built at once.
use protonmail_go.Prelude.{◌≡◌, refl, inl, inr, Option, none, some, List, [], ◌∷◌, ◌++◌}
use mathlib.Core.List.{append_assoc, append-nil}
use protonmail_go.Result.{Result, ok, ◌>>=◌, Result-cases}
use protonmail_go.Http.{Bytes}
use protonmail_go.Mail.{EncryptedKey}
use protonmail_go.Pgp.{PrivateKeyPacket}
use protonmail_go.Streams.{
  FileHints, PacketConfig, Literal, Packet, literal, Header, EncryptedData, all, StreamIo,
  hints_or_default, header_of, unsigned, symetrically_encrypt, write, close, write_all, seal,
  finished,
}
use protonmail_go.Streams.Sealing.{
  concat, literal_with, signature_over, message, signed_message, writing,
}

-- No call fails but, perhaps, the signing.
pub record IsReliable (io : StreamIo) : Type 0 where
  pub begins : (h : Header) → io.begin h ≡ none
  pub takes_packets : (d : EncryptedData) (p : Packet) → io.write_packet d p ≡ none
  pub begins_literal : (d : EncryptedData) (l : Literal) → io.begin_literal d l ≡ none
  pub takes_bytes : (d : EncryptedData) (b : Bytes) → io.write_literal d b ≡ all
  pub ends_literal : (d : EncryptedData) → io.end_literal d ≡ none
  pub closes : (d : EncryptedData) → io.close d ≡ none

module _ (io : StreamIo) (config : PacketConfig) where
  -- The message of a content as a whole.
  abbrev pub whole_message :
      Header → Option PrivateKeyPacket → FileHints → Bytes → Result EncryptedData
  whole_message header none hints content =
      ok (message header (literal (literal_with hints content) ∷ []))
  whole_message header (some s) hints content =
      io.sign s (unsigned config (signature_over s content)) content >>= λ value.
      ok (signed_message io config header s hints content value)

  module _ (r : IsReliable io) where
    opens :
        (key : EncryptedKey) (signer : Option PrivateKeyPacket) (hints : Option FileHints)
        → symetrically_encrypt io config key signer hints
          ≡ ok (writing io config (header_of config key) signer (hints_or_default hints) [])
    unfolding symetrically_encrypt
    opens key none hints = simp (r.begins, r.begins_literal)
    opens key (some p) hints = simp (r.begins, r.begins_literal, r.takes_packets)

    writes :
        (header : Header) (signer : Option PrivateKeyPacket) (hints : FileHints)
        (content chunk : Bytes)
        → write io config chunk (writing io config header signer hints content)
          ≡ (none, writing io config header signer hints (content ++ chunk))
    unfolding write
    writes header none hints content chunk = simp r.takes_bytes
    writes header (some p) hints content chunk = simp r.takes_bytes

    writes_all :
        (header : Header) (signer : Option PrivateKeyPacket) (hints : FileHints) (content : Bytes)
        (chunks : List Bytes)
        → write_all io config chunks (writing io config header signer hints content)
          ≡ (none, writing io config header signer hints (content ++ concat chunks))
    unfolding write_all
    writes_all header signer hints content [] = rw append-nil refl
    writes_all header signer hints content (chunk ∷ rest) =
        rw (writes header signer hints content chunk) (
          rw (← append_assoc content chunk (concat rest))
            (writes_all header signer hints (content ++ chunk) rest))

    closes :
        (header : Header) (signer : Option PrivateKeyPacket) (hints : FileHints) (content : Bytes)
        → finished (close io config (writing io config header signer hints content))
          ≡ whole_message header signer hints content
    unfolding close finished
    closes header none hints content = simp (r.ends_literal, r.closes)
    closes header (some p) hints content =
        elim (Result-cases (io.sign p (unsigned config (signature_over p content)) content)) [
          | inl (value, e) ↦ simp (e, r.ends_literal, r.takes_packets, r.closes)
          | inr (failure, e) ↦ simp e
        ]

    -- If no call of go-crypto fails, other than the signing, then a stream that is opened, written
    -- to in chunks and closed gives the message of the whole content, or the error of the signing,
    -- however the content is cut into chunks.
    pub seal-eq-whole_message :
        (key : EncryptedKey) (signer : Option PrivateKeyPacket) (hints : Option FileHints)
        (chunks : List Bytes)
        → seal io config key signer hints chunks
          ≡ whole_message (header_of config key) signer (hints_or_default hints) (concat chunks)
    unfolding seal
    seal-eq-whole_message key signer hints chunks = rw (opens key signer hints) (
        rw (writes_all (header_of config key) signer (hints_or_default hints) [] chunks)
          (closes (header_of config key) signer (hints_or_default hints) (concat chunks)))
