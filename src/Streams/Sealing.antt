-- ===== src/Streams/Sealing.antt =====
-- What a stream has written once it is closed: one whole message.
use protonmail_go.Prelude.{
  ◌≡◌, ◌⊎◌, inl, inr, refl, subst, Option, none, some, List, [], ◌∷◌, ◌++◌, arith,
}
use mathlib.Core.List.{append_assoc, append-nil}
use protonmail_go.Errors.{Error}
use protonmail_go.Result.{Result, ok, err, ◌>>=◌, Result-cases, ok-injective}
use protonmail_go.Http.{Bytes}
use protonmail_go.Mail.{EncryptedKey}
use protonmail_go.Pgp.{PrivateKeyPacket}
use protonmail_go.Streams.{
  FileHints, PacketConfig, Literal, Packet, one_pass, literal, signature, Header, EncryptedData,
  StreamIo, encrypted_data, no_op_closer, SignatureWriter, literal_data, signature_writer, Stream,
  sha512, one_pass_of, hints_or_default, literal_of, header_of, unsigned, and_then,
  symetrically_encrypt, write, close, write_all, seal, finished,
}

abbrev pub concat : List Bytes → Bytes
concat [] = []
concat (chunk ∷ rest) = chunk ++ concat rest

abbrev pub literal_with : FileHints → Bytes → Literal
literal_with hints content = record (literal_of hints) { content = content }

abbrev pub signature_over : PrivateKeyPacket → Bytes → SignatureWriter
signature_over signer content = record { hash_type = sha512; hashed = content; signer = signer }

-- The packets of a message, and its encrypted data: closed once.
abbrev pub message : Header → List Packet → EncryptedData
message header packets = record {
  header = header;
  packets = packets;
  open_literal = none;
  closes = 1;
}

call-cases :
    (r : Option Error × Stream)
    → ((s : Stream) × (r ≡ (none, s))) ⊎ ((e : Error) × (s : Stream) × (r ≡ (some e, s)))
call-cases (none, s) = inl (s, refl)
call-cases (some e, s) = inr (e, s, refl)

no_error : (e : Error) (s t : Stream) → ◌≡◌ {A = Option Error × Stream} (some e, s) (none, t) → ⊥
no_error e s t h = cc

module _ (io : StreamIo) (config : PacketConfig) where
  abbrev pub signed_message : Header → PrivateKeyPacket → FileHints → Bytes → Bytes → EncryptedData
  signed_message header signer hints content value = message header (
      one_pass (one_pass_of signer)
      ∷ literal (literal_with hints content)
      ∷ signature (record (unsigned config (signature_over signer content)) { value = value })
      ∷ [])

  -- The data is one message with the content: its literal packet alone, or between the announcement
  -- and the signature of the content by the signer.
  abbrev pub IsMessage :
      Header → Option PrivateKeyPacket → FileHints → Bytes → EncryptedData → Type 0
  IsMessage header none hints content d =
      d ≡ message header (literal (literal_with hints content) ∷ [])
  IsMessage header (some s) hints content d =
      (value : Bytes) × (io.sign s (unsigned config (signature_over s content)) content ≡ ok value)
      × (d ≡ signed_message header s hints content value)

  -- A stream whose writes so far were accepted.
  abbrev pub writing : Header → Option PrivateKeyPacket → FileHints → Bytes → Stream
  writing header none hints content = record {
    writer = literal_data;
    under = encrypted_data;
    encrypted = record {
      header = header;
      packets = [];
      open_literal = some (literal_with hints content);
      closes = 0;
    };
  }
  writing header (some s) hints content = record {
    writer = signature_writer (signature_over s content);
    under = no_op_closer;
    encrypted = record {
      header = header;
      packets = one_pass (one_pass_of s) ∷ [];
      open_literal = some (literal_with hints content);
      closes = 0;
    };
  }

  opened_lem :
      (key : EncryptedKey) (signer : Option PrivateKeyPacket) (hints : Option FileHints)
      {s : Stream}
      → symetrically_encrypt io config key signer hints ≡ ok s
      → s ≡ writing (header_of config key) signer (hints_or_default hints) []
  unfolding symetrically_encrypt
  opened_lem key none hints h = ground arith
  opened_lem key (some p) hints h = ground arith

  write_lem :
      (header : Header) (signer : Option PrivateKeyPacket) (hints : FileHints)
      (content chunk : Bytes) {s : Stream}
      → write io config chunk (writing header signer hints content) ≡ (none, s)
      → s ≡ writing header signer hints (content ++ chunk)
  unfolding write
  write_lem header none hints content chunk h = ground arith
  write_lem header (some p) hints content chunk h = ground arith

  close_lem :
      (header : Header) (signer : Option PrivateKeyPacket) (hints : FileHints) (content : Bytes)
      {s : Stream}
      → close io config (writing header signer hints content) ≡ (none, s)
      → IsMessage header signer hints content s.encrypted
  unfolding close
  close_lem header none hints content h = ground arith
  close_lem header (some p) hints content h =
      elim (Result-cases (io.sign p (unsigned config (signature_over p content)) content)) [
        | inl (value, e) ↦ (value, e, ground arith)
        | inr (failure, e) ↦ absurd (ground arith)
      ]

  write_all_lem :
      (header : Header) (signer : Option PrivateKeyPacket) (hints : FileHints) (content : Bytes)
      (chunks : List Bytes) {s : Stream}
      → write_all io config chunks (writing header signer hints content) ≡ (none, s)
      → s ≡ writing header signer hints (content ++ concat chunks)
  unfolding write_all
  write_all_lem header signer hints content [] {s} h = rw append-nil (cc)
  write_all_lem header signer hints content (chunk ∷ rest) {s} h =
      elim (call-cases (write io config chunk (writing header signer hints content))) [
        | inl (s', e) ↦ rw (← append_assoc content chunk (concat rest)) (
            write_all_lem header signer hints (content ++ chunk) rest (
              subst (λ t. write_all io config rest t ≡ (none, s))
                (write_lem header signer hints content chunk e) (rw e at h)))
        | inr (failure, s', e) ↦ absurd (no_error failure s' s (rw e at h))
      ]

  closed_lem :
      (header : Header) (signer : Option PrivateKeyPacket) (hints : FileHints) (content : Bytes)
      (r : Option Error × Stream)
      → close io config (writing header signer hints content) ≡ r
      → {d : EncryptedData} → finished r ≡ ok d
      → IsMessage header signer hints content d
  unfolding finished
  closed_lem header signer hints content (some e, s) c h = absurd (ground arith)
  closed_lem header signer hints content (none, s) c h =
      subst (IsMessage header signer hints content) (ok-injective h)
        (close_lem header signer hints content c)

  written_lem :
      (header : Header) (signer : Option PrivateKeyPacket) (hints : FileHints) (chunks : List Bytes)
      (r : Option Error × Stream)
      → write_all io config chunks (writing header signer hints []) ≡ r
      → {d : EncryptedData} → finished (and_then r (close io config)) ≡ ok d
      → IsMessage header signer hints (concat chunks) d
  unfolding finished
  written_lem header signer hints chunks (some e, s) w h = absurd (ground arith)
  written_lem header signer hints chunks (none, s) w {d} h =
      let p = write_all_lem header signer hints [] chunks w in
      closed_lem header signer hints (concat chunks) _ refl
        (subst (λ t. finished (close io config t) ≡ ok d) p h)

  opened_seal :
      (key : EncryptedKey) (signer : Option PrivateKeyPacket) (hints : Option FileHints)
      (chunks : List Bytes) (r : Result Stream)
      → symetrically_encrypt io config key signer hints ≡ r
      → {d : EncryptedData}
      → (r >>= λ s. finished (and_then (write_all io config chunks s) (close io config))) ≡ ok d
      → IsMessage (header_of config key) signer (hints_or_default hints) (concat chunks) d
  opened_seal key signer hints chunks (err e) o h = absurd (ground arith)
  opened_seal key signer hints chunks (ok s) o {d} h =
      written_lem (header_of config key) signer (hints_or_default hints) chunks _ refl (
        subst (λ t. finished (and_then (write_all io config chunks t) (close io config)) ≡ ok d)
          (opened_lem key signer hints o) h)

  -- Whatever calls of go-crypto fail, a stream that is opened, written to in chunks and closed without
  -- an error has become one message: it holds the content of all chunks in one literal packet, it is
  -- closed once, and with a signer the literal packet stands between the one-pass announcement and a
  -- signature by the signer over exactly that content.
  pub seal-IsMessage :
      (key : EncryptedKey) (signer : Option PrivateKeyPacket) (hints : Option FileHints)
      (chunks : List Bytes) (d : EncryptedData)
      → seal io config key signer hints chunks ≡ ok d
      → IsMessage (header_of config key) signer (hints_or_default hints) (concat chunks) d
  unfolding seal
  seal-IsMessage key signer hints chunks d h = opened_seal key signer hints chunks _ refl h
