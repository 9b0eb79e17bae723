-- ===== src/Streams.antt =====
-- The encrypted streams of crypto.go: symetricallyEncrypt, signatureWriter and noOpCloser, by the
-- packets that come into the encrypted data. Hashes are the bytes that were hashed.
pub mod Sealing
pub mod Chunks
mod Tests
use protonmail_go.Prelude.{
  ℕ, ◌+◌, ◌%◌, ◌^◌, String, Bool, true, false, Option, none, some, List, [], ◌∷◌, ◌++◌, take,
}
use protonmail_go.Errors.{Error}
use protonmail_go.Result.{Result, ok, err, ◌>>=◌}
use protonmail_go.Http.{Bytes}
use protonmail_go.Mail.{EncryptedKey}
use protonmail_go.Pgp.{PrivateKeyPacket}

-- `openpgp.FileHints`; a time of `none` is the zero time, another is in seconds.
pub record FileHints : Type 0 where
  pub is_binary : Bool
  pub file_name : String
  pub mod_time : Option ℕ

-- `packet.Config`, by what its methods answer; `aead` is whether AEAD is configured.
pub record PacketConfig : Type 0 where
  pub cipher : ℕ
  pub aead : Bool
  pub aead_mode : ℕ
  pub now : ℕ
  pub sig_lifetime : ℕ
  pub notations : List String

pub record OnePassSignature : Type 0 where
  pub version : ℕ
  pub sig_type : ℕ
  pub hash : ℕ
  pub pub_key_algo : ℕ
  pub key_id : ℕ
  pub is_last : Bool

pub record Literal : Type 0 where
  pub is_binary : Bool
  pub file_name : String
  pub time : ℕ
  pub content : Bytes

-- `packet.Signature`, with the value that Sign puts into it.
pub record DataSignature : Type 0 where
  pub version : ℕ
  pub sig_type : ℕ
  pub pub_key_algo : ℕ
  pub hash : ℕ
  pub creation_time : ℕ
  pub issuer_key_id : ℕ
  pub issuer_fingerprint : Bytes
  pub notations : List String
  pub sig_lifetime_secs : ℕ
  pub value : Bytes

pub data Packet : Type 0 where
  one_pass : OnePassSignature → Packet
  literal : Literal → Packet
  signature : DataSignature → Packet

-- The arguments of SerializeSymmetricallyEncrypted.
pub record Header : Type 0 where
  pub cipher_func : ℕ
  pub aead_supported : Bool
  pub suite_cipher : ℕ
  pub suite_mode : ℕ
  pub key : Bytes

-- `encryptedData`: the packets written, the literal packet that is being written, and how often it
-- was closed.
pub record EncryptedData : Type 0 where
  pub header : Header
  pub packets : List Packet
  pub open_literal : Option Literal
  pub closes : ℕ

-- What a Write accepts: everything, or some first bytes and an error.
pub data Written : Type 0 where
  all : Written
  partial : ℕ → Error → Written

-- What go-crypto and the writer below the stream do at each call.
pub record StreamIo : Type 0 where
  pub begin : Header → Option Error
  pub write_packet : EncryptedData → Packet → Option Error
  pub begin_literal : EncryptedData → Literal → Option Error
  pub write_literal : EncryptedData → Bytes → Written
  pub end_literal : EncryptedData → Option Error
  pub close : EncryptedData → Option Error
  pub sign : PrivateKeyPacket → DataSignature → Bytes → Result Bytes

-- What the literal data is written to: the encrypted data, or a noOpCloser around it.
pub data Under : Type 0 where
  encrypted_data : Under
  no_op_closer : Under

pub record SignatureWriter : Type 0 where
  pub hash_type : ℕ
  pub hashed : Bytes
  pub signer : PrivateKeyPacket

-- The writer that is handed out: literalData itself, or a signatureWriter on it.
pub data Writer : Type 0 where
  literal_data : Writer
  signature_writer : SignatureWriter → Writer

pub record Stream : Type 0 where
  pub writer : Writer
  pub under : Under
  pub encrypted : EncryptedData

-- `crypto.SHA512`
abbrev pub sha512 : ℕ
sha512 = 7

abbrev pub one_pass_of : PrivateKeyPacket → OnePassSignature
one_pass_of signer = record {
  version = 3;
  sig_type = 0;
  hash = sha512;
  pub_key_algo = signer.pub_key_algo;
  key_id = signer.key_id;
  is_last = true;
}

-- The hints of a nil argument.
abbrev pub no_hints : FileHints
no_hints = record { is_binary = false; file_name = ""; mod_time = none }

abbrev pub hints_or_default : Option FileHints → FileHints
hints_or_default none = no_hints
hints_or_default (some h) = h

abbrev pub epoch_seconds : Option ℕ → ℕ
epoch_seconds none = 0
epoch_seconds (some t) = t % 2 ^ 32

abbrev pub literal_of : FileHints → Literal
literal_of h = record {
  is_binary = h.is_binary;
  file_name = h.file_name;
  time = epoch_seconds h.mod_time;
  content = [];
}

abbrev pub header_of : PacketConfig → EncryptedKey → Header
header_of config key = record {
  cipher_func = key.cipher_func;
  aead_supported = config.aead;
  suite_cipher = config.cipher;
  suite_mode = config.aead_mode;
  key = key.key;
}

-- The signature packet of signatureWriter.Close before it is signed.
abbrev pub unsigned : PacketConfig → SignatureWriter → DataSignature
unsigned config w = record {
  version = 3;
  sig_type = 0;
  pub_key_algo = w.signer.pub_key_algo;
  hash = w.hash_type;
  creation_time = config.now;
  issuer_key_id = w.signer.key_id;
  issuer_fingerprint = w.signer.fingerprint;
  notations = config.notations;
  sig_lifetime_secs = config.sig_lifetime;
  value = [];
}

abbrev pub new_encrypted : Header → EncryptedData
new_encrypted header = record { header = header; packets = []; open_literal = none; closes = 0 }

-- The packets with one more.
abbrev pub add_packet : Packet → EncryptedData → EncryptedData
add_packet p d = record d { packets = d.packets ++ p ∷ [] }

-- The literal packet that is begun, with more content.
abbrev pub add_content : Bytes → Option Literal → Option Literal
add_content bytes none = none
add_content bytes (some l) = some (record l { content = l.content ++ bytes })

abbrev pub finish_literal : Option Literal → EncryptedData → EncryptedData
finish_literal none d = d
finish_literal (some l) d = record (add_packet (literal l) d) { open_literal = none }

-- What is done once a call has not failed.
abbrev pub and_then {ℓ} :
    {A : Type ℓ} → Option Error × A → (A → Option Error × A) → Option Error × A
and_then (some e, a) f = (some e, a)
and_then (none, a) f = f a

unfoldable pub finished : Option Error × Stream → Result EncryptedData
finished (some e, s) = err e
finished (none, s) = ok s.encrypted

module _ (io : StreamIo) (config : PacketConfig) where
  attempt : Option Error → EncryptedData → EncryptedData → Option Error × EncryptedData
  attempt (some e) old new = (some e, old)
  attempt none old new = (none, new)

  -- `Serialize` of a packet into the encrypted data
  serialize_packet : Packet → EncryptedData → Option Error × EncryptedData
  unfolding attempt
  serialize_packet p d = attempt (io.write_packet d p) d (add_packet p d)

  close_encrypted : EncryptedData → Option Error × EncryptedData
  unfolding attempt
  close_encrypted d = attempt (io.close d) d (record d { closes = d.closes + 1 })

  -- `Close` of what the literal data is written to; that of a noOpCloser does nothing.
  close_under : Under → EncryptedData → Option Error × EncryptedData
  unfolding close_encrypted
  close_under encrypted_data d = close_encrypted d
  close_under no_op_closer d = (none, d)

  -- `literalData.Close`: the last length, and then what it is written to.
  close_literal : Under → EncryptedData → Option Error × EncryptedData
  unfolding attempt close_under
  close_literal u d =
      and_then (attempt (io.end_literal d) d (finish_literal d.open_literal d)) (close_under u)

  -- `packet.SerializeLiteral`
  begin_literal : FileHints → EncryptedData → Option Error × EncryptedData
  unfolding attempt
  begin_literal hints d =
      attempt (io.begin_literal d (literal_of hints)) d
        (record d { open_literal = some (literal_of hints) })

  stream_of : Writer → Under → Option Error × EncryptedData → Result Stream
  stream_of w u (some e, d) = err e
  stream_of w u (none, d) = ok (record { writer = w; under = u; encrypted = d })

  begin_stream : FileHints → Option PrivateKeyPacket → EncryptedData → Result Stream
  unfolding serialize_packet begin_literal stream_of
  begin_stream hints none d = stream_of literal_data encrypted_data (begin_literal hints d)
  begin_stream hints (some s) d =
      stream_of (signature_writer (record { hash_type = sha512; hashed = []; signer = s }))
        no_op_closer
        (and_then (serialize_packet (one_pass (one_pass_of s)) d) (begin_literal hints))

  after_header : FileHints → Option PrivateKeyPacket → Header → Option Error → Result Stream
  unfolding begin_stream
  after_header hints signer header (some e) = err e
  after_header hints signer header none = begin_stream hints signer (new_encrypted header)

  -- `symetricallyEncrypt`
  unfoldable pub symetrically_encrypt :
      EncryptedKey → Option PrivateKeyPacket → Option FileHints → Result Stream
  unfolding after_header
  symetrically_encrypt key signer hints =
      after_header (hints_or_default hints) signer (header_of config key)
        (io.begin (header_of config key))

  -- A signatureWriter hashes all the bytes before it passes them on.
  hash_bytes : Bytes → Writer → Writer
  hash_bytes bytes literal_data = literal_data
  hash_bytes bytes (signature_writer w) = signature_writer (record w { hashed = w.hashed ++ bytes })

  accept_bytes : Bytes → EncryptedData → Written → Option Error × EncryptedData
  accept_bytes bytes d all = (none, record d { open_literal = add_content bytes d.open_literal })
  accept_bytes bytes d (partial n e) =
      (some e, record d { open_literal = add_content (take n bytes) d.open_literal })

  with_encrypted : Stream → Option Error × EncryptedData → Option Error × Stream
  with_encrypted s (e, d) = (e, record s { encrypted = d })

  -- `Write` of the writer that is handed out, with its error
  unfoldable pub write : Bytes → Stream → Option Error × Stream
  unfolding hash_bytes accept_bytes with_encrypted
  write bytes s =
      with_encrypted (record s { writer = hash_bytes bytes s.writer })
        (accept_bytes bytes s.encrypted (io.write_literal s.encrypted bytes))

  close_signed :
      SignatureWriter → Under → EncryptedData → Result Bytes → Option Error × EncryptedData
  unfolding close_literal serialize_packet close_encrypted
  close_signed w u d (err e) = (some e, d)
  close_signed w u d (ok value) =
      and_then
        (and_then (close_literal u d)
          (serialize_packet (signature (record (unsigned config w) { value = value }))))
        close_encrypted

  close_writer : Writer → Under → EncryptedData → Option Error × EncryptedData
  unfolding close_signed close_literal
  close_writer literal_data u d = close_literal u d
  close_writer (signature_writer w) u d =
      close_signed w u d (io.sign w.signer (unsigned config w) w.hashed)

  -- `Close` of the writer that is handed out
  unfoldable pub close : Stream → Option Error × Stream
  unfolding close_writer with_encrypted
  close s = with_encrypted s (close_writer s.writer s.under s.encrypted)

  -- Writes one after another, up to the first that fails.
  unfoldable pub write_all : List Bytes → Stream → Option Error × Stream
  write_all [] s = (none, s)
  write_all (chunk ∷ rest) s = and_then (write chunk s) (write_all rest)

  -- A stream that is opened, written to in chunks and closed.
  unfoldable pub seal :
      EncryptedKey → Option PrivateKeyPacket → Option FileHints → List Bytes → Result EncryptedData
  unfolding finished
  seal key signer hints chunks =
      symetrically_encrypt key signer hints >>= λ s. finished (and_then (write_all chunks s) close)
