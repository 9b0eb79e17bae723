-- ===== src/Attachments.antt =====
-- attachments.go: the keys of an attachment, and its download and upload.
pub mod Download
pub mod Payload
pub mod Uploading
mod Tests
use Prim.Native.String.{◌++◌ as append}
use protonmail_go.Prelude.{
  ℕ, ◌^◌, String, Bool, true, false, not, Option, none, some, List, [], ◌∷◌, ◌++◌, take, ◌==◌,
  if◌then◌else◌,
}
use protonmail_go.Errors.{Error, other, http}
use protonmail_go.Result.{Result, ok, err}
use protonmail_go.Http.{Bytes, no_body, Response, failed}
use protonmail_go.Client.{Config}
use protonmail_go.Mail.{Attachment, EncryptedKey}
use protonmail_go.Pgp.{Entity, Key, KeyRules, PublicKeyPacket}
use protonmail_go.KeySelection.{encryption_key}
use protonmail_go.Pipe.{Reader, multi_reader, body_of}
use protonmail_go.Multipart.{FormPart, field, form_file, MultipartWriter, form_writes}
use protonmail_go.Streams.{StreamIo, PacketConfig, Stream, symetrically_encrypt}
use protonmail_go.Packages.{PackageCrypto, generate_unencrypted_key}
use protonmail_go.Transport.{Act, Net, Envelope, Wire, new_request, ◌>>=◌}
use protonmail_go.Transport.Exchange.{do_request, drain_and_close}
use protonmail_go.Transport.Json.{http_error_of, is_success}
use protonmail_go.Endpoint.{upload}

-- The key packets of the recipients one after another, as bytes before they are encoded; the packet
-- of a session key for a public key is an argument.
abbrev pub SerializeKey : Type 0
SerializeKey = PublicKeyPacket → EncryptedKey → Result Bytes

module _ (crypto : PackageCrypto) (packet : SerializeKey) (rules : KeyRules) (now : ℕ) where
  recipient_packet : EncryptedKey → Result (Option Key) → Result Bytes
  recipient_packet key (err e) = err e
  recipient_packet key (ok none) =
      err (other "cannot encrypt an attachment to key id because it has no encryption keys")
  recipient_packet key (ok (some k)) = packet k.public_key key

  then_packets : Result Bytes → Result Bytes → Result Bytes
  then_packets (err e) later = err e
  then_packets (ok b) (err e) = err e
  then_packets (ok b) (ok bs) = ok (b ++ bs)

  pub key_packets : EncryptedKey → List Entity → Result Bytes
  unfolding recipient_packet then_packets
  key_packets key [] = ok []
  key_packets key (to ∷ rest) =
      then_packets (recipient_packet key (encryption_key rules now to)) (key_packets key rest)

  with_packets : EncryptedKey → Attachment → Result Bytes → Result EncryptedKey × Attachment
  with_packets key att (err e) = (err e, att)
  with_packets key att (ok b) =
      (ok key, record att { unencrypted_key = some key; key_packets = crypto.encode_to_string b })

  with_key : List Entity → Attachment → Result EncryptedKey → Result EncryptedKey × Attachment
  unfolding key_packets with_packets
  with_key to att (err e) = (err e, att)
  with_key to att (ok key) = with_packets key att (key_packets key to)

  -- `(*Attachment).GenerateKey`, with the attachment that it leaves
  unfoldable pub generate_key : List Entity → Attachment → Result EncryptedKey × Attachment
  unfolding with_key
  generate_key to att = with_key to att (generate_unencrypted_key crypto)

-- `openpgp.MessageDetails`, as far as Read sets it
pub record AttachmentDetails : Type 0 where
  pub is_encrypted : Bool
  pub is_signed : Bool
  pub body : Reader

-- `(*Attachment).Encrypt`
unfoldable pub encrypt_attachment : StreamIo → PacketConfig → Attachment → Result Stream
encrypt_attachment io config att = elim att.unencrypted_key [
  | none ↦ err (other "cannot encrypt attachment: no attachment key available")
  | some key ↦
      symetrically_encrypt io config key none
        (some (record { is_binary = true; file_name = att.name; mod_time = none }))
]

-- `(*Attachment).Read`, given the base64 decoder and openpgp.ReadMessage with its key ring and prompt
unfoldable pub read_attachment :
    (String → Reader)
    → (Reader → Result AttachmentDetails)
    → Attachment
    → Reader
    → Result AttachmentDetails
read_attachment decoder read_message att ciphertext =
    if att.key_packets == ""
    then ok (record { is_encrypted = false; is_signed = false; body = ciphertext })
    else read_message (multi_reader (decoder att.key_packets) ciphertext)

-- The parts that the goroutine of CreateAttachment writes.
abbrev pub attachment_form : (String → Reader) → Attachment → Reader → List FormPart
attachment_form decoder att data_packet =
    field "Filename" att.name
    ∷ field "MessageID" att.message_id
    ∷ field "MIMEType" att.mime_type
    ∷ ((if att.content_id == "" then [] else field "ContentID" att.content_id ∷ [])
        ++ form_file "KeyPackets" "KeyPackets.pgp" (decoder att.key_packets)
          ∷ form_file "DataPacket" "DataPacket.pgp" data_packet
          ∷ [])

module _ {W : Type 0} (fuel : ℕ) (wire : Wire) (cfg : Config W) where
  -- The body is returned open, or a status that is not 2xx becomes an *HTTPError.
  returned : Response → Act W Bytes
  returned r net =
      if is_success r.status_code
      then some (ok r.body, net)
      else some (err (http (http_error_of r)), drain_and_close net)

  -- `(*Client).GetAttachment`; what the returned body gives is the result.
  unfoldable pub get_attachment : String → Act W Bytes
  unfolding returned
  get_attachment id = do
    req ← new_request wire cfg "GET" (append "/attachments/" id) no_body
    r ← do_request fuel cfg req
    returned r

  -- A request whose body cannot be read to its end makes `Do` fail.
  abbrev pub reading : Reader → Config W
  reading body = elim body.failure [
    | none ↦ cfg
    | some e ↦ record cfg { http_client = λ w q. (failed e, w) }
  ]

  -- `(*Client).CreateAttachment`, given the multipart writer and the base64 decoder: the goroutine's
  -- writes reach the request through the pipe.
  unfoldable pub create_attachment :
      MultipartWriter
      → (String → Reader)
      → (Bytes → Result (Envelope (Option Attachment)))
      → Attachment
      → Reader
      → Act W (Option Attachment)
  create_attachment mw decoder decode att data_packet =
      let body = body_of (form_writes mw (attachment_form decoder att data_packet)) in
      upload fuel wire (reading body) "POST" "/attachments" mw.form_data_content_type body.bytes
        decode
