-- ===== src/Attachments/Tests.antt =====
-- A download at a server, an upload to one, and a payload that is encrypted and read back.
use protonmail_go.Prelude.{
  ◌≡◌, refl, sym, ap, ◌∙◌, String, true, false, none, some, List, [], ◌∷◌, pos, eq_iff,
}
use protonmail_go.Result.{Result, ok, ok-injective}
use protonmail_go.Http.{Bytes, stream}
use protonmail_go.Samples.{plain, net_at, wire, decodes, entity, rules, quiet_io, default_packets}
use protonmail_go.Mail.{Attachment, EncryptedKey}
use protonmail_go.KeySelection.{encryption_key}
use protonmail_go.Pipe.{Reader, reader}
use protonmail_go.Multipart.{MultipartWriter}
use protonmail_go.Streams.{
  header_of, finished, Packet, one_pass, literal, signature, EncryptedData, symetrically_encrypt,
  write, write_all, close,
}
use protonmail_go.Streams.Sealing.{concat, message, literal_with}
use protonmail_go.Packages.{PackageCrypto, generate_unencrypted_key}
use protonmail_go.Endpoint.Requests.{IsAsked, Asks}
use protonmail_go.Attachments.{
  SerializeKey, key_packets, AttachmentDetails, generate_key, get_attachment, create_attachment,
  encrypt_attachment, read_attachment,
}
use protonmail_go.Attachments.Download.{Hands, get_attachment-Hands}
use protonmail_go.Attachments.Payload.{
  hints_of, encrypt_payload, Opening, read_attachment-encrypt_payload,
}
use protonmail_go.Attachments.Uploading.{form_bytes, create_attachment-Asks}

get_attachment-Hands_example : Hands 0 (get_attachment 2 wire plain "a" (net_at 404))
get_attachment-Hands_example = get_attachment-Hands 2 wire plain "a" (net_at 404)

abbrev attachment : Attachment
attachment = record {
  id = "";
  message_id = "m";
  name = "a.txt";
  size = pos 0;
  mime_type = "text/plain";
  content_id = "";
  key_packets = "";
  signature = "";
  unencrypted_key = none;
}

abbrev toy_writer : MultipartWriter
toy_writer = record {
  part_header = λ first name filename. 45 ∷ 45 ∷ [];
  text_bytes = λ s. 97 ∷ [];
  trailer = 45 ∷ [];
  form_data_content_type = "multipart/form-data; boundary=b";
}

create_attachment-Asks_example :
    Asks
      (IsAsked plain "POST" "/attachments"
        (stream (form_bytes toy_writer (λ s. reader []) attachment (reader (1 ∷ []))) none))
      (net_at 200)
      (create_attachment 2 wire plain toy_writer
        (λ s. reader [])
        (decodes none)
        attachment
        (reader (1 ∷ []))
        (net_at 200))
create_attachment-Asks_example =
    create_attachment-Asks toy_writer (λ s. reader []) 2 wire plain (decodes none) attachment
      (reader (1 ∷ [])) (net_at 200) refl refl

-- The content of the first literal packet.
content_of : List Packet → Bytes
content_of [] = []
content_of (literal l ∷ rest) = l.content
content_of (one_pass o ∷ rest) = content_of rest
content_of (signature x ∷ rest) = content_of rest

abbrev toy_crypto : PackageCrypto
toy_crypto = record {
  encode_to_string = λ b. "b64";
  read_random = λ n. ok (1 ∷ 2 ∷ []);
  serialize_encrypted_key = λ to k. ok "packet";
  stream_io = quiet_io;
  config = default_packets;
  render = λ d. content_of d.packets;
}

-- A key packet is the byte 5.
abbrev toy_packet : SerializeKey
toy_packet p k = ok (5 ∷ [])

without_packet : Bytes → Bytes
without_packet [] = []
without_packet (b ∷ bs) = bs

abbrev toy_message : Reader → Result AttachmentDetails
toy_message r = ok (record {
  is_encrypted = true;
  is_signed = false;
  body = record r { bytes = without_packet r.bytes };
})

toy_packets :
    (key : EncryptedKey) → key_packets toy_crypto toy_packet rules 9 key (entity ∷ []) ≡ ok (5 ∷ [])
unfolding key_packets encryption_key
toy_packets key = refl

false_ne : false ≡ true → ⊥
false_ne q = cc

text_ne : ◌≡◌ {A = String} "b64" "" → ⊥
text_ne q = false_ne ((eq_iff "b64" "").1 q)

opening : Opening toy_crypto toy_packet rules 9 (λ s. reader (5 ∷ [])) toy_message (entity ∷ [])
unfolding content_of without_packet
opening = record {
  decodes = λ key packets e. ap reader (ok-injective (sym (toy_packets key) ∙ e));
  encodes_text = λ key packets e q. absurd (text_ne q);
  has_bytes = λ p k q. absurd (cc q);
  opens = λ key packets hints content d e m. rw (ok-injective (sym e ∙ toy_packets key), m) refl;
}

abbrev keyed : Attachment
keyed = record attachment {
  key_packets = "b64";
  unencrypted_key = some (record { cipher_func = 9; key = 1 ∷ 2 ∷ [] });
}

generate_key_runs :
    generate_key toy_crypto toy_packet rules 9 (entity ∷ []) attachment
    ≡ (ok (record { cipher_func = 9; key = 1 ∷ 2 ∷ [] }), keyed)
unfolding generate_key encryption_key generate_unencrypted_key
generate_key_runs = refl

abbrev payload : EncryptedData
payload =
    message (header_of default_packets (record { cipher_func = 9; key = 1 ∷ 2 ∷ [] }))
      (literal (literal_with (hints_of keyed) (8 ∷ 9 ∷ [])) ∷ [])

payload_runs :
    encrypt_payload quiet_io default_packets keyed ((8 ∷ []) ∷ (9 ∷ []) ∷ []) ≡ ok payload
unfolding encrypt_payload encrypt_attachment symetrically_encrypt write write_all close finished
payload_runs = refl

read_attachment-encrypt_payload_example :
    read_attachment (λ s. reader (5 ∷ [])) toy_message keyed (reader (toy_crypto.render payload))
    ≡ ok (record {
      is_encrypted = true;
      is_signed = false;
      body = reader (concat ((8 ∷ []) ∷ (9 ∷ []) ∷ []));
    })
read_attachment-encrypt_payload_example =
    read_attachment-encrypt_payload toy_crypto toy_packet rules 9 (λ s. reader (5 ∷ [])) toy_message
      entity [] attachment keyed (record { cipher_func = 9; key = 1 ∷ 2 ∷ [] })
      ((8 ∷ []) ∷ (9 ∷ []) ∷ []) payload opening generate_key_runs payload_runs
