-- ===== src/Attachments/Payload.antt =====
-- The payload of an attachment: encrypted under a generated key, and read back.
use protonmail_go.Prelude.{
  ℕ, String, ◌≡◌, ◌≢◌, refl, subst, sym, ◌==◌, eq_iff, Bool-cases, inl, inr, true, false, Option,
  none, some, List, [], ◌∷◌, ◌++◌, arith,
}
use protonmail_go.Result.{Result, ok, err, ◌>>=◌}
use protonmail_go.Http.{Bytes}
use protonmail_go.Mail.{Attachment, EncryptedKey}
use protonmail_go.Pgp.{PublicKeyPacket, Entity, KeyRules, Key}
use protonmail_go.Streams.{
  StreamIo, PacketConfig, FileHints, EncryptedData, header_of, write_all, close, and_then, finished,
  seal,
}
use protonmail_go.Streams.Sealing.{concat, IsMessage, seal-IsMessage}
use protonmail_go.Packages.{PackageCrypto, generate_unencrypted_key}
use protonmail_go.Pipe.{Reader, reader}
use protonmail_go.Attachments.{
  SerializeKey, AttachmentDetails, generate_key, key_packets, encrypt_attachment, read_attachment,
  with_key, then_packets, recipient_packet, with_packets,
}

abbrev pub hints_of : Attachment → FileHints
hints_of att = record { is_binary = true; file_name = att.name; mod_time = none }

-- A payload that is encrypted: Encrypt, the writes in chunks, and Close.
unfoldable pub encrypt_payload :
    StreamIo → PacketConfig → Attachment → List Bytes → Result EncryptedData
encrypt_payload io config att chunks = encrypt_attachment io config att >>= λ s.
    finished (and_then (write_all io config chunks s) (close io config))

module _ (crypto : PackageCrypto) (packet : SerializeKey) (rules : KeyRules) (now : ℕ) where
  -- What GenerateKey leaves in an attachment when it succeeds.
  abbrev pub Keyed : List Entity → Attachment → EncryptedKey → Attachment → Type 0
  Keyed to att key att' =
      (b : Bytes) × (key_packets crypto packet rules now key to ≡ ok b)
      × (att' ≡ record att { unencrypted_key = some key; key_packets = crypto.encode_to_string b })

  packets-Keyed :
      (to : List Entity) (att : Attachment) (generated : EncryptedKey) (r : Result Bytes)
      → key_packets crypto packet rules now generated to ≡ r
      → {key : EncryptedKey} {att' : Attachment}
      → with_packets crypto packet rules now generated att r ≡ (ok key, att')
      → Keyed to att key att'
  unfolding with_packets
  packets-Keyed to att generated (err e) p h = absurd (ground arith)
  packets-Keyed to att generated (ok b) p {key} h =
      let e : generated ≡ key = ground arith in
      (b, subst (λ k. key_packets crypto packet rules now k to ≡ ok b) e p, ground arith)

  with_key-Keyed :
      (to : List Entity) (att : Attachment) (r : Result EncryptedKey) {key : EncryptedKey}
      {att' : Attachment}
      → with_key crypto packet rules now to att r ≡ (ok key, att')
      → Keyed to att key att'
  unfolding with_key
  with_key-Keyed to att (err e) h = absurd (ground arith)
  with_key-Keyed to att (ok key) h = packets-Keyed to att key _ refl h

  generate_key-Keyed :
      (to : List Entity) (att : Attachment) {key : EncryptedKey} {att' : Attachment}
      → generate_key crypto packet rules now to att ≡ (ok key, att')
      → Keyed to att key att'
  unfolding generate_key
  generate_key-Keyed to att h = with_key-Keyed to att (generate_unencrypted_key crypto) h

  -- What base64 and go-crypto do: key packets decode to the bytes they were encoded from, no key packet is
  -- empty, and a key packet for some recipients before data under its key opens to the data's content.
  pub record Opening (decoder : String → Reader) (read_message : Reader → Result AttachmentDetails)
      (to : List Entity) : Type 0 where
    pub decodes :
        (key : EncryptedKey) (packets : Bytes)
        → key_packets crypto packet rules now key to ≡ ok packets
        → decoder (crypto.encode_to_string packets) ≡ reader packets
    pub encodes_text :
        (key : EncryptedKey) (packets : Bytes)
        → key_packets crypto packet rules now key to ≡ ok packets
        → crypto.encode_to_string packets ≡ ""
        → packets ≡ []
    pub has_bytes : (p : PublicKeyPacket) (k : EncryptedKey) → packet p k ≢ ok []
    pub opens :
        (key : EncryptedKey) (packets : Bytes) (hints : FileHints) (content : Bytes)
        (d : EncryptedData)
        → key_packets crypto packet rules now key to ≡ ok packets
        → IsMessage crypto.stream_io crypto.config
            (header_of crypto.config key)
            none
            hints
            content
            d
        → read_message (record { bytes = packets ++ crypto.render d; failure = none })
          ≡ ok (record {
            is_encrypted = true;
            is_signed = false;
            body = record { bytes = content; failure = none };
          })

  one_packet-ne :
      (key : EncryptedKey) (r : Result (Option Key)) (later : Result Bytes)
      → ((p : PublicKeyPacket) → packet p key ≢ ok [])
      → then_packets crypto packet rules now (recipient_packet crypto packet rules now key r) later
        ≢ ok []
  unfolding then_packets recipient_packet
  one_packet-ne key (err e) later h q = cc
  one_packet-ne key (ok none) later h q = cc
  one_packet-ne key (ok (some k)) later h q =
      first-ne (packet k.public_key key) later (h k.public_key) q
    where
      first-ne :
          (first later : Result Bytes)
          → first ≢ ok []
          → then_packets crypto packet rules now first later ≢ ok []
      first-ne (err e) later h q = cc
      first-ne (ok []) later h q = h refl
      first-ne (ok (x ∷ xs)) (err e) h q = cc
      first-ne (ok (x ∷ xs)) (ok ys) h q = cc

  some_packets :
      (key : EncryptedKey) (recipient : Entity) (to : List Entity)
      → ((p : PublicKeyPacket) → packet p key ≢ ok [])
      → key_packets crypto packet rules now key (recipient ∷ to) ≢ ok []
  unfolding key_packets
  some_packets key recipient to h = one_packet-ne key _ _ h

  reads :
      (decoder : String → Reader) (read_message : Reader → Result AttachmentDetails)
      (recipient : Entity) (to : List Entity) (att : Attachment) (key : EncryptedKey) (b : Bytes)
      (d : EncryptedData) (chunks : List Bytes)
      → Opening decoder read_message (recipient ∷ to)
      → key_packets crypto packet rules now key (recipient ∷ to) ≡ ok b
      → encrypt_payload crypto.stream_io crypto.config
          (record att { unencrypted_key = some key; key_packets = crypto.encode_to_string b })
          chunks
        ≡ ok d
      → read_attachment decoder read_message
          (record att { unencrypted_key = some key; key_packets = crypto.encode_to_string b })
          (record { bytes = crypto.render d; failure = none })
        ≡ ok (record {
          is_encrypted = true;
          is_signed = false;
          body = record { bytes = concat chunks; failure = none };
        })
  unfolding read_attachment encrypt_payload encrypt_attachment
  reads decoder read_message recipient to att key b d chunks o packed e =
      elim (Bool-cases (crypto.encode_to_string b == "")) [
        | inl empty ↦ absurd (
            some_packets key recipient to (λ q. o.has_bytes q key)
              (subst (λ l. key_packets crypto packet rules now key (recipient ∷ to) ≡ ok l)
                (o.encodes_text key b packed ((eq_iff (crypto.encode_to_string b) "").0 empty))
                packed))
        | inr full ↦
            rw (full, o.decodes key b packed)
              (o.opens key b (hints_of att) (concat chunks) d packed (
                seal-IsMessage crypto.stream_io crypto.config key none (some (hints_of att)) chunks
                  d (unfold seal in e)))
      ]

  -- An attachment whose key was generated for at least one recipient, and whose payload was then
  -- encrypted in chunks, is read back as the whole payload.
  pub read_attachment-encrypt_payload :
      (decoder : String → Reader) (read_message : Reader → Result AttachmentDetails)
      (recipient : Entity) (to : List Entity) (att att' : Attachment) (key : EncryptedKey)
      (chunks : List Bytes) (d : EncryptedData)
      → Opening decoder read_message (recipient ∷ to)
      → generate_key crypto packet rules now (recipient ∷ to) att ≡ (ok key, att')
      → encrypt_payload crypto.stream_io crypto.config att' chunks ≡ ok d
      → read_attachment decoder read_message att'
          (record { bytes = crypto.render d; failure = none })
        ≡ ok (record {
          is_encrypted = true;
          is_signed = false;
          body = record { bytes = concat chunks; failure = none };
        })
  read_attachment-encrypt_payload decoder read_message recipient to att att' key chunks d o g e =
      let (b, packed, made) = generate_key-Keyed (recipient ∷ to) att g in
      subst
        (λ a.
          read_attachment decoder read_message a
            (record { bytes = crypto.render d; failure = none })
          ≡ ok (record {
            is_encrypted = true;
            is_signed = false;
            body = record { bytes = concat chunks; failure = none };
          }))
        (sym made)
        (reads decoder read_message recipient to att key b d chunks o packed
          (subst (λ a. encrypt_payload crypto.stream_io crypto.config a chunks ≡ ok d) made e))
