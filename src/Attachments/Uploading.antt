-- ===== src/Attachments/Uploading.antt =====
-- What CreateAttachment sends.
use protonmail_go.Prelude.{
  ℕ, String, ◌≡◌, refl, subst, sym, Option, none, List, [], ◌∷◌, ◌++◌, ◌==◌, if-rule, Bool, true,
  false, some, ap, ◌∙◌, if◌then◌else◌,
}
use protonmail_go.Result.{Result}
use protonmail_go.Http.{Bytes, stream}
use protonmail_go.Client.{Config}
use protonmail_go.Mail.{Attachment}
use protonmail_go.Transport.{Net, Envelope, Wire}
use protonmail_go.Endpoint.{upload}
use protonmail_go.Endpoint.Requests.{IsAsked, Asks, upload-Asks}
use protonmail_go.Pipe.{Reader, reader, body_of}
use protonmail_go.Multipart.{FormPart, field, form_file, MultipartWriter, form_writes, later_writes}
use protonmail_go.Streams.Sealing.{concat}
use protonmail_go.Attachments.{attachment_form, create_attachment, reading}

abbrev pub content : List Reader → Bytes
content [] = []
content (r ∷ rest) = r.bytes ++ content rest

abbrev NoFailure : List Reader → Type 0
NoFailure [] = Unit
NoFailure (r ∷ rest) = (r.failure ≡ none) × NoFailure rest

body_of-eq : (rs : List Reader) → NoFailure rs → body_of rs ≡ reader (content rs)
body_of-eq [] n = refl
body_of-eq (r ∷ rest) (n, ns) = rw (n, body_of-eq rest ns) refl

module _ (mw : MultipartWriter) (decoder : String → Reader) where
  abbrev file_pieces : Attachment → Reader → List Bytes
  file_pieces att data_packet =
      mw.part_header false "KeyPackets" (some "KeyPackets.pgp")
      ∷ (decoder att.key_packets).bytes
      ∷ mw.part_header false "DataPacket" (some "DataPacket.pgp")
      ∷ data_packet.bytes
      ∷ mw.trailer
      ∷ []

  abbrev form_pieces : Bool → Attachment → Reader → List Bytes
  form_pieces without_id att data_packet =
      mw.part_header true "Filename" none
      ∷ mw.text_bytes att.name
      ∷ mw.part_header false "MessageID" none
      ∷ mw.text_bytes att.message_id
      ∷ mw.part_header false "MIMEType" none
      ∷ mw.text_bytes att.mime_type
      ∷ (if without_id
          then file_pieces att data_packet
          else mw.part_header false "ContentID" none
            ∷ mw.text_bytes att.content_id
            ∷ file_pieces att data_packet)

  -- The bytes of the form of an attachment, with a part for the content's ID unless it is empty.
  abbrev pub form_bytes : Attachment → Reader → Bytes
  form_bytes att data_packet = concat (form_pieces (att.content_id == "") att data_packet)

  abbrev files : Attachment → Reader → List FormPart
  files att data_packet =
      form_file "KeyPackets" "KeyPackets.pgp" (decoder att.key_packets)
      ∷ form_file "DataPacket" "DataPacket.pgp" data_packet
      ∷ []

  content-parts :
      (without_id : Bool) (att : Attachment) (data_packet : Reader)
      → content (
          form_writes mw (
            field "Filename" att.name
            ∷ field "MessageID" att.message_id
            ∷ field "MIMEType" att.mime_type
            ∷ ((if without_id then [] else field "ContentID" att.content_id ∷ [])
                ++ files att data_packet)))
        ≡ concat (form_pieces without_id att data_packet)
  content-parts true att data_packet = refl
  content-parts false att data_packet = refl

  -- The form that is written has exactly these bytes.
  content-form :
      (att : Attachment) (data_packet : Reader)
      → content (form_writes mw (attachment_form decoder att data_packet))
        ≡ form_bytes att data_packet
  content-form att data_packet = content-parts (att.content_id == "") att data_packet

  form-NoFailure :
      (att : Attachment) (data_packet : Reader)
      → (decoder att.key_packets).failure ≡ none
      → data_packet.failure ≡ none
      → NoFailure (form_writes mw (attachment_form decoder att data_packet))
  form-NoFailure att data_packet k d =
      let rest =
        if-rule (λ parts. NoFailure (later_writes mw (parts ++ files att data_packet)))
          (att.content_id == "") (λ _. (refl, (k, (refl, (d, (refl, tt))))))
          (λ _. (refl, (refl, (refl, (k, (refl, (d, (refl, tt)))))))) in
      (refl, (refl, (refl, (refl, (refl, (refl, rest))))))

  module _ {W : Type 0} (fuel : ℕ) (wire : Wire) (cfg : Config W)
      (decode : Bytes → Result (Envelope (Option Attachment))) where
    -- If the key packets decode and the data packet is read without an error, CreateAttachment sends
    -- nothing but POST requests to /attachments whose body is, byte for byte, the form of these parts
    -- in order: Filename, MessageID, MIMEType, ContentID unless it is empty, the file KeyPackets with
    -- the decoded key packets, and the file DataPacket with the data packet; and it closes every
    -- response body that it opens.
    pub create_attachment-Asks :
        (att : Attachment) (data_packet : Reader) (net : Net W)
        → (decoder att.key_packets).failure ≡ none
        → data_packet.failure ≡ none
        → Asks
            (IsAsked cfg "POST" "/attachments" (stream (form_bytes att data_packet) none))
            net
            (create_attachment fuel wire cfg mw decoder decode att data_packet net)
    unfolding create_attachment
    create_attachment-Asks att data_packet net k d =
        subst
          (λ body.
            Asks (IsAsked cfg "POST" "/attachments" (stream (form_bytes att data_packet) none)) net
              (upload fuel wire (reading fuel wire cfg body) "POST" "/attachments"
                mw.form_data_content_type body.bytes decode net))
          (sym (
            body_of-eq (form_writes mw (attachment_form decoder att data_packet))
              (form-NoFailure att data_packet k d)
            ∙ ap reader (content-form att data_packet)))
          (upload-Asks fuel wire cfg "POST" "/attachments" decode net mw.form_data_content_type
            (form_bytes att data_packet))
