-- ===== src/Multipart.antt =====
-- The multipart bodies of mime/multipart that attachments.go streams: the writes of a form, one after
-- another, to the pipe.
use protonmail_go.Prelude.{String, Bool, true, false, Option, none, some, List, [], ◌∷◌, ◌++◌}
use protonmail_go.Http.{Bytes}
use protonmail_go.Pipe.{Reader, reader}

-- `mw.WriteField`, or `mw.CreateFormFile` and the copying of a source.
pub data FormPart : Type 0 where
  field : String → String → FormPart
  form_file : String → String → Reader → FormPart

-- What a multipart.Writer with its boundary writes: the boundary and the headers of a part, by whether
-- it is the first, its name and its file name; a text's bytes; and the end of the body.
pub record MultipartWriter : Type 0 where
  pub part_header : Bool → String → Option String → Bytes
  pub text_bytes : String → Bytes
  pub trailer : Bytes
  pub form_data_content_type : String

abbrev pub part_writes : MultipartWriter → Bool → FormPart → List Reader
part_writes mw first (field name value) =
    reader (mw.part_header first name none) ∷ reader (mw.text_bytes value) ∷ []
part_writes mw first (form_file name filename source) =
    reader (mw.part_header first name (some filename)) ∷ source ∷ []

-- The writes of a form's parts, and of `mw.Close`.
abbrev pub later_writes : MultipartWriter → List FormPart → List Reader
later_writes mw [] = reader mw.trailer ∷ []
later_writes mw (part ∷ rest) = part_writes mw false part ++ later_writes mw rest

abbrev pub form_writes : MultipartWriter → List FormPart → List Reader
form_writes mw [] = reader mw.trailer ∷ []
form_writes mw (part ∷ rest) = part_writes mw true part ++ later_writes mw rest
