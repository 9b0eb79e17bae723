-- ===== src/Import.antt =====
-- import.go: a batch of messages that is streamed to the server as one multipart body. The goroutine
-- that sends the body runs when the body ends, which `commit` brings about.
pub mod Once
pub mod Commits
pub mod Answers
mod Tests
use Prim.Native.String.{◌++◌ as append}
use protonmail_go.Prelude.{
  ℕ, String, Bool, true, false, Option, none, some, List, [], ◌∷◌, ◌++◌, StringMap, lookup, insert,
  ◌&&◌, ◌==◌, is_some, if◌then◌else◌,
}
use mathlib.Core.Option
use protonmail_go.Errors.{Error, other, wrapped, sentinel, Sentinel}
use protonmail_go.Result.{Result, ok, err}
use protonmail_go.Http.{Bytes}
use protonmail_go.Client.{Config}
use protonmail_go.Mail.{Message}
use protonmail_go.Transport.{Act, Net, Envelope, envelope_err, Wire, continue}
use protonmail_go.Endpoint.{upload}

pub record ImportMessageResult : Type 0 where
  pub error : Option Error
  pub message_id : String

abbrev pub ImportResult : Type 0
ImportResult = StringMap ImportMessageResult

-- `(ImportResult).Err`, in the order of one iteration over the map
unfoldable pub import_err : ImportResult → Option Error
import_err [] = none
import_err ((name, r) ∷ rest) = elim r.error [ some e ↦ some e | none ↦ import_err rest ]

-- A part of the body: its disposition's name and file name, its content type and what the importer
-- itself writes to it. What a caller writes to the writer of a message's part goes to mime/multipart
-- alone, and is left to the argument `render`.
pub record Part : Type 0 where
  pub name : String
  pub filename : Option String
  pub content_type : String
  pub content : Bytes

-- `Importer`; the pipe and the multipart writer are the parts written.
pub record Importer : Type 0 where
  pub parts : List Part
  pub uploaded : StringMap Bool
  pub closed : Bool

-- One entry of the server's response: its name, and the envelope of its outcome.
pub record MessageResp : Type 0 where
  pub name : String
  pub response : Envelope String

-- What the importer asks of mime/multipart, io.Pipe and encoding/json: whether a part can be begun and
-- the body ended after the parts so far, the content type and the bytes of a body, and the codecs.
pub record ImportIo : Type 0 where
  pub create_part : List Part → Option Error
  pub end_body : List Part → Option Error
  pub content_type : String
  pub render : List Part → Bytes
  pub encode_metadata : StringMap Message → Result Bytes
  pub decode_responses : Bytes → Result (Envelope (List MessageResp))

abbrev pub metadata_part : Bytes → Part
metadata_part b = record {
  name = "Metadata";
  filename = none;
  content_type = "application/json";
  content = b;
}

abbrev pub message_part : String → Part
message_part key = record {
  name = key;
  filename = some (append key ".eml");
  content_type = "message/rfc822";
  content = [];
}

-- `map[string]bool` with every key of the metadata at `false`
abbrev pub not_uploaded : StringMap Message → StringMap Bool
not_uploaded [] = []
not_uploaded ((key, m) ∷ rest) = (key, false) ∷ not_uploaded rest

-- The outcomes by name; a later one of a name replaces an earlier one.
abbrev pub result_map : List MessageResp → ImportResult → ImportResult
result_map [] res = res
result_map (r ∷ rest) res = result_map rest (
    insert r.name (record { error = envelope_err r.response; message_id = r.response.payload }) res)

module _ (io : ImportIo) where
  began : Importer → Part → Option Error → Result (Unit {0}) × Importer
  began imp part (some e) = (err e, imp)
  began imp part none = (ok tt, record imp { parts = imp.parts ++ part ∷ [] })

  import_at : String → Importer → Option Bool → Result (Unit {0}) × Importer
  unfolding began
  import_at key imp none = (err (other "protonmail: unknown import message"), imp)
  import_at key imp (some true) = (err (other "protonmail: message already imported"), imp)
  import_at key imp (some false) =
      began (record imp { uploaded = insert key true imp.uploaded }) (message_part key)
        (io.create_part imp.parts)

  -- `(*Importer).ImportMessage`
  unfoldable pub import_message : String → Importer → Result (Unit {0}) × Importer
  unfolding import_at
  import_message key imp = import_at key imp (lookup key imp.uploaded)

  with_metadata : StringMap Message → Result Bytes → Result Importer
  with_metadata metadata (err e) = err e
  with_metadata metadata (ok b) =
      ok (record { parts = metadata_part b ∷ []; uploaded = not_uploaded metadata; closed = false })

  batch_at : StringMap Message → Option Error → Result Importer
  unfolding with_metadata
  batch_at metadata (some e) = err e
  batch_at metadata none = with_metadata metadata (io.encode_metadata metadata)

  -- `(*Client).Import`
  unfoldable pub import_batch : StringMap Message → Result Importer
  unfolding batch_at
  import_batch metadata = batch_at metadata (io.create_part [])

  -- `(*Importer).close`, with the importer that it leaves
  unfoldable pub close_importer : Importer → Option Error × Importer
  close_importer imp =
      if imp.closed
      then (some (sentinel Sentinel.importer_closed), imp)
      else (io.end_body imp.parts, record imp { closed = true })

  -- A key that was not imported, if there is one.
  abbrev pub missing_key : StringMap Bool → Option String
  missing_key [] = none
  missing_key ((key, true) ∷ rest) = missing_key rest
  missing_key ((key, false) ∷ rest) = some key

  module _ {W : Type 0} (fuel : ℕ) (wire : Wire) (cfg : Config W) where
    -- What the goroutine does with the body: the request is sent, and the outcomes are collected.
    unfoldable pub send_batch : List Part → Act W ImportResult
    send_batch parts net =
        continue
          (upload fuel wire cfg "POST" "/import" io.content_type (io.render parts)
            io.decode_responses net)
          (λ responses m. some (ok (result_map responses []), m))

    -- The check of the keys, and then the wait.
    judge : Option String → Result ImportResult → Result ImportResult
    judge (some key) r = err (other "protonmail: message has not been imported")
    judge none r = r

    judged :
        Importer
        → Option (Result ImportResult × Net W)
        → Option (Result ImportResult × Importer × Net W)
    unfolding judge
    judged imp none = none
    judged imp (some (r, net)) = some (judge (missing_key imp.uploaded) r, imp, net)

    commit_closed :
        Net W → Option Error × Importer → Option (Result ImportResult × Importer × Net W)
    unfolding judged send_batch
    commit_closed net (some e, imp) = some (err e, imp, net)
    commit_closed net (none, imp) = judged imp (send_batch imp.parts net)

    -- `(*Importer).Commit`: once the body has ended, the request runs to its end, whether or not a key
    -- is missing.
    unfoldable pub commit : Importer → Net W → Option (Result ImportResult × Importer × Net W)
    unfolding close_importer commit_closed
    commit imp net = commit_closed net (close_importer imp)
