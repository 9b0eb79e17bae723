-- ===== src/Import/Tests.antt =====
-- A batch of one message, and the theorems about it.
use protonmail_go.Prelude.{
  ◌≡◌, refl, Bool, true, none, some, [], ◌∷◌, StringMap, lookup, insert, erase, String, List,
  is_some,
}
use protonmail_go.Errors.{sentinel, Sentinel, other}
use protonmail_go.Result.{ok, err}
use protonmail_go.Http.{Bytes}
use protonmail_go.Mail.{Message, zero_message}
use protonmail_go.Samples.{plain, net_at, wire, decodes}
use protonmail_go.Import.{
  Importer, ImportIo, commit, import_batch, import_message, metadata_part, message_part,
}
use protonmail_go.Import.Commits.{Commits, commit-Commits}
use protonmail_go.Import.Answers.{first_part, part_of, answers, import_all, import_all-eq-answers}
use protonmail_go.Import.Once.{IsOnce, fresh, more, Reached-IsOnce}

abbrev io : ImportIo
io = record {
  create_part = λ parts. none;
  end_body = λ parts. none;
  content_type = "multipart/form-data";
  render = λ parts. [];
  encode_metadata = λ m. ok [];
  decode_responses = decodes [];
}

abbrev metadata : StringMap Message
metadata = ("a", zero_message) ∷ []

abbrev open_importer : Importer
open_importer = record {
  parts = metadata_part [] ∷ [];
  uploaded = ("a", Bool.false) ∷ [];
  closed = Bool.false;
}

abbrev done_importer : Importer
done_importer = record {
  parts = metadata_part [] ∷ message_part "a" ∷ [];
  uploaded = ("a", true) ∷ [];
  closed = Bool.false;
}

commit-Commits_example :
    Commits io 1 wire plain done_importer (commit io 1 wire plain done_importer (net_at 200))
commit-Commits_example = commit-Commits io 1 wire plain done_importer (net_at 200)

abbrev closed_importer : Importer
closed_importer = record done_importer { closed = true }

closed_runs :
    commit io 1 wire plain closed_importer (net_at 200)
    ≡ some (err (sentinel Sentinel.importer_closed), closed_importer, net_at 200)
unfolding commit
closed_runs = refl

begun : import_batch io metadata ≡ ok open_importer
unfolding import_batch
begun = refl

Reached-IsOnce_example : IsOnce (import_message io "a" open_importer).1
Reached-IsOnce_example =
    Reached-IsOnce io metadata (import_message io "a" open_importer).1
      (more open_importer "a" (fresh open_importer begun))

imported : is_some (lookup "a" open_importer.uploaded) ≡ true
unfolding lookup
imported = refl

abbrev two : StringMap Message
two = ("a", zero_message) ∷ ("b", zero_message) ∷ []

abbrev two_importer : Importer
two_importer = record {
  parts = metadata_part [] ∷ [];
  uploaded = ("a", Bool.false) ∷ ("b", Bool.false) ∷ [];
  closed = Bool.false;
}

two_begun : import_batch io two ≡ ok two_importer
unfolding import_batch
two_begun = refl

-- A key that is not in the metadata, and one that is asked for twice.
abbrev asked : List String
asked = "b" ∷ "x" ∷ "b" ∷ "a" ∷ []

asked_runs : import_all io asked two_importer ≡ (
  ok tt
      ∷ err (other "protonmail: unknown import message")
      ∷ err (other "protonmail: message already imported")
      ∷ ok tt
      ∷ [],
  first_part [] ∷ part_of "b" ∷ part_of "a" ∷ [],
)
unfolding import_message lookup insert erase
asked_runs = refl

import_all-eq-answers_example :
    (b : Bytes) × (io.encode_metadata two ≡ ok b)
    × (import_all io asked two_importer ≡ answers io ("a" ∷ "b" ∷ []) [] (first_part b ∷ []) asked)
import_all-eq-answers_example = import_all-eq-answers io two two_importer asked two_begun
