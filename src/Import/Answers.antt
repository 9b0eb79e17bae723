-- ===== src/Import/Answers.antt =====
-- ImportMessage against a description that keeps the keys asked for in place of a map of flags.
use Prim.Native.String.{◌++◌ as append}
use protonmail_go.Prelude.{
  String, ◌≡◌, refl, ◌∙◌, sym, ap, subst, Bool, true, false, not, Option, none, some, List, [], ◌∷◌,
  ◌++◌, StringMap, lookup, insert, lookup-insert, keys, contains, Bool-cases, inl, inr,
  if◌then◌else◌, arith, ◌==◌, eq_iff, eq_refl,
}
use protonmail_go.Errors.{Error, other}
use protonmail_go.Result.{Result, ok, err, ok-injective}
use protonmail_go.Http.{Bytes}
use protonmail_go.Mail.{Message}
use protonmail_go.Import.{
  Importer, ImportIo, Part, import_message, import_at, began, import_batch, batch_at, with_metadata,
  not_uploaded,
}

-- The part of a batch's metadata, and that of a message.
abbrev pub first_part : Bytes → Part
first_part b = record {
  name = "Metadata";
  filename = none;
  content_type = "application/json";
  content = b;
}

abbrev pub part_of : String → Part
part_of key = record {
  name = key;
  filename = some (append key ".eml");
  content_type = "message/rfc822";
  content = [];
}

-- What is known of a key: whether it stands in the metadata, and then whether it was asked for.
abbrev flag : List String → List String → String → Option Bool
flag names asked key = if contains key names then some (contains key asked) else none

lookup-not_uploaded :
    (key : String) (metadata : StringMap Message)
    → lookup key (not_uploaded metadata) ≡ flag (keys metadata) [] key
unfolding lookup
lookup-not_uploaded key [] = refl
lookup-not_uploaded key ((k, m) ∷ rest) = ground (arith, lookup-not_uploaded key rest)

module _ (io : ImportIo) where
  abbrev begin_part : String → List Part → Option Error → Result (Unit {0}) × List Part
  begin_part key parts (some e) = (err e, parts)
  begin_part key parts none = (ok tt, parts ++ part_of key ∷ [])

  -- The answer to one call, by the keys of the metadata, the keys asked for so far, and the parts.
  abbrev answer : List String → List String → List Part → String → Result (Unit {0}) × List Part
  answer names asked parts key =
      if not (contains key names)
      then (err (other "protonmail: unknown import message"), parts)
      else if contains key asked
      then (err (other "protonmail: message already imported"), parts)
      else begin_part key parts (io.create_part parts)

  -- The answers to calls one after another, and the parts at the end.
  abbrev pub answers :
      List String → List String → List Part → List String → List (Result (Unit {0})) × List Part
  answers names asked parts [] = ([], parts)
  answers names asked parts (key ∷ rest) =
      let (r, parts') = answer names asked parts key in
      let (rs, last) = answers names (key ∷ asked) parts' rest in (r ∷ rs, last)

  -- What ImportMessage returns for keys one after another, and the parts that it leaves.
  abbrev pub import_all : List String → Importer → List (Result (Unit {0})) × List Part
  import_all [] imp = ([], imp.parts)
  import_all (key ∷ rest) imp =
      let (r, imp') = import_message io key imp in
      let (rs, last) = import_all rest imp' in (r ∷ rs, last)

  abbrev Tracks : List String → List String → Importer → Type 0
  Tracks names asked imp = (key : String) → lookup key imp.uploaded ≡ flag names asked key

  -- A call answers as described, and the flags go on to tell what was asked for.
  abbrev Follows :
      List String → List String → List Part → String → Result (Unit {0}) × Importer → Type 0
  Follows names asked parts key (r, imp) =
      ((r, imp.parts) ≡ answer names asked parts key) × Tracks names (key ∷ asked) imp

  -- Another flag than that of the key.
  other_flag :
      (names asked : List String) (key k : String)
      → key == k ≡ false
      → flag names asked k ≡ flag names (key ∷ asked) k
  other_flag names asked key k e = rw e refl

  same_flag :
      (names asked : List String) (key k : String)
      → flag names asked key ≡ flag names (key ∷ asked) key
      → flag names asked k ≡ flag names (key ∷ asked) k
  same_flag names asked key k h = elim (Bool-cases (key == k)) [
    | inl e ↦ subst (λ j. flag names asked j ≡ flag names (key ∷ asked) j) ((eq_iff key k).0 e) h
    | inr e ↦ other_flag names asked key k e
  ]

  new_flag :
      (names asked : List String) (key k : String) (m : StringMap Bool)
      → contains key names ≡ true
      → lookup k m ≡ flag names asked k
      → lookup k (insert key true m) ≡ flag names (key ∷ asked) k
  new_flag names asked key k m n t = elim (Bool-cases (key == k)) [
    | inl e ↦
        subst (λ j. lookup j (insert key true m) ≡ flag names (key ∷ asked) j) ((eq_iff key k).0 e)
          (rw (lookup-insert, eq_refl, n) refl)
    | inr e ↦ rw (lookup-insert, e) t
  ]

  began-Follows :
      (names asked : List String) (key : String) (imp : Importer) (e : Option Error)
      → contains key names ≡ true
      → contains key asked ≡ false
      → io.create_part imp.parts ≡ e
      → Tracks names asked imp
      → Follows names asked imp.parts key
          (began io (record imp { uploaded = insert key true imp.uploaded }) (part_of key) e)
  unfolding began
  began-Follows names asked key imp (some e) n a c t =
      (rw (n, a, c) refl, λ k. new_flag names asked key k imp.uploaded n (t k))
  began-Follows names asked key imp none n a c t =
      (rw (n, a, c) refl, λ k. new_flag names asked key k imp.uploaded n (t k))

  import_at-Follows :
      (names asked : List String) (key : String) (imp : Importer) (n a : Bool)
      → contains key names ≡ n
      → contains key asked ≡ a
      → Tracks names asked imp
      → Follows names asked imp.parts key (import_at io key imp (if n then some a else none))
  unfolding import_at
  import_at-Follows names asked key imp false a n h t =
      (rw n refl, λ k. t k ∙ same_flag names asked key k (rw n refl))
  import_at-Follows names asked key imp true true n h t =
      (rw (n, h) refl, λ k. t k ∙ same_flag names asked key k (rw (n, h, eq_refl) refl))
  import_at-Follows names asked key imp true false n h t =
      began-Follows names asked key imp (io.create_part imp.parts) n h refl t

  import_message-Follows :
      (names asked : List String) (key : String) (imp : Importer)
      → Tracks names asked imp
      → Follows names asked imp.parts key (import_message io key imp)
  unfolding import_message
  import_message-Follows names asked key imp t =
      subst (λ o. Follows names asked imp.parts key (import_at io key imp o)) (sym (t key))
        (import_at-Follows names asked key imp (contains key names) (contains key asked) refl refl
          t)

  tracked-eq-answers :
      (names asked : List String) (ks : List String) (imp : Importer)
      → Tracks names asked imp
      → import_all ks imp ≡ answers names asked imp.parts ks
  tracked-eq-answers names asked [] imp t = refl
  tracked-eq-answers names asked (key ∷ rest) imp t =
      let (same, t') = import_message-Follows names asked key imp t in
      let later = tracked-eq-answers names (key ∷ asked) rest (import_message io key imp).1 t' in
      ap (λ (x : List (Result (Unit {0})) × List Part). ((import_message io key imp).0 ∷ x.0, x.1))
        later
      ∙ ap
          (λ (x : Result (Unit {0}) × List Part). (
            x.0 ∷ (answers names (key ∷ asked) x.1 rest).0,
            (answers names (key ∷ asked) x.1 rest).1,
          ))
          same

  -- What Import leaves.
  abbrev Begins : StringMap Message → Importer → Type 0
  Begins metadata imp =
      (b : Bytes) × (io.encode_metadata metadata ≡ ok b)
      × (imp.parts ≡ first_part b ∷ [])
      × Tracks (keys metadata) [] imp

  with_metadata-Begins :
      (metadata : StringMap Message) (r : Result Bytes) (imp : Importer)
      → io.encode_metadata metadata ≡ r
      → with_metadata io metadata r ≡ ok imp
      → Begins metadata imp
  unfolding with_metadata
  with_metadata-Begins metadata (err x) imp h e = absurd (ground arith)
  with_metadata-Begins metadata (ok b) imp h e =
      subst (Begins metadata) (ok-injective e) (b, h, refl, λ key. lookup-not_uploaded key metadata)

  batch_at-Begins :
      (metadata : StringMap Message) (o : Option Error) (imp : Importer)
      → batch_at io metadata o ≡ ok imp
      → Begins metadata imp
  unfolding batch_at
  batch_at-Begins metadata (some x) imp e = absurd (ground arith)
  batch_at-Begins metadata none imp e =
      with_metadata-Begins metadata (io.encode_metadata metadata) imp refl e

  -- After Import, whatever keys ImportMessage is called with, and whichever CreatePart calls fail: a call
  -- with a key that is not in the metadata returns the error for an unknown key, a call with a key that
  -- was asked for before, even if no part came of it, returns the error for a repeated one, and any
  -- other returns what CreatePart returns. The parts of the body are, in order, "Metadata" with the
  -- encoded metadata as application/json, and for each call that returned no error one with the key as
  -- its name, the key and ".eml" as its file name, and message/rfc822 as its type, and no others.
  pub import_all-eq-answers :
      (metadata : StringMap Message) (imp : Importer) (asked : List String)
      → import_batch io metadata ≡ ok imp
      → (b : Bytes) × (io.encode_metadata metadata ≡ ok b)
        × (import_all asked imp ≡ answers (keys metadata) [] (first_part b ∷ []) asked)
  unfolding import_batch
  import_all-eq-answers metadata imp asked e =
      let (b, encoded, first, t) = batch_at-Begins metadata (io.create_part []) imp e in
      (
        b,
        encoded,
        tracked-eq-answers (keys metadata) [] asked imp t
            ∙ ap (λ ps. answers (keys metadata) [] ps asked) first,
      )
