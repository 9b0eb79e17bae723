-- ===== src/Import/Once.antt =====
-- Each message is one part of the body at most.
use protonmail_go.Prelude.{
  ℕ, ◌+◌, ◌≤◌, String, ◌≡◌, ◌≢◌, refl, subst, ◌∙◌, ap, sym, Bool, true, false, Option, none, some,
  List, [], ◌∷◌, ◌++◌, StringMap, lookup, insert, lookup-insert, if◌then◌else◌, arith, ◌==◌,
  eq_refl, eq_iff, count, one_if, Bool-cases, is_some, inl, inr,
}
use protonmail_go.Errors.{Error, other}
use protonmail_go.Result.{Result, ok, err, ok-injective}
use protonmail_go.Http.{Bytes}
use protonmail_go.Mail.{Message}
use protonmail_go.Import.{
  Importer, ImportIo, Part, message_part, import_message, import_at, began, import_batch, batch_at,
  with_metadata,
}

abbrev pub part_names : List Part → List String
part_names [] = []
part_names (p ∷ rest) = p.name ∷ part_names rest

-- The names of the parts after the metadata.
abbrev pub names : List Part → List String
names [] = []
names (p ∷ rest) = part_names rest

abbrev pub at_most : Option Bool → ℕ
at_most (some true) = 1
at_most _ = 0

-- The metadata comes first, and a key has one part at most, and only once it is uploaded.
abbrev pub IsOnce : Importer → Type 0
IsOnce imp =
    (imp.parts ≢ [])
    × ((key : String) → count key (names imp.parts) ≤ at_most (lookup key imp.uploaded))

-- An importer that can come about: a new one, or one after further messages.
pub data Reached (io : ImportIo) (metadata : StringMap Message) : Importer → Type 0 where
  fresh : (imp : Importer) → import_batch io metadata ≡ ok imp → Reached io metadata imp
  more :
      (imp : Importer) (key : String)
      → Reached io metadata imp
      → Reached io metadata (import_message io key imp).1

count-names :
    (key : String) (parts : List Part) (p : Part)
    → count key (part_names (parts ++ p ∷ []))
      ≡ count key (part_names parts) + one_if (p.name == key)
count-names key [] p = ground arith
count-names key (q ∷ parts) p = ground (arith, count-names key parts p)

-- A key that gets its first part may have one more from then on.
at_most-insert :
    (key k : String) (m : StringMap Bool)
    → lookup key m ≡ some false
    → at_most (lookup k (insert key true m)) ≡ at_most (lookup k m) + one_if (key == k)
at_most-insert key k m h = elim (Bool-cases (key == k)) [
  | inl e ↦
      let now : lookup k (insert key true m) ≡ some true =
        lookup-insert key k true m ∙ ap (λ c. if c then some true else lookup k m) e in
      let before : lookup k m ≡ some false = ap (λ j. lookup j m) (sym ((eq_iff key k).0 e)) ∙ h in
      rw (now, before, e) refl
  | inr e ↦
      let now : lookup k (insert key true m) ≡ lookup k m =
        lookup-insert key k true m ∙ ap (λ c. if c then some true else lookup k m) e in
      rw (now, e) (omega arith)
]

module _ (io : ImportIo) where
  began-IsOnce :
      (key : String) (parts : List Part) (m : StringMap Bool) (closed : Bool) (o : Option Error)
      → lookup key m ≡ some false
      → IsOnce (record { parts = parts; uploaded = m; closed = closed })
      → IsOnce
          (began io
            (record { parts = parts; uploaded = insert key true m; closed = closed })
            (message_part key)
            o).1
  unfolding began
  began-IsOnce key parts m closed (some e) h (ne, once) =
      (ne, λ k. let le = once k in let more = at_most-insert key k m h in omega arith)
  began-IsOnce key [] m closed none h (ne, once) = elim (ne refl) [ ]
  began-IsOnce key (p ∷ parts) m closed none h (ne, once) = (
    (λ e. cc),
    λ k.
        let le = once k in
        let more = at_most-insert key k m h in
        let grown = count-names k parts (message_part key) in omega arith,
  )

  import_at-IsOnce :
      (key : String) (imp : Importer) (o : Option Bool)
      → lookup key imp.uploaded ≡ o
      → IsOnce imp
      → IsOnce (import_at io key imp o).1
  unfolding import_at
  import_at-IsOnce key imp none h once = once
  import_at-IsOnce key imp (some true) h once = once
  import_at-IsOnce key imp (some false) h once =
      began-IsOnce key imp.parts imp.uploaded imp.closed (io.create_part imp.parts) h once

  with_metadata-IsOnce :
      (metadata : StringMap Message) (r : Result Bytes) (imp : Importer)
      → with_metadata io metadata r ≡ ok imp
      → IsOnce imp
  unfolding with_metadata
  with_metadata-IsOnce metadata (err x) imp e = elim (err≢ok e) [ ]
    where
      err≢ok : err x ≡ ok imp → ⊥
      err≢ok h = cc
  with_metadata-IsOnce metadata (ok b) imp e =
      subst IsOnce (ok-injective e) ((λ h. cc), λ k. omega arith)

  batch_at-IsOnce :
      (metadata : StringMap Message) (o : Option Error) (imp : Importer)
      → batch_at io metadata o ≡ ok imp
      → IsOnce imp
  unfolding batch_at
  batch_at-IsOnce metadata (some x) imp e = elim (err≢ok e) [ ]
    where
      err≢ok : err x ≡ ok imp → ⊥
      err≢ok h = cc
  batch_at-IsOnce metadata none imp e =
      with_metadata-IsOnce metadata (io.encode_metadata metadata) imp e

  -- In every importer that comes about, no message has two parts, and a message has a part only once
  -- it was imported, whatever calls failed.
  pub Reached-IsOnce :
      (metadata : StringMap Message) (imp : Importer) → Reached io metadata imp → IsOnce imp
  unfolding import_message import_batch
  Reached-IsOnce metadata _ (fresh imp e) = batch_at-IsOnce metadata (io.create_part []) imp e
  Reached-IsOnce metadata _ (more imp key r) =
      import_at-IsOnce key imp (lookup key imp.uploaded) refl (Reached-IsOnce metadata imp r)

  uploaded-import_at :
      (key : String) (imp : Importer) (o : Option Bool)
      → lookup key imp.uploaded ≡ o
      → is_some o ≡ true
      → lookup key (import_at io key imp o).1.uploaded ≡ some true
  unfolding import_at began
  uploaded-import_at key imp none h s = elim (differ s) [ ]
    where
      differ : false ≡ true → ⊥
      differ q = cc
  uploaded-import_at key imp (some true) h s = h
  uploaded-import_at key imp (some false) h s = began-uploaded (io.create_part imp.parts)
    where
      inserted : lookup key (insert key true imp.uploaded) ≡ some true
      inserted =
          lookup-insert key key true imp.uploaded
          ∙ ap (λ c. if c then some true else lookup key imp.uploaded) (eq_refl key)

      began-uploaded :
          (e : Option Error)
          → lookup key
              (began io
                (record imp { uploaded = insert key true imp.uploaded })
                (message_part key)
                e).1.uploaded
            ≡ some true
      began-uploaded none = inserted
      began-uploaded (some e) = inserted

  -- A message that was asked for once is refused from then on, and nothing changes.
  pub import_message-again :
      (key : String) (imp : Importer)
      → is_some (lookup key imp.uploaded) ≡ true
      → (let after = (import_message io key imp).1 in
          import_message io key after ≡ (err (other "protonmail: message already imported"), after))
  unfolding import_message import_at
  import_message-again key imp h =
      ap (import_at io key (import_at io key imp (lookup key imp.uploaded)).1)
        (uploaded-import_at key imp (lookup key imp.uploaded) refl h)
