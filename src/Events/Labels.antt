-- ===== src/Events/Labels.antt =====
-- What DiffLabelIDs and Patch do to a set of labels.
use protonmail_go.Prelude.{
  String, ◌≡◌, ◌⊎◌, inl, inr, refl, ◌&&◌, ◌||◌, not, Option, none, some, List, [], ◌∷◌, arith,
  lookup, erase, insert, lookup-erase, lookup-insert, keys, is_some, count, contains, one_if, IsMap,
  IsMap-empty, IsMap-erase, IsMap-insert, contains-count, eq_iff, if◌then◌else◌,
}
use protonmail_go.Mail.{Message}
use protonmail_go.Events.{
  EventMessageUpdate, LabelSet, add_labels, build_labels_set, delete_labels, missing_from,
  diff_label_ids, diff_full, diff_shapes, apply_delta, patch_labels, patch,
}

lookup-add_labels :
    (k : String) (ls : List String) (set : LabelSet)
    → is_some (lookup k (add_labels ls set)) ≡ (contains k ls || is_some (lookup k set))
unfolding add_labels
lookup-add_labels k [] set = refl
lookup-add_labels k (l ∷ ls) set =
    ground (arith, lookup-add_labels k ls (insert l tt set), lookup-insert l k tt set)

lookup-delete_labels :
    (k : String) (ls : List String) (set : LabelSet)
    → is_some (lookup k (delete_labels ls set)) ≡ (is_some (lookup k set) && not (contains k ls))
unfolding delete_labels
lookup-delete_labels k [] set = ground arith
lookup-delete_labels k (l ∷ ls) set =
    ground (arith, lookup-delete_labels k ls (erase l set), lookup-erase l k set)

IsMap-add_labels : (ls : List String) (set : LabelSet) → IsMap set → IsMap (add_labels ls set)
unfolding add_labels
IsMap-add_labels [] set h = h
IsMap-add_labels (l ∷ ls) set h = IsMap-add_labels ls _ (IsMap-insert l tt set h)

IsMap-delete_labels : (ls : List String) (set : LabelSet) → IsMap set → IsMap (delete_labels ls set)
unfolding delete_labels
IsMap-delete_labels [] set h = h
IsMap-delete_labels (l ∷ ls) set h = IsMap-delete_labels ls _ (IsMap-erase l set h)

lookup-build_labels_set :
    (k : String) (ls : List String) → is_some (lookup k (build_labels_set ls)) ≡ contains k ls
unfolding build_labels_set lookup
lookup-build_labels_set k ls = ground (arith, lookup-add_labels k ls [])

IsMap-build_labels_set : (ls : List String) → IsMap (build_labels_set ls)
unfolding build_labels_set
IsMap-build_labels_set ls = IsMap-add_labels ls [] (IsMap-empty (Unit {0}))

count-missing_from :
    (k : String) (other : LabelSet) (ls : List String)
    → count k (missing_from other ls) ≡ (if is_some (lookup k other) then 0 else count k ls)
unfolding missing_from
count-missing_from k other [] = ground arith
count-missing_from k other (l ∷ ls) = ground (arith, count-missing_from k other ls, eq_iff l k)

module _ (visit : List String → List String) where
  -- `range` visits every key, and visits it once.
  abbrev pub IsVisit : Type 0
  IsVisit = (xs : List String) (k : String) → count k (visit xs) ≡ count k xs

  -- Not both halves of a delta are there.
  abbrev pub NoDelta : Option (List String) → Option (List String) → Type 0
  NoDelta added removed = (added ≡ none) ⊎ (removed ≡ none)

  visited-missing :
      IsVisit
      → (k : String) (xs ys : List String)
      → count k (missing_from (build_labels_set xs) (visit (keys (build_labels_set ys))))
        ≡ one_if (contains k ys && not (contains k xs))
  visited-missing v k xs ys = ground (
    arith,
    count-missing_from k (build_labels_set xs) (visit (keys (build_labels_set ys))),
    v (keys (build_labels_set ys)) k,
    IsMap-build_labels_set ys k,
    lookup-build_labels_set k xs,
    lookup-build_labels_set k ys,
  )

  diff_shapes-NoDelta :
      (labels added removed : Option (List String)) (current : List String)
      → NoDelta added removed
      → diff_shapes visit labels added removed current ≡ diff_full visit labels current
  unfolding diff_shapes
  diff_shapes-NoDelta labels none removed current h = refl
  diff_shapes-NoDelta labels (some a) none current h = refl
  diff_shapes-NoDelta labels (some a) (some r) current h = ground arith

  diff_shapes-whole :
      (labels : Option (List String)) (added removed current : List String)
      → diff_shapes visit labels (some added) (some removed) current ≡ (added, removed)
  unfolding diff_shapes
  diff_shapes-whole labels added removed current = refl

  apply_delta-NoDelta :
      (added removed : Option (List String)) (current : List String)
      → NoDelta added removed
      → apply_delta visit added removed current ≡ current
  unfolding apply_delta
  apply_delta-NoDelta none removed current h = refl
  apply_delta-NoDelta (some a) none current h = refl
  apply_delta-NoDelta (some a) (some r) current h = ground arith

  count-apply_delta :
      IsVisit
      → (added removed current : List String) (k : String)
      → count k (apply_delta visit (some added) (some removed) current)
        ≡ one_if ((contains k added || contains k current) && not (contains k removed))
  unfolding apply_delta
  count-apply_delta v added removed current k =
      let set = add_labels added (build_labels_set current) in
      ground (
        arith,
        v (keys (delete_labels removed set)) k,
        IsMap-delete_labels removed set (IsMap-add_labels added _ (IsMap-build_labels_set current))
            k,
        lookup-delete_labels k removed set,
        lookup-add_labels k added (build_labels_set current),
        lookup-build_labels_set k current,
      )

  -- For an update that carries a full list and not both halves of a delta, DiffLabelIDs reports as
  -- added, each once, exactly the labels of the list that `current` lacks, and as removed, each
  -- once, exactly the labels of `current` that the list lacks.
  pub diff_label_ids-exact :
      IsVisit
      → (update : EventMessageUpdate) (labels current : List String)
      → update.label_ids ≡ some labels
      → NoDelta update.label_ids_added update.label_ids_removed
      → (k : String)
      → (count k (diff_label_ids visit update current).0
          ≡ one_if (contains k labels && not (contains k current)))
        × (count k (diff_label_ids visit update current).1
            ≡ one_if (contains k current && not (contains k labels)))
  unfolding diff_label_ids diff_full
  diff_label_ids-exact v update labels current e h k =
      rw (diff_shapes-NoDelta update.label_ids _ _ current h, e)
        (visited-missing v k current labels, visited-missing v k labels current)

  -- An update that carries a delta and no full list leaves on the message, each once, exactly the
  -- labels that it had or that were added, less those that were removed.
  pub patch-delta :
      IsVisit
      → (update : EventMessageUpdate) (added removed : List String) (msg : Message)
      → update.label_ids ≡ none
      → update.label_ids_added ≡ some added
      → update.label_ids_removed ≡ some removed
      → (k : String)
      → count k (patch visit update msg).label_ids
        ≡ one_if ((contains k added || contains k msg.label_ids) && not (contains k removed))
  unfolding patch patch_labels
  patch-delta v update added removed msg n a r k =
      rw (n, a, r) (count-apply_delta v added removed msg.label_ids k)

  -- An update without a full list that carries not both halves of a delta changes no label of a
  -- message, and DiffLabelIDs reports no change for it.
  pub patch-half_delta :
      (update : EventMessageUpdate) (msg : Message)
      → update.label_ids ≡ none
      → NoDelta update.label_ids_added update.label_ids_removed
      → ((patch visit update msg).label_ids ≡ msg.label_ids)
        × (diff_label_ids visit update msg.label_ids ≡ ([], []))
  unfolding patch patch_labels diff_label_ids diff_full
  patch-half_delta update msg n h =
      rw n
        (apply_delta-NoDelta _ _ msg.label_ids h, rw (diff_shapes-NoDelta none _ _ msg.label_ids h))

  shapes-agree :
      IsVisit
      → (labels added removed : Option (List String)) (current : List String) (k : String)
      → (labels ≡ none) ⊎ NoDelta added removed
      → contains k (patch_labels visit labels added removed current) ≡ (
          (contains k (diff_shapes visit labels added removed current).0 || contains k current)
          && not (contains k (diff_shapes visit labels added removed current).1))
  unfolding patch_labels diff_full
  shapes-agree v none (some a) (some r) current k shape =
      rw (diff_shapes-whole none a r current)
        (contains-count k _ _ (count-apply_delta v a r current k))
  shapes-agree v none none removed current k shape =
      rw
        (
          apply_delta-NoDelta none removed current (inl refl),
          diff_shapes-NoDelta none none removed current (inl refl),
        )
        (ground arith)
  shapes-agree v none (some a) none current k shape =
      rw
        (
          apply_delta-NoDelta (some a) none current (inr refl),
          diff_shapes-NoDelta none (some a) none current (inr refl),
        )
        (ground arith)
  shapes-agree v (some labels) added removed current k (inl e) = cc
  shapes-agree v (some labels) added removed current k (inr h) =
      rw (diff_shapes-NoDelta (some labels) added removed current h) (
        ground (
          arith,
          contains-count k _ _ (visited-missing v k current labels),
          contains-count k _ _ (visited-missing v k labels current),
        ))

  -- DiffLabelIDs and Patch agree on every update that does not carry both a full list and a whole
  -- delta: the patched message has exactly the labels that it had or that are reported as added,
  -- less those that are reported as removed.
  pub patch-agrees-diff_label_ids :
      IsVisit
      → (update : EventMessageUpdate) (msg : Message)
      → (update.label_ids ≡ none) ⊎ NoDelta update.label_ids_added update.label_ids_removed
      → (k : String)
      → contains k (patch visit update msg).label_ids ≡ (
          (contains k (diff_label_ids visit update msg.label_ids).0 || contains k msg.label_ids)
          && not (contains k (diff_label_ids visit update msg.label_ids).1))
  unfolding patch diff_label_ids
  patch-agrees-diff_label_ids v update msg shape k =
      shapes-agree v update.label_ids update.label_ids_added update.label_ids_removed msg.label_ids
        k shape
