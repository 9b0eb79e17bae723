-- ===== src/Events.antt =====
-- events.go: the change stream, its label arithmetic and the decoding of its entries.
pub mod Labels
pub mod Decoding
mod Tests
use protonmail_go.Prelude.{
  String, Bool, true, false, Option, none, some, List, [], ◌∷◌, ℤ, pos, StringMap, lookup, erase,
  insert, keys, is_some, eqb_ℤ, ◌||◌, if◌then◌else◌,
}
use protonmail_go.Errors.{Error}
use protonmail_go.Http.{Bytes}
use protonmail_go.Mail.{Message, zero_message}
use protonmail_go.Result.{Result, ok, err}

-- Fields that may be absent, and lists that may be nil, are options.
pub record EventMessageUpdate : Type 0 where
  pub unread : Option ℤ
  pub type : Option ℤ
  pub time : ℤ
  pub is_replied : Option ℤ
  pub is_replied_all : Option ℤ
  pub is_forwarded : Option ℤ
  pub label_ids : Option (List String)
  pub label_ids_added : Option (List String)
  pub label_ids_removed : Option (List String)

abbrev pub zero_update : EventMessageUpdate
zero_update = record {
  unread = none;
  type = none;
  time = pos 0;
  is_replied = none;
  is_replied_all = none;
  is_forwarded = none;
  label_ids = none;
  label_ids_added = none;
  label_ids_removed = none;
}

abbrev pub LabelSet : Type 0
LabelSet = StringMap (Unit {0})

unfoldable pub add_labels : List String → LabelSet → LabelSet
add_labels [] set = set
add_labels (l ∷ rest) set = add_labels rest (insert l tt set)

unfoldable pub build_labels_set : List String → LabelSet
unfolding add_labels
build_labels_set labels = add_labels labels []

unfoldable pub delete_labels : List String → LabelSet → LabelSet
delete_labels [] set = set
delete_labels (l ∷ rest) set = delete_labels rest (erase l set)

-- The labels that `other` lacks, in the order given.
unfoldable pub missing_from : LabelSet → List String → List String
missing_from other [] = []
missing_from other (l ∷ rest) = elim (is_some (lookup l other)) [
  | true ↦ missing_from other rest
  | false ↦ l ∷ missing_from other rest
]

-- `range` over a map visits the keys in an order of its own: `visit` is that order.
module _ (visit : List String → List String) where
  diff_full : Option (List String) → List String → List String × List String
  diff_full none current = ([], [])
  diff_full (some labels) current = (
    missing_from (build_labels_set current) (visit (keys (build_labels_set labels))),
    missing_from (build_labels_set labels) (visit (keys (build_labels_set current))),
  )

  diff_shapes :
      Option (List String)
      → Option (List String)
      → Option (List String)
      → List String
      → List String × List String
  unfolding diff_full
  diff_shapes labels (some added) (some removed) current = (added, removed)
  diff_shapes labels none removed current = diff_full labels current
  diff_shapes labels (some added) none current = diff_full labels current

  -- `(*EventMessageUpdate).DiffLabelIDs`: the labels added and removed
  unfoldable pub diff_label_ids : EventMessageUpdate → List String → List String × List String
  unfolding diff_shapes missing_from build_labels_set
  diff_label_ids update current =
      diff_shapes update.label_ids update.label_ids_added update.label_ids_removed current

  apply_delta : Option (List String) → Option (List String) → List String → List String
  apply_delta (some added) (some removed) current =
      visit (keys (delete_labels removed (add_labels added (build_labels_set current))))
  apply_delta none removed current = current
  apply_delta (some added) none current = current

  patch_labels :
      Option (List String) → Option (List String) → Option (List String) → List String → List String
  unfolding apply_delta build_labels_set delete_labels
  patch_labels (some labels) added removed current = labels
  patch_labels none added removed current = apply_delta added removed current

  abbrev pub or_old : Option ℤ → ℤ → ℤ
  or_old none old = old
  or_old (some new) old = new

  -- `(*EventMessageUpdate).Patch`
  unfoldable pub patch : EventMessageUpdate → Message → Message
  unfolding patch_labels
  patch update msg = record msg {
    time = update.time;
    unread = or_old update.unread msg.unread;
    type = or_old update.type msg.type;
    is_replied = or_old update.is_replied msg.is_replied;
    is_replied_all = or_old update.is_replied_all msg.is_replied_all;
    is_forwarded = or_old update.is_forwarded msg.is_forwarded;
    label_ids =
        patch_labels update.label_ids update.label_ids_added update.label_ids_removed msg.label_ids;
  }

abbrev pub event_delete : ℤ
event_delete = pos 0

abbrev pub event_create : ℤ
event_create = pos 1

abbrev pub event_update : ℤ
event_update = pos 2

abbrev pub event_update_flags : ℤ
event_update_flags = pos 3

pub record EventMessage : Type 0 where
  pub id : String
  pub action : ℤ
  pub created : Option Message
  pub updated : Option EventMessageUpdate

pub record RawEventMessage : Type 0 where
  pub id : String
  pub action : ℤ
  pub message : Bytes

-- `json.Unmarshal` at the three types that UnmarshalJSON asks for: what it leaves in the target,
-- and its error.
pub record EventJson : Type 0 where
  pub unmarshal_raw : Bytes → Result RawEventMessage
  pub unmarshal_message : Bytes → Message → Message × Option Error
  pub unmarshal_update : Bytes → EventMessageUpdate → EventMessageUpdate × Option Error

fill_created : EventMessage → Message × Option Error → EventMessage × Option Error
fill_created em (m, e) = (record em { created = some m }, e)

fill_updated : EventMessage → EventMessageUpdate × Option Error → EventMessage × Option Error
fill_updated em (u, e) = (record em { updated = some u }, e)

dispatch : EventJson → RawEventMessage → EventMessage → EventMessage × Option Error
unfolding fill_created fill_updated
dispatch json raw em =
    if eqb_ℤ raw.action event_create
    then fill_created em (json.unmarshal_message raw.message zero_message)
    else if eqb_ℤ raw.action event_update || eqb_ℤ raw.action event_update_flags
    then fill_updated em (json.unmarshal_update raw.message zero_update)
    else (em, none)

-- `(*EventMessage).UnmarshalJSON`
unfoldable pub unmarshal_json : EventJson → EventMessage → Bytes → EventMessage × Option Error
unfolding dispatch
unmarshal_json json em b = elim (json.unmarshal_raw b) [
  | err e ↦ (em, some e)
  | ok raw ↦ dispatch json raw (record em { id = raw.id; action = raw.action })
]
