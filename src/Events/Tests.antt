-- ===== src/Events/Tests.antt =====
-- Runs of DiffLabelIDs, Patch and UnmarshalJSON, and the theorems about them at these inputs.
use protonmail_go.Prelude.{
  String, ◌≡◌, inl, inr, refl, none, some, List, [], ◌∷◌, pos, lookup, insert, count, contains,
  ◌&&◌, ◌||◌, not,
}
use protonmail_go.Errors.{other}
use protonmail_go.Mail.{Message, zero_message}
use protonmail_go.Result.{ok}
use protonmail_go.Events.{
  EventMessageUpdate, EventJson, zero_update, diff_label_ids, patch, event_update_flags,
}
use protonmail_go.Events.Labels.{
  IsVisit, diff_label_ids-exact, patch-delta, patch-agrees-diff_label_ids,
}

abbrev in_order : List String → List String
in_order xs = xs

in_order-IsVisit : IsVisit in_order
in_order-IsVisit xs k = refl

abbrev full : EventMessageUpdate
full = record zero_update { label_ids = some ("0" ∷ "5" ∷ []) }

abbrev delta : EventMessageUpdate
delta = record zero_update {
  time = pos 9;
  unread = some (pos 0);
  label_ids_added = some ("3" ∷ []);
  label_ids_removed = some ("0" ∷ []);
}

abbrev half : EventMessageUpdate
half = record zero_update { label_ids_added = some ("3" ∷ []) }

abbrev inbox : Message
inbox = record zero_message { unread = pos 1; label_ids = "0" ∷ "10" ∷ [] }

full_runs : diff_label_ids in_order full ("0" ∷ "10" ∷ []) ≡ ("5" ∷ [], "10" ∷ [])
unfolding diff_label_ids lookup insert
full_runs = refl

delta_runs : (patch in_order delta inbox).label_ids ≡ "3" ∷ "10" ∷ []
unfolding patch lookup insert
delta_runs = refl

diff_label_ids-exact_example :
    (count "5" (diff_label_ids in_order full ("0" ∷ "10" ∷ [])).0 ≡ 1)
    × (count "5" (diff_label_ids in_order full ("0" ∷ "10" ∷ [])).1 ≡ 0)
diff_label_ids-exact_example =
    diff_label_ids-exact in_order in_order-IsVisit full ("0" ∷ "5" ∷ []) ("0" ∷ "10" ∷ []) refl
      (inl refl) "5"

patch-delta_example : count "0" (patch in_order delta inbox).label_ids ≡ 0
patch-delta_example =
    patch-delta in_order in_order-IsVisit delta ("3" ∷ []) ("0" ∷ []) inbox refl refl refl "0"

patch-agrees-diff_label_ids_example : contains "5" (patch in_order full inbox).label_ids ≡ (
    (contains "5" (diff_label_ids in_order full inbox.label_ids).0 || contains "5" inbox.label_ids)
    && not (contains "5" (diff_label_ids in_order full inbox.label_ids).1))
patch-agrees-diff_label_ids_example =
    patch-agrees-diff_label_ids in_order in_order-IsVisit full inbox (inr (inl refl)) "5"

abbrev json : EventJson
json = record {
  unmarshal_raw = λ b. ok (record { id = "m"; action = event_update_flags; message = b });
  unmarshal_message = λ b m. (m, some (other "no message"));
  unmarshal_update = λ b u. (record u { time = pos 4 }, none);
}
