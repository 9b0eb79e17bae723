-- ===== src/Events/Decoding.antt =====
-- Which payload UnmarshalJSON fills for which action.
use protonmail_go.Prelude.{◌≡◌, ◌≢◌, ◌⊎◌, ◌↔◌, refl, none, pos, arith}
use protonmail_go.Http.{Bytes}
use protonmail_go.Result.{ok}
use protonmail_go.Events.{
  EventMessage, RawEventMessage, EventJson, event_create, event_update, event_update_flags,
  dispatch, unmarshal_json,
}

-- A fresh entry, as the decoder of an Event makes it.
abbrev pub fresh_event : EventMessage
fresh_event = record { id = ""; action = pos 0; created = none; updated = none }

module _ (json : EventJson) where
  dispatch-filled :
      (raw : RawEventMessage) (em : EventMessage)
      → em.action ≡ raw.action
      → em.created ≡ none
      → em.updated ≡ none
      → let out = (dispatch json raw em).0 in
        (out.id ≡ em.id)
        × (out.action ≡ raw.action)
        × ((out.created ≢ none) ↔ (raw.action ≡ event_create))
        × ((out.updated ≢ none) ↔ ((raw.action ≡ event_update) ⊎ (raw.action ≡ event_update_flags)))
  unfolding dispatch
  dispatch-filled raw em a c u = ground arith

  -- When an entry of the change stream decodes, Created is filled exactly for a create, and
  -- Updated exactly for an update or a flags update; the ID and the action are those of the entry.
  pub unmarshal_json-filled :
      (b : Bytes) (raw : RawEventMessage)
      → json.unmarshal_raw b ≡ ok raw
      → let out = (unmarshal_json json fresh_event b).0 in
        (out.id ≡ raw.id)
        × (out.action ≡ raw.action)
        × ((out.created ≢ none) ↔ (raw.action ≡ event_create))
        × ((out.updated ≢ none) ↔ ((raw.action ≡ event_update) ⊎ (raw.action ≡ event_update_flags)))
  unfolding unmarshal_json
  unmarshal_json-filled b raw e = rw (e, unmarshal_json) (dispatch-filled raw _ refl refl refl)
