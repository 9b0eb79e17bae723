-- ===== src/KeySelection/Tests.antt =====
-- The keys chosen of an entity, and the theorems about them there.
use protonmail_go.Prelude.{◌≡◌, refl, some}
use protonmail_go.Result.{ok}
use protonmail_go.Samples.{entity, rules, subkey_at}
use protonmail_go.KeySelection.{encryption_key, signing_key, entity_subkey_to_key}
use protonmail_go.KeySelection.Eligible.{Selects, encryption_key-Selects}

newest_runs : encryption_key rules 9 entity ≡ ok (some (entity_subkey_to_key entity (subkey_at 5)))
unfolding encryption_key
newest_runs = refl

first_runs : signing_key rules 9 entity ≡ ok (some (entity_subkey_to_key entity (subkey_at 3)))
unfolding signing_key
first_runs = refl

encryption_key-Selects_example : Selects rules 9 entity (encryption_key rules 9 entity)
encryption_key-Selects_example = encryption_key-Selects rules 9 entity
