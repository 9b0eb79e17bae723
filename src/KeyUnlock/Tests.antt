-- ===== src/KeyUnlock/Tests.antt =====
-- The key ring of two keys, one of them inactive, and the theorem about it.
use protonmail_go.Prelude.{◌≡◌, ◌↔◌, refl, none, [], ◌∷◌, pos, ℤ, lookup}
use protonmail_go.Result.{ok}
use protonmail_go.Samples.{entity}
use protonmail_go.Password.{Hashes}
use protonmail_go.Account.{PrivateKey, private_key_entity}
use protonmail_go.KeySelection.Choice.{Among}
use protonmail_go.KeyUnlock.{UnlockPgp, unlock_keys, unlock_private_key, unlock_entity}
use protonmail_go.KeyUnlock.Ring.{Source, unlock_keys-Source}

abbrev hashes : Hashes
hashes = record { bcrypt = λ password salt. ok []; sha512 = λ b. b }

abbrev pgp : UnlockPgp
pgp = record {
  read_key_ring = λ text. ok (entity ∷ []);
  decrypt = λ priv pass. ok priv;
  decode_armor = λ text. ok [];
  read_message = λ ring b. ok b;
  check_signature = λ ring b sig. none;
}

abbrev key_of : ℤ → PrivateKey
key_of active = record {
  id = "k";
  version = pos 3;
  flags = pos 0;
  private_key = "armored";
  fingerprint = "f";
  primary = pos 1;
  active = active;
  token = "";
  signature = "";
}

ring_runs :
    unlock_keys hashes pgp [] [] (1 ∷ []) (key_of (pos 0) ∷ key_of (pos 1) ∷ []) ≡ (entity ∷ [], [])
unfolding unlock_keys unlock_private_key private_key_entity lookup unlock_entity
ring_runs = refl

unlock_keys-Source_example :
    Among entity (unlock_keys hashes pgp [] [] (1 ∷ []) (key_of (pos 0) ∷ key_of (pos 1) ∷ [])).0
    ↔ Source hashes pgp [] [] (1 ∷ []) entity (key_of (pos 0) ∷ key_of (pos 1) ∷ [])
unlock_keys-Source_example =
    unlock_keys-Source hashes pgp [] [] (1 ∷ []) entity (key_of (pos 0) ∷ key_of (pos 1) ∷ [])
