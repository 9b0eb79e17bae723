-- ===== src/Packages/Tests.antt =====
-- Package sets filled with a toy OpenPGP, and the theorems about them there.
use protonmail_go.Prelude.{
  ◌≡◌, refl, none, some, List, [], ◌∷◌, StringMap, lookup, insert, IsMap, IsMap-insert, IsMap-empty,
  pos,
}
use protonmail_go.Errors.{panicked}
use protonmail_go.Result.{ok, err}
use protonmail_go.Http.{Bytes}
use protonmail_go.Mail.{EncryptedKey}
use protonmail_go.Samples.{entity, rules, quiet_io, default_packets}
use protonmail_go.KeySelection.{encryption_key, signing_key}
use protonmail_go.Packages.{
  MessagePackage, MessagePackageSet, with_package, PackageCrypto, new_message_package_set,
  add_cleartext, add_internal, set_bit, encrypt, generate_unencrypted_key, cipher_function_string,
  write_body, close_body,
}
use protonmail_go.Packages.Soundness.{IsSound, Adds, HasNoClear, add_cleartext-Adds}
use protonmail_go.Packages.Secrecy
use protonmail_go.Packages.Secrecy.{Call, add, start, after_all, IsSecret, calls-IsSecret}
use protonmail_go.Streams.{symetrically_encrypt, write, close}
use protonmail_go.Streams.Sealing.{concat}
use protonmail_go.Packages.KeyPackets.{Packs, add_internal-Packs}
use protonmail_go.Pgp.{Key}
use protonmail_go.Packages.Bodies.{encrypt_body, IsFilled, encrypt_body-IsFilled}

abbrev toy : PackageCrypto
toy = record {
  encode_to_string = λ b. "b64";
  read_random = λ n. ok (1 ∷ 2 ∷ []);
  serialize_encrypted_key = λ to k. ok "packet";
  stream_io = quiet_io;
  config = default_packets;
  render = λ d. d.header.key;
}

abbrev attachment : StringMap EncryptedKey
attachment = ("a", record { cipher_func = 9; key = 5 ∷ [] }) ∷ []

abbrev keyed : MessagePackageSet
keyed = record (new_message_package_set attachment) {
  session_key = some (record { cipher_func = 9; key = 1 ∷ [] });
}

both_types : (add_internal toy rules 9 "bob" entity (add_cleartext toy "ann" keyed).1).1.type ≡ 5
unfolding add_internal add_cleartext encryption_key set_bit insert
both_types = refl

-- Before Encrypt there is no session key to put in the clear.
unkeyed_panics :
    (add_cleartext toy "ann" (new_message_package_set attachment)).0
    ≡ err (panicked "AddCleartext: nil body key")
unfolding add_cleartext
unkeyed_panics = refl

attachment-IsMap : IsMap attachment
unfolding insert
attachment-IsMap =
    IsMap-insert "a" (record { cipher_func = 9; key = 5 ∷ [] }) [] (IsMap-empty EncryptedKey)

keyed-IsSound : IsSound toy keyed
unfolding lookup
keyed-IsSound = (attachment-IsMap, (λ b m e f. cc), (λ addr pkg e. cc))

add_cleartext-Adds_example : Adds toy (HasNoClear toy keyed) "ann" (add_cleartext toy "ann" keyed)
add_cleartext-Adds_example = add_cleartext-Adds toy "ann" keyed keyed-IsSound

abbrev cleartext : MessagePackage
cleartext = record {
  type = 4;
  body_key_packet = "";
  attachment_key_packets = none;
  signature = pos 0;
}

-- The keys in the clear beside a first package in the clear.
cleartext_runs : add_cleartext toy "ann" keyed ≡ (
  ok cleartext,
  record (with_package toy "ann" cleartext keyed) {
    body_key = some (record { algorithm = "aes256"; key = "b64" });
    attachment_keys = some (("a", record { algorithm = "aes256"; key = "b64" }) ∷ []);
  },
)
unfolding add_cleartext cipher_function_string insert
cleartext_runs = refl

abbrev calls : List Call
calls = start "text/plain" (some entity) ∷ add "bob" entity ∷ []

calls-IsSecret_example :
    IsSecret toy rules 9
      (Secrecy.AsksFor calls)
      (after_all toy rules 9 calls (new_message_package_set attachment))
calls-IsSecret_example = calls-IsSecret toy rules 9 attachment calls

abbrev text : List Bytes
text = (7 ∷ []) ∷ (8 ∷ 9 ∷ []) ∷ []

abbrev filled : MessagePackageSet
filled = record keyed {
  mime_type = "text/plain";
  session_key = some (record { cipher_func = 9; key = 1 ∷ 2 ∷ [] });
  signature = pos 1;
  body = "b64";
}

filled_runs : encrypt_body toy rules 9 "text/plain" (some entity) text keyed ≡ (none, filled)
unfolding encrypt_body encrypt generate_unencrypted_key signing_key symetrically_encrypt write_body
    write close_body close
filled_runs = refl

encrypt_body-IsFilled_example :
    IsFilled toy rules 9 "text/plain" (some entity) (concat text) keyed filled
encrypt_body-IsFilled_example =
    encrypt_body-IsFilled toy rules 9 "text/plain" (some entity) text keyed filled filled_runs

abbrev packed : MessagePackage
packed = record {
  type = 1;
  body_key_packet = "packet";
  attachment_key_packets = some (("a", "packet") ∷ []);
  signature = pos 0;
}

packed_runs :
    add_internal toy rules 9 "bob" entity keyed ≡ (ok packed, with_package toy "bob" packed keyed)
unfolding add_internal encryption_key insert
packed_runs = refl

add_internal-Packs_example :
    (enc : Key) × (encryption_key rules 9 entity ≡ ok (some enc))
    × Packs toy keyed enc packed
    × (with_package toy "bob" packed keyed ≡ with_package toy "bob" packed keyed)
add_internal-Packs_example =
    add_internal-Packs toy rules 9 "bob" entity keyed (with_package toy "bob" packed keyed) packed
      attachment-IsMap packed_runs
