-- ===== src/KeySelection.antt =====
-- The selection of keys in crypto.go.
pub mod Choice
pub mod Eligible
mod Tests
use protonmail_go.Prelude.{
  ℕ, Bool, true, ◌&&◌, ◌||◌, not, Option, none, some, List, [], ◌∷◌, ltb, eqb, if◌then◌else◌,
}
use protonmail_go.Errors.{panicked}
use protonmail_go.Result.{Result, ok, err}
use protonmail_go.Pgp.{Signature, Identity, Subkey, Entity, Key, KeyRules}

-- `ident.SelfSignature.IsPrimaryId != nil && *ident.SelfSignature.IsPrimaryId`
abbrev pub is_primary : Identity → Bool
is_primary i = elim i.self_signature.is_primary_id [ none ↦ Bool.false | some b ↦ b ]

-- The loop of primaryIdentity, given the first identity that it saw.
first_primary : Option Identity → List Identity → Option Identity
first_primary first [] = first
first_primary none (i ∷ rest) = if is_primary i then some i else first_primary (some i) rest
first_primary (some f) (i ∷ rest) = if is_primary i then some i else first_primary (some f) rest

unfoldable pub primary_identity : Entity → Option Identity
unfolding first_primary
primary_identity e = first_primary none e.identities

-- `entityToKey`; an identity that is nil is dereferenced.
unfoldable pub entity_to_key : Entity → Option Identity → Result Key
entity_to_key e none = err (panicked "entityToKey: nil identity")
entity_to_key e (some i) = ok (record {
  entity = e;
  public_key = e.primary_key;
  private_key = e.private_key;
  self_signature = i.self_signature;
  revocations = e.revocations;
})

unfoldable pub entity_primary_key : Entity → Result Key
unfolding entity_to_key primary_identity
entity_primary_key e = entity_to_key e (primary_identity e)

abbrev pub entity_subkey_to_key : Entity → Subkey → Key
entity_subkey_to_key e s = record {
  entity = e;
  public_key = s.public_key;
  private_key = s.private_key;
  self_signature = s.sig;
  revocations = s.revocations;
}

module _ (rules : KeyRules) (now : ℕ) where
  abbrev pub may_encrypt : Subkey → Bool
  may_encrypt s =
      s.sig.flags_valid
      && s.sig.flag_encrypt_communications
      && rules.can_encrypt s.public_key.pub_key_algo
      && not (rules.key_expired s.public_key s.sig now)

  abbrev pub may_sign : Subkey → Bool
  may_sign s =
      s.sig.flags_valid
      && s.sig.flag_sign
      && rules.can_sign s.public_key.pub_key_algo
      && not (rules.key_expired s.public_key s.sig now)

  -- The loop of encryptionKey: the candidate so far and its creation time.
  newest_subkey : Option Subkey → ℕ → List Subkey → Option Subkey
  newest_subkey candidate max_time [] = candidate
  newest_subkey candidate max_time (s ∷ rest) =
      if may_encrypt s && (eqb max_time 0 || ltb max_time s.sig.creation_time)
      then newest_subkey (some s) s.sig.creation_time rest
      else newest_subkey candidate max_time rest

  -- The loop of signingKey
  first_signing : List Subkey → Option Subkey
  first_signing [] = none
  first_signing (s ∷ rest) = if may_sign s then some s else first_signing rest

  -- The primary key's part of both functions: `none` is the `false` that they return.
  primary_if : (Signature → Bool) → Entity → Option Identity → Result (Option Key)
  primary_if allowed e none = err (panicked "nil identity")
  primary_if allowed e (some i) =
      if allowed i.self_signature
      then (elim (entity_to_key e (some i)) [ ok k ↦ ok (some k) | err x ↦ err x ])
      else ok none

  abbrev pub primary_encrypts : Entity → Signature → Bool
  primary_encrypts e sig =
      not sig.flags_valid
      || (sig.flag_encrypt_communications
          && rules.can_encrypt e.primary_key.pub_key_algo
          && not (rules.sig_expired sig now))

  abbrev pub primary_signs : Signature → Bool
  primary_signs sig = not sig.flags_valid || (sig.flag_sign && not (rules.sig_expired sig now))

  choose : Entity → Option Subkey → (Signature → Bool) → Result (Option Key)
  unfolding primary_if
  choose e (some s) allowed = ok (some (entity_subkey_to_key e s))
  choose e none allowed = primary_if allowed e (primary_identity e)

  unfoldable pub encryption_key : Entity → Result (Option Key)
  unfolding newest_subkey choose
  encryption_key e = choose e (newest_subkey none 0 e.subkeys) (primary_encrypts e)

  unfoldable pub signing_key : Entity → Result (Option Key)
  unfolding first_signing choose
  signing_key e = choose e (first_signing e.subkeys) primary_signs
