-- ===== src/KeyUnlock/Ring.antt =====
-- Which keys a key ring has.
use protonmail_go.Prelude.{
  ◌≡◌, refl, ap, ◌∙◌, sym, Bool, true, false, not, Option, List, [], ◌∷◌, pos, eqb_ℤ, StringMap,
  inl, inr, ◌↔◌, if-rule,
}
use protonmail_go.Result.{Result, ok, err, ok-injective}
use protonmail_go.Http.{Bytes}
use protonmail_go.Pgp.{Entity}
use protonmail_go.Password.{Hashes}
use protonmail_go.Account.{PrivateKey}
use protonmail_go.KeySelection.Choice.{Among}
use protonmail_go.KeyUnlock.{UnlockPgp, KeyWarning, unlock, unlock_keys, keep}

module _ (hashes : Hashes) (pgp : UnlockPgp) (user_key_ring : List Entity)
    (salts : StringMap (Option Bytes)) (pass : Bytes) where
  -- The key is active, and unlocks to the entity.
  abbrev pub Gives : Entity → PrivateKey → Type 0
  Gives entity key =
      (eqb_ℤ key.active (pos 1) ≡ true)
      × (unlock hashes pgp user_key_ring salts pass key ≡ ok entity)

  abbrev pub Source : Entity → List PrivateKey → Type 0
  Source entity keys = (key : PrivateKey) × Among key keys × Gives entity key

  Source-later :
      (entity : Entity) (key : PrivateKey) (rest : List PrivateKey)
      → Source entity rest
      → Source entity (key ∷ rest)
  Source-later entity key rest (k, among, g) = (k, inr among, g)

  keep-Source :
      (entity : Entity) (key : PrivateKey) (rest : List PrivateKey) (r : Result Entity)
      (later : List Entity × List KeyWarning)
      → eqb_ℤ key.active (pos 1) ≡ true
      → unlock hashes pgp user_key_ring salts pass key ≡ r
      → Among entity later.0 ↔ Source entity rest
      → Among entity (keep hashes pgp user_key_ring salts pass key r later).0
        ↔ Source entity (key ∷ rest)
  unfolding keep
  keep-Source entity key rest (err x) (ring, warnings) active e ih = (
    λ h. Source-later entity key rest (ih.0 h),
    λ (k, among, (a, u)). elim among [
      | inl same ↦
          elim (err≢ok (sym e ∙ ap (unlock hashes pgp user_key_ring salts pass) (sym same) ∙ u)) [ ]
      | inr later ↦ ih.1 (k, later, (a, u))
    ],
  )
    where
      err≢ok : err x ≡ ok entity → ⊥
      err≢ok h = cc
  keep-Source entity key rest (ok made) (ring, warnings) active e ih = (
    λ h. elim h [
      | inl same ↦ (key, inl refl, (active, e ∙ ap ok (sym same)))
      | inr later ↦ Source-later entity key rest (ih.0 later)
    ],
    λ (k, among, (a, u)). elim among [
      | inl same ↦
          inl (ok-injective (sym u ∙ ap (unlock hashes pgp user_key_ring salts pass) same ∙ e))
      | inr later ↦ inr (ih.1 (k, later, (a, u)))
    ],
  )

  skip-Source :
      (entity : Entity) (key : PrivateKey) (rest : List PrivateKey) (ring : List Entity)
      → eqb_ℤ key.active (pos 1) ≡ false
      → Among entity ring ↔ Source entity rest
      → Among entity ring ↔ Source entity (key ∷ rest)
  skip-Source entity key rest ring idle ih = (
    λ h. Source-later entity key rest (ih.0 h),
    λ (k, among, (a, u)). elim among [
      | inl same ↦
          elim (true≢false
            (sym a ∙ ap (λ (x : PrivateKey). eqb_ℤ x.active (pos 1)) same ∙ idle)) [ ]
      | inr later ↦ ih.1 (k, later, (a, u))
    ],
  )
    where
      true≢false : true ≡ false → ⊥
      true≢false h = cc

  -- An entity is in the ring of keys exactly if some key among them is active and unlocks to it.
  pub unlock_keys-Source :
      (entity : Entity) (keys : List PrivateKey)
      → Among entity (unlock_keys hashes pgp user_key_ring salts pass keys).0 ↔ Source entity keys
  unfolding unlock_keys
  unlock_keys-Source entity [] = ((λ h. elim h [ ]), λ (k, among, g). elim among [ ])
  unlock_keys-Source entity (key ∷ rest) =
      if-rule (λ (x : List Entity × List KeyWarning). Among entity x.0 ↔ Source entity (key ∷ rest))
        (not (eqb_ℤ key.active (pos 1)))
        (λ idle. skip-Source entity key rest _ (unnot _ true idle) (unlock_keys-Source entity rest))
        (λ active.
          keep-Source entity key rest (unlock hashes pgp user_key_ring salts pass key)
            (unlock_keys hashes pgp user_key_ring salts pass rest) (unnot _ false active) refl
            (unlock_keys-Source entity rest))
    where
      unnot : (a b : Bool) → not a ≡ b → a ≡ not b
      unnot true b h = ap not h
      unnot false b h = ap not h
