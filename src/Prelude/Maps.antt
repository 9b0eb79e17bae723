-- ===== src/Prelude/Maps.antt =====
-- Go's maps with text keys, as association lists; the order of the entries is the insertion order.
use Prim.Native.String.{String}
use mathlib.Core.Bool.{true, false}
use mathlib.Core.Path.{◌≡◌}
use mathlib.Core.Option.{Option, none, some}
use mathlib.Core.List.{List, [], ◌∷◌, map}
use native.Mathlib.Omega.{arith}
use text.Mathlib.Text.{◌==◌}
use text.Mathlib.TextEquality.{eq_iff}
use protonmail_go.Prelude.Tests.{if◌then◌else◌}

abbrev pub StringMap {ℓ} : Type ℓ → Type ℓ
StringMap V = List (String × V)

module _ {ℓ} {V : Type ℓ} where
  -- `v, ok := m[key]`
  unfoldable pub lookup : String → StringMap V → Option V
  lookup key [] = none
  lookup key (entry ∷ rest) = elim (entry.0 == key) [
    | true ↦ some entry.1
    | false ↦ lookup key rest
  ]

  -- `delete(m, key)`
  unfoldable pub erase : String → StringMap V → StringMap V
  erase key [] = []
  erase key (entry ∷ rest) = elim (entry.0 == key) [
    | true ↦ erase key rest
    | false ↦ entry ∷ erase key rest
  ]

  -- `m[key] = value`
  unfoldable pub insert : String → V → StringMap V → StringMap V
  unfolding erase
  insert key value m = (key, value) ∷ erase key m

  pub lookup-erase :
      (gone key : String) (m : StringMap V)
      → lookup key (erase gone m) ≡ (if gone == key then none else lookup key m)
  unfolding lookup erase
  lookup-erase gone key [] = ground arith
  lookup-erase gone key (entry ∷ rest) =
      ground (
        arith,
        lookup-erase gone key rest,
        eq_iff entry.0 gone,
        eq_iff entry.0 key,
        eq_iff gone key,
      )

  pub lookup-insert :
      (new key : String) (value : V) (m : StringMap V)
      → lookup key (insert new value m) ≡ (if new == key then some value else lookup key m)
  unfolding lookup insert
  lookup-insert new key value m = ground (arith, lookup-erase new key m)

  abbrev pub keys : StringMap V → List String
  keys m = map (λ e. e.0) m
