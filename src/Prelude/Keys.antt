-- ===== src/Prelude/Keys.antt =====
-- Texts counted in lists, and the keys of a map: each key of a map stands in it once.
use Prim.Native.Nat.{ℕ, suc}
use Prim.Native.String.{String}
use mathlib.Core.Path.{◌≡◌, refl}
use mathlib.Core.Bool.{Bool, true, false, ◌||◌}
use mathlib.Core.List.{List, [], ◌∷◌, ◌++◌}
use native.Mathlib.Omega.{arith}
use text.Mathlib.Text.{◌==◌}
use text.Mathlib.TextEquality.{eq_iff}
use protonmail_go.Prelude.Tests.{ltb, if◌then◌else◌, is_some}
use protonmail_go.Prelude.Maps.{StringMap, lookup, erase, insert, lookup-erase, keys}

abbrev pub contains : String → List String → Bool
contains k [] = false
contains k (x ∷ rest) = x == k || contains k rest

abbrev pub count : String → List String → ℕ
count k [] = 0
count k (x ∷ rest) = if x == k then suc (count k rest) else count k rest

abbrev pub one_if : Bool → ℕ
one_if true = 1
one_if false = 0

module _ {ℓ} {V : Type ℓ} where
  count-keys-erase :
      (gone k : String) (m : StringMap V)
      → count k (keys (erase gone m)) ≡ (if gone == k then 0 else count k (keys m))
  unfolding erase
  count-keys-erase gone k [] = ground arith
  count-keys-erase gone k (entry ∷ rest) =
      ground
        (arith, count-keys-erase gone k rest, eq_iff entry.0 gone, eq_iff entry.0 k, eq_iff gone k)

  -- Every key stands once, and is found.
  abbrev pub IsMap : StringMap V → Type 0
  IsMap m = (k : String) → count k (keys m) ≡ one_if (is_some (lookup k m))

  pub IsMap-erase : (gone : String) (m : StringMap V) → IsMap m → IsMap (erase gone m)
  IsMap-erase gone m h k = ground (arith, count-keys-erase gone k m, lookup-erase gone k m, h k)

  pub IsMap-insert : (new : String) (v : V) (m : StringMap V) → IsMap m → IsMap (insert new v m)
  unfolding insert lookup
  IsMap-insert new v m h k = ground (arith, count-keys-erase new k m, lookup-erase new k m, h k)

pub contains-append :
    (k : String) (xs ys : List String) → contains k (xs ++ ys) ≡ (contains k xs || contains k ys)
contains-append k [] ys = refl
contains-append k (x ∷ xs) ys = ground (arith, contains-append k xs ys)

pub IsMap-empty {ℓ} : (V : Type ℓ) → IsMap {V = V} []
unfolding lookup
IsMap-empty V k = refl

contains-eq : (k : String) (xs : List String) → contains k xs ≡ ltb 0 (count k xs)
contains-eq k [] = refl
contains-eq k (x ∷ xs) = ground (arith, contains-eq k xs)

-- A text that stands once or not at all.
pub contains-count :
    (k : String) (xs : List String) (b : Bool) → count k xs ≡ one_if b → contains k xs ≡ b
contains-count k xs b e = ground (arith, contains-eq k xs)
