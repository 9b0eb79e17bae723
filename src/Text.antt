-- ===== src/Text.antt =====
-- The functions of Go's strings and strconv packages that the client calls.
use Prim.Native.Char.{Char, code}
use Prim.Native.String.{[], ◌∷◌, ◌++◌ as append}
use mathlib.Core.List.{List, [], ◌∷◌}
use protonmail_go.Prelude.{
  ℕ, zero, suc, ◌+◌, ◌/◌, ◌%◌, ltb, ℤ, pos, negsuc, String, ◌≢◌, Bool, true, false, ◌&&◌, eqb,
  eqb_iff, leb, if◌then◌else◌, Bool-cases, inl, inr, get_elem?, none, some,
}

is_empty : String → Bool
is_empty [] = true
is_empty (c ∷ s) = false

-- `strings.TrimRight(s, "/")`
unfoldable pub trim_right_slashes : String → String
unfolding is_empty
trim_right_slashes [] = []
trim_right_slashes (c ∷ s) =
    let rest = trim_right_slashes s in if eqb (code c) b'/' && is_empty rest then [] else c ∷ rest

-- The folding of `strings.EqualFold` against a text of lower case ASCII letters: A to Z, the long s
-- and the Kelvin sign.
unfoldable pub fold_char : ℕ → ℕ
fold_char c =
    if leb b'A' c && leb c b'Z'
    then c + 32
    else if eqb c 0x17f
    then b's'
    else if eqb c 0x212a
    then b'k'
    else c

unfoldable pub equal_fold : String → String → Bool
unfolding fold_char
equal_fold [] [] = true
equal_fold [] (d ∷ t) = false
equal_fold (c ∷ s) [] = false
equal_fold (c ∷ s) (d ∷ t) = eqb (fold_char (code c)) (code d) && equal_fold s t

-- Some character stands last, and it is no slash; or the text is empty.
abbrev pub EndsClean : String → Type 0
EndsClean [] = Unit
EndsClean (c ∷ []) = code c ≢ b'/'
EndsClean (c ∷ d ∷ s) = EndsClean (d ∷ s)

EndsClean-cons :
    (c : Char) (rest : String)
    → EndsClean rest
    → EndsClean (if eqb (code c) b'/' && is_empty rest then [] else c ∷ rest)
unfolding is_empty
EndsClean-cons c [] h = elim (Bool-cases (eqb (code c) b'/')) [
  | inl e ↦ rw e tt
  | inr e ↦ rw e (λ q. cc (e, (eqb_iff (code c) b'/').1 q))
]
EndsClean-cons c (d ∷ s) h = elim (Bool-cases (eqb (code c) b'/')) [
  | inl e ↦ rw e h
  | inr e ↦ rw e h
]

-- The trimmed text does not end in a slash.
pub trim_right_slashes-EndsClean : (s : String) → EndsClean (trim_right_slashes s)
unfolding trim_right_slashes
trim_right_slashes-EndsClean [] = tt
trim_right_slashes-EndsClean (c ∷ s) =
    EndsClean-cons c (trim_right_slashes s) (trim_right_slashes-EndsClean s)

abbrev digits : List String
digits = "0" ∷ "1" ∷ "2" ∷ "3" ∷ "4" ∷ "5" ∷ "6" ∷ "7" ∷ "8" ∷ "9" ∷ []

digit : ℕ → String
digit n = elim (get_elem? digits n) [ none ↦ "" | some d ↦ d ]

decimal : ℕ → ℕ → String
unfolding digit
decimal zero n = ""
decimal (suc fuel) n =
    let higher = decimal fuel (n / 10) in
    if ltb n 10 then digit n else append higher (digit (n % 10))

-- `strconv.Itoa` and `strconv.FormatInt(_, 10)`; a number has no more digits than its successor
-- counts.
unfoldable pub itoa : ℤ → String
unfolding decimal
itoa (pos n) = decimal (suc n) n
itoa (negsuc n) = append "-" (decimal (suc (suc n)) (suc n))
