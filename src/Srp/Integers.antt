-- ===== src/Srp/Integers.antt =====
-- itoa and atoi of srp.go: numbers as little-endian bytes of a fixed length.
pub mod RoundTrip
use protonmail_go.Prelude.{
  ℕ, zero, suc, ◌+◌, ◌-◌, ◌*◌, ◌/◌, ◌%◌, List, [], ◌∷◌, ◌++◌, length, replicate, leb, eqb,
  if◌then◌else◌,
}
use protonmail_go.Errors.{panicked}
use protonmail_go.Result.{Result, ok, err}
use protonmail_go.Http.{Bytes}
use protonmail_go.Srp.{reverse}

-- `big.Int.SetBytes`, from the value of the bytes before
unfoldable pub set_bytes : ℕ → Bytes → ℕ
set_bytes value [] = value
set_bytes value (b ∷ rest) = set_bytes (value * 256 + b) rest

big_endian : ℕ → ℕ → Bytes
big_endian zero n = []
big_endian (suc fuel) n =
    let high = big_endian fuel (n / 256) in if eqb n 0 then [] else high ++ (n % 256 ∷ [])

-- `big.Int.Bytes`: a number has no more bytes than it counts.
unfoldable pub int_bytes : ℕ → Bytes
unfolding big_endian
int_bytes n = big_endian n n

-- `append(b, make([]byte, size-len(b))...)`, which panics at a negative length
padded : ℕ → Bytes → Result Bytes
padded size b =
    if leb (length b) size
    then ok (b ++ replicate (size - length b) 0)
    else err (panicked "makeslice: len out of range")

unfoldable pub itoa : ℕ → ℕ → Result Bytes
unfolding int_bytes padded
itoa i l = padded (l / 8) (reverse (int_bytes i))

unfoldable pub atoi : Bytes → ℕ
unfolding set_bytes
atoi b = set_bytes 0 (reverse b)
