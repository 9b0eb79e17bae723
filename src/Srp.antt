-- ===== src/Srp.antt =====
-- srp.go: byte strings that are reversed in place.
pub mod Reversal
pub mod Powers
pub mod Agreement
pub mod Integers
pub mod Handshake
mod Tests
use protonmail_go.Prelude.{ℕ, zero, suc, ◌+◌, ◌-◌, ◌/◌, List, [], ◌∷◌, length}
use protonmail_go.Http.{Bytes}

-- `b[i]` at an index in range
unfoldable pub byte_at : Bytes → ℕ → ℕ
byte_at [] i = 0
byte_at (x ∷ xs) zero = x
byte_at (x ∷ xs) (suc i) = byte_at xs i

-- `b[i] = v` at an index in range
unfoldable pub set_at : ℕ → ℕ → Bytes → Bytes
set_at i v [] = []
set_at zero v (x ∷ xs) = v ∷ xs
set_at (suc i) v (x ∷ xs) = x ∷ set_at i v xs

-- `b[i], b[j] = b[j], b[i]`
unfoldable pub swap : ℕ → ℕ → Bytes → Bytes
unfolding byte_at set_at
swap i j b = set_at j (byte_at b i) (set_at i (byte_at b j) b)

-- The loop of reverse from the index `i` on, for the number of rounds that are left.
unfoldable pub reverse_from : ℕ → ℕ → Bytes → Bytes
unfolding swap
reverse_from zero i b = b
reverse_from (suc rounds) i b = reverse_from rounds (suc i) (swap i (length b - 1 - i) b)

unfoldable pub reverse : Bytes → Bytes
unfolding reverse_from
reverse b = reverse_from (length b / 2) 0 b
