-- ===== src/Packages/Bits.antt =====
-- The bits of a package type.
use protonmail_go.Prelude.{ℕ, ◌≡◌, true, arith}
use protonmail_go.Packages.{has_bit, set_bit}

pub has_bit-set_internal : (mask : ℕ) → has_bit 1 (set_bit 1 mask) ≡ true
unfolding set_bit
has_bit-set_internal mask = ground arith

pub has_bit-set_cleartext : (mask : ℕ) → has_bit 4 (set_bit 4 mask) ≡ true
unfolding set_bit
has_bit-set_cleartext mask = ground arith

pub internal-set_cleartext : (mask : ℕ) → has_bit 1 (set_bit 4 mask) ≡ has_bit 1 mask
unfolding set_bit
internal-set_cleartext mask = ground arith

pub cleartext-set_internal : (mask : ℕ) → has_bit 4 (set_bit 1 mask) ≡ has_bit 4 mask
unfolding set_bit
cleartext-set_internal mask = ground arith
