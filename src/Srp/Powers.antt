-- ===== src/Srp/Powers.antt =====
-- Powers of natural numbers, and their remainders.
use protonmail_go.Prelude.{ℕ, zero, suc, ◌+◌, ◌*◌, ◌%◌, ◌/◌, ◌^◌, ◌≡◌, sym, ap, ◌∙◌, arith}
use native.Mathlib.Nat.{
  pow-zero, pow-suc, mul_assoc, mul_comm, mul-one, one-mul, add-zero, add-suc, mul-zero, mul-suc,
  div-add-mod, mod-add-div, add-mul-mod_self_left, add-mul,
}

pub mod-mul : (x y n : ℕ) → (x % n) * y % n ≡ x * y % n
mod-mul x y n =
    sym (add-mul-mod_self_left ((x % n) * y) n (x / n * y))
    ∙ ap (λ (k : ℕ). k % n) (split (x % n) (x / n))
    ∙ ap (λ (k : ℕ). k * y % n) (mod-add-div x n)
  where
    split : (r q : ℕ) → r * y + n * (q * y) ≡ (r + n * q) * y
    split r q = rw (add-mul, mul_assoc)

pub mul-mod : (x y n : ℕ) → x * (y % n) % n ≡ x * y % n
mul-mod x y n = rw (mul_comm x (y % n), mul_comm x y) (mod-mul y x n)

pub pow-add : (x a b : ℕ) → x ^ (a + b) ≡ x ^ a * x ^ b
pow-add x a zero = rw (add-zero, pow-zero, mul-one)
pow-add x a (suc b) = rw (add-suc, pow-suc, pow-suc, pow-add x a b, mul_assoc)

pub pow-mul : (x a b : ℕ) → x ^ (a * b) ≡ (x ^ a) ^ b
pow-mul x a zero = rw (mul-zero, pow-zero, pow-zero)
pow-mul x a (suc b) = rw (mul-suc, pow-suc, pow-add, pow-mul x a b)

pub mul_pow : (x y n : ℕ) → (x * y) ^ n ≡ x ^ n * y ^ n
mul_pow x y zero = rw (pow-zero, pow-zero, pow-zero)
mul_pow x y (suc n) = rw (pow-suc, pow-suc, pow-suc, mul_pow x y n) (regroup (x ^ n) (y ^ n))
  where
    regroup : (p q : ℕ) → p * q * (x * y) ≡ p * x * (q * y)
    regroup p q = grind arith

-- The remainder of a power is that of the remainder's power.
pub mod-pow : (x k n : ℕ) → (x % n) ^ k % n ≡ x ^ k % n
mod-pow x zero n = rw (pow-zero, pow-zero)
mod-pow x (suc k) n =
    rw (pow-suc, pow-suc)
      (mul-mod ((x % n) ^ k) x n
        ∙ sym (mod-mul ((x % n) ^ k) x n)
        ∙ ap (λ (p : ℕ). p * x % n) (mod-pow x k n)
        ∙ mod-mul (x ^ k) x n)

pub one_pow : (n : ℕ) → 1 ^ n ≡ 1
one_pow zero = pow-zero 1
one_pow (suc n) = rw (pow-suc, one_pow n, mul-one)

-- Where a power is 1, exponents count up to multiples.
pub pow-mod : (x d m n : ℕ) → x ^ d % n ≡ 1 % n → x ^ (m % d) % n ≡ x ^ m % n
pow-mod x d m n h = sym (
    ap (λ (e : ℕ). x ^ e % n) (sym (div-add-mod m d))
    ∙ ap (λ (p : ℕ). p % n) (pow-add x (d * (m / d)) (m % d))
    ∙ sym (mod-mul (x ^ (d * (m / d))) (x ^ (m % d)) n)
    ∙ ap (λ (p : ℕ). p * x ^ (m % d) % n) whole
    ∙ mod-mul 1 (x ^ (m % d)) n
    ∙ ap (λ (p : ℕ). p % n) (one-mul (x ^ (m % d))))
  where
    whole : x ^ (d * (m / d)) % n ≡ 1 % n
    whole =
        ap (λ (p : ℕ). p % n) (pow-mul x d (m / d))
        ∙ sym (mod-pow (x ^ d) (m / d) n)
        ∙ ap (λ (p : ℕ). p ^ (m / d) % n) h
        ∙ mod-pow 1 (m / d) n
        ∙ ap (λ (p : ℕ). p % n) (one_pow (m / d))
