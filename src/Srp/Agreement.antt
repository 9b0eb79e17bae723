-- ===== src/Srp/Agreement.antt =====
-- The session key of generateProofs against the server's.
use protonmail_go.Prelude.{
  ℕ, ◌+◌, ◌*◌, ◌%◌, ◌-◌, ◌^◌, ◌≤◌, ◌<◌, ◌≡◌, sym, ap, ◌∙◌, arith, ltb, ltb→lt, if◌then◌else◌,
  Bool-cases, inl, inr,
}
use native.Mathlib.Nat.{mul_comm, mod-eq_of_lt, mod-lt, mod-add-mod, add-mod-mod, mod-eq-sub-mod}
use protonmail_go.Http.{Bytes}
use protonmail_go.Srp.Handshake.{Parameters, generator, shared_session}
use protonmail_go.Srp.Powers.{mod-mul, mul-mod, pow-add, pow-mul, mod-pow, pow-mod, one_pow}

-- The server's side of SRP-6a: what it stores of the password, the ephemeral value that it sends for
-- a secret, and its session key for the client's ephemeral value and the scrambling parameter.
abbrev pub verifier : ℕ → ℕ → ℕ
verifier hashed modulus = generator ^ hashed % modulus

abbrev pub server_ephemeral : ℕ → ℕ → ℕ → ℕ → ℕ
server_ephemeral multiplier v secret modulus = (multiplier * v + generator ^ secret) % modulus

abbrev pub server_session : ℕ → ℕ → ℕ → ℕ → ℕ → ℕ
server_session client_ephemeral v u secret modulus =
    (client_ephemeral * v ^ u % modulus) ^ secret % modulus

-- A difference of remainders, raised by the modulus where it is negative.
subtract : ℕ → ℕ → ℕ → ℕ
subtract n a b = if ltb a b then a + n - b else a - b

subtract_remainder : (n r b : ℕ) → r < n → b < n → subtract n ((b + r) % n) b ≡ r
unfolding subtract
subtract_remainder n r b p h = elim (Bool-cases (ltb (b + r) n)) [
  | inl low ↦ rw (mod-eq_of_lt (ltb→lt (b + r) n low)) (ground arith)
  | inr high ↦
      let wraps : n ≤ b + r = ground arith in
      let small : b + r - n < n = omega arith in
      rw (mod-eq-sub-mod wraps, mod-eq_of_lt small) (ground arith)
]

subtract-add : (n a b : ℕ) → 0 < n → b < n → subtract n ((b + a) % n) b ≡ a % n
subtract-add n a b p h = rw (← add-mod-mod b a n) (subtract_remainder n (a % n) b (mod-lt a p) h)

-- What holds of the generator holds of its powers.
power_order : (b n : ℕ) → generator ^ (n - 1) % n ≡ 1 % n → (generator ^ b) ^ (n - 1) % n ≡ 1 % n
power_order b n h =
    ap (λ (t : ℕ). t % n)
      (sym (pow-mul generator b (n - 1))
        ∙ ap (λ (t : ℕ). generator ^ t) (mul_comm b (n - 1))
        ∙ pow-mul generator (n - 1) b)
    ∙ sym (mod-pow (generator ^ (n - 1)) b n)
    ∙ ap (λ (t : ℕ). t ^ b % n) h
    ∙ mod-pow 1 b n
    ∙ ap (λ (t : ℕ). t % n) (one_pow b)

product_remainder :
    (s h u n : ℕ)
    → (generator ^ s % n) * (generator ^ h % n) ^ u % n ≡ generator ^ s * (generator ^ h) ^ u % n
product_remainder s h u n =
    mod-mul (generator ^ s) ((generator ^ h % n) ^ u) n
    ∙ sym (mul-mod (generator ^ s) ((generator ^ h % n) ^ u) n)
    ∙ ap (λ (t : ℕ). generator ^ s * t % n) (mod-pow (generator ^ h) u n)
    ∙ mul-mod (generator ^ s) ((generator ^ h) ^ u) n

exponents :
    (s h u b : ℕ) → (generator ^ s * (generator ^ h) ^ u) ^ b ≡ (generator ^ b) ^ (u * h + s)
exponents s h u b =
    ap (λ (t : ℕ). t ^ b)
      (ap (λ (t : ℕ). generator ^ s * t) (sym (pow-mul generator h u))
        ∙ sym (pow-add generator s (h * u)))
    ∙ sym (pow-mul generator (s + h * u) b)
    ∙ ap (λ (t : ℕ). generator ^ t) (same s h u b)
    ∙ pow-mul generator b (u * h + s)
  where
    same : (s h u b : ℕ) → (s + h * u) * b ≡ b * (u * h + s)
    same s h u b = grind arith

module _ (hash : Bytes → Bytes) (l : ℕ) (p : Parameters) (b : ℕ) where
  -- What the client raises to its exponent is the server's power, without the mask.
  unmasked :
      0 < p.modulus
      → subtract p.modulus
          (server_ephemeral p.multiplier (verifier p.hashed p.modulus) b p.modulus)
          (generator ^ p.hashed % p.modulus * p.multiplier % p.modulus)
        ≡ generator ^ b % p.modulus
  unmasked pos =
      let v = verifier p.hashed p.modulus in
      rw (mul_comm p.multiplier v, ← mod-add-mod (v * p.multiplier) p.modulus (generator ^ b))
        (subtract-add p.modulus (generator ^ b) (v * p.multiplier % p.modulus) pos
          (mod-lt (v * p.multiplier) pos))

  -- The session key of the client is the server's power to the client's exponent.
  client_lem :
      (secret u : ℕ)
      → 0 < p.modulus
      → generator ^ (p.modulus - 1) % p.modulus ≡ 1 % p.modulus
      → p.server_ephemeral ≡ server_ephemeral p.multiplier (verifier p.hashed p.modulus) b p.modulus
      → shared_session hash l p secret u ≡ (generator ^ b) ^ (u * p.hashed + secret) % p.modulus
  unfolding shared_session subtract
  client_lem secret u pos fermat e =
      ap (λ (t : ℕ). t ^ ((u * p.hashed + secret) % (p.modulus - 1)) % p.modulus)
        (ap
            (λ (t : ℕ).
              subtract p.modulus t (generator ^ p.hashed % p.modulus * p.multiplier % p.modulus))
            e
          ∙ unmasked pos)
      ∙ mod-pow (generator ^ b) ((u * p.hashed + secret) % (p.modulus - 1)) p.modulus
      ∙ pow-mod (generator ^ b) (p.modulus - 1) (u * p.hashed + secret) p.modulus
          (power_order b p.modulus fermat)

  server_lem :
      (secret u : ℕ)
      → server_session (generator ^ secret % p.modulus) (verifier p.hashed p.modulus) u b p.modulus
        ≡ (generator ^ b) ^ (u * p.hashed + secret) % p.modulus
  server_lem secret u =
      ap (λ (t : ℕ). t ^ b % p.modulus) (product_remainder secret p.hashed u p.modulus)
      ∙ mod-pow (generator ^ secret * (generator ^ p.hashed) ^ u) b p.modulus
      ∙ ap (λ (t : ℕ). t % p.modulus) (exponents secret p.hashed u b)

  -- If the modulus is one of which the generator's power to the modulus less one is 1, as it is of an
  -- odd prime, and the server's ephemeral value is the one that SRP-6a makes of the password's
  -- verifier and some secret, then the session key of the client is that of the server, whatever the
  -- two secrets and the scrambling parameter are.
  pub shared_session-server_session :
      (secret u : ℕ)
      → 0 < p.modulus
      → generator ^ (p.modulus - 1) % p.modulus ≡ 1 % p.modulus
      → p.server_ephemeral ≡ server_ephemeral p.multiplier (verifier p.hashed p.modulus) b p.modulus
      → shared_session hash l p secret u
        ≡ server_session
            (generator ^ secret % p.modulus)
            (verifier p.hashed p.modulus)
            u
            b
            p.modulus
  shared_session-server_session secret u pos fermat e =
      client_lem secret u pos fermat e ∙ sym (server_lem secret u)
