-- ===== src/Srp/Handshake/Drawing.antt =====
-- What generateProofs has checked when it gives proofs, and when its loop ends.
use protonmail_go.Prelude.{
  ℕ, zero, suc, ◌-◌, ◌*◌, ◌%◌, ◌^◌, ◌<◌, ◌≡◌, ◌≢◌, refl, subst, false, Option, none, some, leb, eqb,
  if-rule, arith, not,
}
use protonmail_go.Result.{Result, ok, err, bind-rule}
use protonmail_go.Http.{Bytes}
use protonmail_go.Srp.Integers.{itoa}
use protonmail_go.Srp.Handshake.{
  Proofs, Parameters, generator, bit_len, out_of_bounds, checked, parameters, scrambling_param,
  shared_session, proofs_of, with_scrambling, drawn, draw, from_parameters, generate_proofs,
}

-- Above 1 and below the modulus less one.
abbrev pub InBounds : ℕ → ℕ → Type 0
InBounds n modulus = (1 < n) × (n < modulus - 1)

out_of_bounds-InBounds : (n modulus : ℕ) → out_of_bounds n modulus ≡ false → InBounds n modulus
out_of_bounds-InBounds n modulus h = (ground arith, ground arith)

module _ (hash : Bytes → Bytes) (l : ℕ) where
  -- A modulus of the bit length, and a multiplier, a generator and an ephemeral value in bounds.
  abbrev pub IsAccepted : Parameters → Type 0
  IsAccepted p =
      (bit_len p.modulus ≡ l)
      × InBounds p.multiplier p.modulus
      × InBounds generator p.modulus
      × InBounds p.server_ephemeral p.modulus

  abbrev Accepts : Result Parameters → Type 0
  Accepts (err e) = Unit
  Accepts (ok p) = IsAccepted p

  checked-Accepts :
      (multiplier modulus hashed ephemeral : ℕ)
      → Accepts (checked hash l multiplier modulus hashed ephemeral)
  unfolding checked
  checked-Accepts multiplier modulus hashed ephemeral =
      if-rule Accepts (not (eqb (bit_len modulus) l)) (λ _. tt)
        (λ size.
          if-rule Accepts (out_of_bounds (multiplier % modulus) modulus) (λ _. tt)
            (λ m.
              if-rule Accepts (out_of_bounds generator modulus) (λ _. tt)
                (λ g.
                  if-rule Accepts (out_of_bounds ephemeral modulus) (λ _. tt)
                    (λ e. (
                      ground arith,
                      out_of_bounds-InBounds (multiplier % modulus) modulus m,
                      out_of_bounds-InBounds generator modulus g,
                      out_of_bounds-InBounds ephemeral modulus e,
                    )))))

  parameters-Accepts :
      (modulus hashed ephemeral : Bytes) → Accepts (parameters hash l modulus hashed ephemeral)
  unfolding parameters
  parameters-Accepts modulus hashed ephemeral =
      bind-rule Accepts (itoa generator l) _ (λ e _. tt) (λ g _. checked-Accepts _ _ _ _)

  -- The proofs come of a secret above twice the bit length and of a scrambling parameter that is not
  -- zero.
  abbrev pub AreProofs : Parameters → Proofs → Type 0
  AreProofs p proofs =
      (secret : ℕ) × (u : ℕ) × (l * 2 < secret)
      × (u ≢ 0)
      × (scrambling_param hash l p (generator ^ secret % p.modulus) ≡ ok u)
      × (proofs_of hash l p (generator ^ secret % p.modulus) (shared_session hash l p secret u)
          ≡ ok proofs)

  module _ {W : Type 0} (rand : ℕ → W → Result ℕ × W) where
    abbrev Draws : Parameters → Option (Result Proofs × W) → Type 0
    Draws p none = Unit
    Draws p (some (err e, w)) = Unit
    Draws p (some (ok proofs, w)) = AreProofs p proofs

    made-Draws :
        (p : Parameters) (secret u : ℕ) (w : W) (r : Result Proofs)
        → l * 2 < secret
        → u ≢ 0
        → scrambling_param hash l p (generator ^ secret % p.modulus) ≡ ok u
        → proofs_of hash l p (generator ^ secret % p.modulus) (shared_session hash l p secret u) ≡ r
        → Draws p (some (r, w))
    made-Draws p secret u w (err e) s n su h = tt
    made-Draws p secret u w (ok proofs) s n su h = (secret, u, s, n, su, h)

    with_scrambling-Draws :
        (again : W → Option (Result Proofs × W)) (p : Parameters) (secret : ℕ) (w : W)
        (r : Result ℕ)
        → ((v : W) → Draws p (again v))
        → l * 2 < secret
        → scrambling_param hash l p (generator ^ secret % p.modulus) ≡ r
        → Draws p (with_scrambling hash l rand again p secret w r)
    unfolding with_scrambling
    with_scrambling-Draws again p secret w (err e) a s su = tt
    with_scrambling-Draws again p secret w (ok u) a s su =
        if-rule (Draws p) (eqb u 0) (λ _. a w)
          (λ e. made-Draws p secret u w _ s (λ z. absurd (ground arith)) su refl)

    drawn-Draws :
        (again : W → Option (Result Proofs × W)) (p : Parameters) (r : Result ℕ) (w : W)
        → ((v : W) → Draws p (again v))
        → Draws p (drawn hash l rand again p (r, w))
    unfolding drawn
    drawn-Draws again p (err e) w a = tt
    drawn-Draws again p (ok secret) w a =
        if-rule (Draws p) (leb secret (l * 2)) (λ _. a w)
          (λ e. with_scrambling-Draws again p secret w _ a (ground arith) refl)

    draw-Draws : (fuel : ℕ) (p : Parameters) (w : W) → Draws p (draw hash l rand fuel p w)
    unfolding draw
    draw-Draws zero p w = tt
    draw-Draws (suc fuel) p w =
        drawn-Draws (draw hash l rand fuel p) p (rand (p.modulus - 1) w).0
          (rand (p.modulus - 1) w).1 (draw-Draws fuel p)

    from_parameters-Draws :
        (fuel : ℕ) (r : Result Parameters) (w v : W) (proofs : Proofs)
        → Accepts r
        → from_parameters hash l rand fuel r w ≡ some (ok proofs, v)
        → (p : Parameters) × (r ≡ ok p) × IsAccepted p × AreProofs p proofs
    unfolding from_parameters
    from_parameters-Draws fuel (err e) w v proofs a h = absurd (ground arith)
    from_parameters-Draws fuel (ok p) w v proofs a h =
        (p, refl, a, subst (Draws p) h (draw-Draws fuel p w))

    -- When generateProofs gives proofs, the modulus has the bit length, the multiplier, the generator
    -- and the server's ephemeral value lie above 1 and below the modulus less one, and the proofs are
    -- made with a client secret above twice the bit length whose scrambling parameter is not zero.
    pub generate_proofs-AreProofs :
        (fuel : ℕ) (modulus hashed ephemeral : Bytes) (w v : W) (proofs : Proofs)
        → generate_proofs hash l rand fuel modulus hashed ephemeral w ≡ some (ok proofs, v)
        → (p : Parameters) × (parameters hash l modulus hashed ephemeral ≡ ok p)
          × IsAccepted p
          × AreProofs p proofs
    unfolding generate_proofs
    generate_proofs-AreProofs fuel modulus hashed ephemeral w v proofs h =
        from_parameters-Draws fuel _ w v proofs (parameters-Accepts modulus hashed ephemeral) h
