-- ===== src/Srp/Handshake/Ending.antt =====
-- When the loop of generateProofs ends.
use protonmail_go.Prelude.{
  ℕ, zero, suc, ◌-◌, ◌*◌, ◌%◌, ◌^◌, ◌<◌, ◌≢◌, ◌⊎◌, inl, inr, Option, none, some, leb, eqb, if-rule,
  arith,
}
use protonmail_go.Result.{Result, ok, err}
use protonmail_go.Http.{Bytes}
use protonmail_go.Srp.Handshake.{
  Proofs, Parameters, generator, scrambling_param, with_scrambling, drawn, draw,
}

module _ (hash : Bytes → Bytes) (l : ℕ) {W : Type 0} (rand : ℕ → W → Result ℕ × W) where
  abbrev pub Uses : Result ℕ → Type 0
  Uses (err e) = Unit
  Uses (ok u) = u ≢ 0

  -- A draw that ends the loop: the reader fails, or the secret is large enough and its scrambling
  -- parameter not zero.
  abbrev pub Stops : Parameters → Result ℕ → Type 0
  Stops p (err e) = Unit
  Stops p (ok secret) =
      (l * 2 < secret) × Uses (scrambling_param hash l p (generator ^ secret % p.modulus))

  -- One of the next draws ends the loop.
  abbrev pub StopsWithin : ℕ → Parameters → W → Type 0
  StopsWithin zero p w = ⊥
  StopsWithin (suc n) p w =
      Stops p (rand (p.modulus - 1) w).0 ⊎ StopsWithin n p (rand (p.modulus - 1) w).1

  abbrev pub HasEnded : Option (Result Proofs × W) → Type 0
  HasEnded none = ⊥
  HasEnded (some r) = Unit

  with_scrambling-Uses :
      (again : W → Option (Result Proofs × W)) (p : Parameters) (secret : ℕ) (w : W) (r : Result ℕ)
      → Uses r
      → HasEnded (with_scrambling hash l rand again p secret w r)
  unfolding with_scrambling
  with_scrambling-Uses again p secret w (err e) uses = tt
  with_scrambling-Uses again p secret w (ok u) uses =
      if-rule HasEnded (eqb u 0) (λ z. absurd (uses (ground arith))) (λ _. tt)

  drawn-Stops :
      (again : W → Option (Result Proofs × W)) (p : Parameters) (r : Result ℕ) (w : W)
      → Stops p r
      → HasEnded (drawn hash l rand again p (r, w))
  unfolding drawn
  drawn-Stops again p (err e) w s = tt
  drawn-Stops again p (ok secret) w (large, uses) =
      if-rule HasEnded (leb secret (l * 2)) (λ small. absurd (ground arith))
        (λ _. with_scrambling-Uses again p secret w _ uses)

  scrambled :
      (again : W → Option (Result Proofs × W)) (p : Parameters) (secret : ℕ) (w : W) (r : Result ℕ)
      → HasEnded (again w)
      → HasEnded (with_scrambling hash l rand again p secret w r)
  unfolding with_scrambling
  scrambled again p secret w (err e) h = tt
  scrambled again p secret w (ok u) h = if-rule HasEnded (eqb u 0) (λ _. h) (λ _. tt)

  drawn-goes_on :
      (again : W → Option (Result Proofs × W)) (p : Parameters) (r : Result ℕ) (w : W)
      → HasEnded (again w)
      → HasEnded (drawn hash l rand again p (r, w))
  unfolding drawn
  drawn-goes_on again p (err e) w h = tt
  drawn-goes_on again p (ok secret) w h =
      if-rule HasEnded (leb secret (l * 2)) (λ _. h)
        (λ _.
          scrambled again p secret w (scrambling_param hash l p (generator ^ secret % p.modulus)) h)

  -- If one of the next draws gives a secret above twice the bit length with a scrambling parameter that
  -- is not zero, or fails, then fuel for these draws is enough for the loop to end.
  pub draw-HasEnded :
      (fuel : ℕ) (p : Parameters) (w : W)
      → StopsWithin fuel p w
      → HasEnded (draw hash l rand fuel p w)
  unfolding draw
  draw-HasEnded zero p w s = s
  draw-HasEnded (suc fuel) p w (inl s) = drawn-Stops (draw hash l rand fuel p) p _ _ s
  draw-HasEnded (suc fuel) p w (inr s) =
      drawn-goes_on (draw hash l rand fuel p) p (rand (p.modulus - 1) w).0
        (rand (p.modulus - 1) w).1 (draw-HasEnded fuel p _ s)
