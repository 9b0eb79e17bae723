-- ===== src/Srp/Integers/RoundTrip.antt =====
-- atoi is the inverse of itoa.
use protonmail_go.Prelude.{
  ℕ, zero, suc, ◌+◌, ◌-◌, ◌*◌, ◌/◌, ◌%◌, ◌≤◌, ◌<◌, ◌≡◌, refl, ap, ◌∙◌, [], ◌∷◌, ◌++◌, length,
  length-append, length-replicate, replicate, leb, eqb, true, false, if-rule, arith,
}
use protonmail_go.Result.{Result, ok, err}
use protonmail_go.Http.{Bytes}
use protonmail_go.Srp.{reverse}
use protonmail_go.Srp.Reversal.{rev, rev-snoc, reverse-rev}
use protonmail_go.Srp.Integers.{set_bytes, big_endian, int_bytes, padded, itoa, atoi}

-- The value of little-endian bytes.
abbrev pub value : Bytes → ℕ
value [] = 0
value (b ∷ rest) = b + 256 * value rest

set_bytes-snoc :
    (v : ℕ) (bs : Bytes) (b : ℕ) → set_bytes v (bs ++ (b ∷ [])) ≡ set_bytes v bs * 256 + b
unfolding set_bytes
set_bytes-snoc v [] b = refl
set_bytes-snoc v (c ∷ bs) b = set_bytes-snoc (v * 256 + c) bs b

set_bytes-rev : (bs : Bytes) → set_bytes 0 (rev bs) ≡ value bs
unfolding set_bytes
set_bytes-rev [] = refl
set_bytes-rev (b ∷ bs) =
    let ih = set_bytes-rev bs in let s = set_bytes-snoc 0 (rev bs) b in omega arith

value-padding : (bs : Bytes) (k : ℕ) → value (bs ++ replicate k 0) ≡ value bs
value-padding [] zero = refl
value-padding [] (suc k) = let ih = value-padding [] k in omega arith
value-padding (b ∷ bs) k = let ih = value-padding bs k in omega arith

value-big_endian : (fuel n : ℕ) → n ≤ fuel → value (rev (big_endian fuel n)) ≡ n
unfolding big_endian
value-big_endian zero n le = omega arith
value-big_endian (suc fuel) n le =
    if-rule (λ bs. value (rev bs) ≡ n) (eqb n 0) {x = []}
      {y = big_endian fuel (n / 256) ++ (n % 256 ∷ [])} (λ e. ground arith)
      (λ e.
        let ih = value-big_endian fuel (n / 256) (smaller n fuel le e) in
        ap value (rev-snoc (big_endian fuel (n / 256)) (n % 256)) ∙ omega arith)
  where
    smaller : (n fuel : ℕ) → n ≤ suc fuel → eqb n 0 ≡ false → n / 256 ≤ fuel
    smaller n fuel le e = ground arith

length-rev : (b : Bytes) → length (rev b) ≡ length b
length-rev [] = refl
length-rev (x ∷ b) = let ih = length-rev b in let l = length-append (rev b) (x ∷ []) in omega arith

set_bytes-reverse : (b : Bytes) → set_bytes 0 (reverse b) ≡ value b
set_bytes-reverse b = ap (set_bytes 0) (reverse-rev b) ∙ set_bytes-rev b

restored : (m s : ℕ) → leb m s ≡ true → m + (s - m) ≡ s
restored m s h = ground arith

-- What itoa gives: bytes of the length asked for that atoi turns into the number, or a panic if the
-- number has more bytes than that.
abbrev pub RoundTrips : ℕ → ℕ → Result Bytes → Type 0
RoundTrips n l (ok b) = (atoi b ≡ n) × (length b ≡ l / 8)
RoundTrips n l (err e) = l / 8 < length (int_bytes n)

-- The bytes that itoa gives have the length asked for, and atoi turns them into the number; itoa
-- panics only if the number has more bytes than that.
pub itoa-RoundTrips : (n l : ℕ) → RoundTrips n l (itoa n l)
unfolding itoa atoi int_bytes padded
itoa-RoundTrips n l =
    if-rule (RoundTrips n l) (leb (length b) (l / 8))
      (λ fits. (
        set_bytes-reverse (b ++ replicate (l / 8 - length b) 0)
            ∙ value-padding b (l / 8 - length b)
            ∙ ap value (reverse-rev (big_endian n n))
            ∙ value-big_endian n n (omega arith),
        filled fits,
      ))
      (λ over.
        let same = ap length (reverse-rev (big_endian n n)) ∙ length-rev (big_endian n n) in
        longer (length b) (length (big_endian n n)) (l / 8) over same)
  where
    b : Bytes
    b = reverse (big_endian n n)

    filled : leb (length b) (l / 8) ≡ true → length (b ++ replicate (l / 8 - length b) 0) ≡ l / 8
    filled fits =
        length-append b (replicate (l / 8 - length b) 0)
        ∙ ap (length b +◌) (length-replicate (l / 8 - length b) 0)
        ∙ restored (length b) (l / 8) fits

    longer : (m k s : ℕ) → leb m s ≡ false → m ≡ k → s < k
    longer m k s over same = ground arith
