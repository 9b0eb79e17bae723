-- ===== src/Srp/Reversal.antt =====
-- The loop of reverse is the reversal of lists.
use mathlib.Core.List.{append_assoc}
use protonmail_go.Prelude.{
  ℕ, zero, suc, ◌-◌, ◌/◌, ◌≡◌, refl, ◌≤◌, ap, sym, ◌∙◌, subst, [], ◌∷◌, ◌++◌, length, length-append,
  arith,
}
use protonmail_go.Http.{Bytes}
use protonmail_go.Srp.{byte_at, set_at, swap, reverse_from, reverse}

abbrev pub rev : Bytes → Bytes
rev [] = []
rev (x ∷ xs) = rev xs ++ x ∷ []

pub rev-snoc : (xs : Bytes) (y : ℕ) → rev (xs ++ y ∷ []) ≡ y ∷ rev xs
rev-snoc [] y = refl
rev-snoc (x ∷ xs) y = ap (◌++ x ∷ []) (rev-snoc xs y)

byte_at-append : (pre : Bytes) (x : ℕ) (post : Bytes) → byte_at (pre ++ (x ∷ post)) (length pre) ≡ x
unfolding byte_at
byte_at-append [] x post = refl
byte_at-append (p ∷ pre) x post = byte_at-append pre x post

set_at-append :
    (pre : Bytes) (x v : ℕ) (post : Bytes)
    → set_at (length pre) v (pre ++ (x ∷ post)) ≡ pre ++ (v ∷ post)
unfolding set_at
set_at-append [] x v post = refl
set_at-append (p ∷ pre) x v post = ap (p ∷◌) (set_at-append pre x v post)

length-ends : (pre mid : Bytes) (x y : ℕ) → length (pre ++ (x ∷ mid)) ≡ length (pre ++ (y ∷ mid))
length-ends pre mid x y = length-append pre (x ∷ mid) ∙ sym (length-append pre (y ∷ mid))

-- Exchanging the two ends of the middle part.
swap-ends :
    (pre : Bytes) (x : ℕ) (mid : Bytes) (y : ℕ) (post : Bytes)
    → swap (length pre) (length (pre ++ (x ∷ mid))) (pre ++ (x ∷ (mid ++ (y ∷ post))))
      ≡ pre ++ (y ∷ (mid ++ (x ∷ post)))
unfolding swap
swap-ends pre x mid y post =
    ap (λ v. set_at j v (set_at i (byte_at b j) b)) (byte_at-append pre x (mid ++ (y ∷ post)))
    ∙ ap (λ v. set_at j x (set_at i v b))
        (ap (λ c. byte_at c j) (sym (append_assoc pre (x ∷ mid) (y ∷ post)))
          ∙ byte_at-append (pre ++ (x ∷ mid)) y post)
    ∙ ap (set_at j x) (set_at-append pre x y (mid ++ (y ∷ post)))
    ∙ ap (set_at j x) (sym (append_assoc pre (y ∷ mid) (y ∷ post)))
    ∙ ap (λ k. set_at k x ((pre ++ (y ∷ mid)) ++ (y ∷ post))) (length-ends pre mid x y)
    ∙ set_at-append (pre ++ (y ∷ mid)) y x post
    ∙ append_assoc pre (y ∷ mid) (x ∷ post)
  where
    i : ℕ
    i = length pre

    j : ℕ
    j = length (pre ++ (x ∷ mid))

    b : Bytes
    b = pre ++ (x ∷ (mid ++ (y ∷ post)))

-- The last of a list that is not empty.
last_of : (z : ℕ) (xs : Bytes) → (mid : Bytes) × (y : ℕ) × (z ∷ xs ≡ mid ++ (y ∷ []))
last_of z [] = ([], z, refl)
last_of z (x ∷ xs) = let (mid, y, e) = last_of x xs in (z ∷ mid, y, ap (z ∷◌) e)

-- One round moves the ends of the middle part to the outer parts.
round :
    (pre : Bytes) (x : ℕ) (mid : Bytes) (y : ℕ) (post : Bytes)
    → length pre ≡ length post
    → let b = pre ++ ((x ∷ (mid ++ (y ∷ []))) ++ post) in
      swap (length pre) (length b - 1 - length pre) b ≡ (pre ++ (y ∷ [])) ++ (mid ++ (x ∷ post))
round pre x mid y post e =
    ap (λ k. swap (length pre) k b) there
    ∙ ap (λ c. swap (length pre) (length (pre ++ (x ∷ mid))) (pre ++ (x ∷ c)))
        (append_assoc mid (y ∷ []) post)
    ∙ swap-ends pre x mid y post
    ∙ sym (append_assoc pre (y ∷ []) (mid ++ (x ∷ post)))
  where
    b : Bytes
    b = pre ++ ((x ∷ (mid ++ (y ∷ []))) ++ post)

    there : length b - 1 - length pre ≡ length (pre ++ (x ∷ mid))
    there =
        let l0 = length-append pre ((x ∷ (mid ++ (y ∷ []))) ++ post) in
        let l1 = length-append (mid ++ (y ∷ [])) post in
        let l2 = length-append mid (y ∷ []) in let l3 = length-append pre (x ∷ mid) in omega arith

-- The loop reverses what is left in the middle.
abbrev Reverses : ℕ → Type 0
Reverses rounds =
    (pre mid post : Bytes)
    → length pre ≡ length post
    → rounds ≡ length mid / 2
    → reverse_from rounds (length pre) (pre ++ (mid ++ post)) ≡ pre ++ (rev mid ++ post)

rev-ends :
    (pre : Bytes) (x : ℕ) (mid : Bytes) (y : ℕ) (post : Bytes)
    → (pre ++ (y ∷ [])) ++ (rev mid ++ (x ∷ post)) ≡ pre ++ (rev (x ∷ (mid ++ (y ∷ []))) ++ post)
rev-ends pre x mid y post =
    append_assoc pre (y ∷ []) (rev mid ++ (x ∷ post))
    ∙ ap (λ c. pre ++ (y ∷ c)) (sym (append_assoc (rev mid) (x ∷ []) post))
    ∙ ap (λ c. pre ++ ((c ++ (x ∷ [])) ++ post)) (sym (rev-snoc mid y))

Reverses-suc :
    (rounds : ℕ)
    → Reverses rounds
    → (pre : Bytes) (x : ℕ) (mid : Bytes) (y : ℕ) (post : Bytes) → length pre ≡ length post
    → suc rounds ≡ length (x ∷ (mid ++ (y ∷ []))) / 2
    → reverse_from (suc rounds) (length pre) (pre ++ ((x ∷ (mid ++ (y ∷ []))) ++ post))
      ≡ pre ++ (rev (x ∷ (mid ++ (y ∷ []))) ++ post)
unfolding reverse_from
Reverses-suc rounds ih pre x mid y post e h =
    ap (reverse_from rounds (suc (length pre))) (round pre x mid y post e)
    ∙ ap (λ k. reverse_from rounds k ((pre ++ (y ∷ [])) ++ (mid ++ (x ∷ post)))) longer
    ∙ ih (pre ++ (y ∷ [])) mid (x ∷ post) (sym longer ∙ ap suc e) fewer
    ∙ rev-ends pre x mid y post
  where
    longer : suc (length pre) ≡ length (pre ++ (y ∷ []))
    longer = let l = length-append pre (y ∷ []) in omega arith

    fewer : rounds ≡ length mid / 2
    fewer = let l = length-append mid (y ∷ []) in omega arith

none-left : (n : ℕ) → 0 ≡ suc (suc n) / 2 → ⊥
none-left n h = ground arith

too-many : (r n : ℕ) → suc r ≡ n / 2 → n ≤ 1 → ⊥
too-many r n h le = ground arith

reverse_from-Reverses : (rounds : ℕ) → Reverses rounds
unfolding reverse_from
reverse_from-Reverses zero pre [] post e h = refl
reverse_from-Reverses zero pre (x ∷ []) post e h = refl
reverse_from-Reverses zero pre (x ∷ z ∷ mid) post e h = elim (none-left (length mid) h) [ ]
reverse_from-Reverses (suc rounds) pre [] post e h = elim (too-many rounds 0 h (omega arith)) [ ]
reverse_from-Reverses (suc rounds) pre (x ∷ []) post e h =
    elim (too-many rounds 1 h (omega arith)) [ ]
reverse_from-Reverses (suc rounds) pre (x ∷ z ∷ rest) post e h =
    let (mid, y, ends) = last_of z rest in
    subst
      (λ c.
        reverse_from (suc rounds) (length pre) (pre ++ ((x ∷ c) ++ post))
        ≡ pre ++ (rev (x ∷ c) ++ post))
      (sym ends)
      (Reverses-suc rounds (reverse_from-Reverses rounds) pre x mid y post e
        (h ∙ ap (λ c. length (x ∷ c) / 2) ends))

append-nil : (b : Bytes) → b ++ [] ≡ b
append-nil [] = refl
append-nil (x ∷ b) = ap (x ∷◌) (append-nil b)

-- The loop of reverse, which exchanges bytes in place, gives the bytes in the opposite order.
pub reverse-rev : (b : Bytes) → reverse b ≡ rev b
unfolding reverse
reverse-rev b =
    ap (reverse_from (length b / 2) 0) (sym (append-nil b))
    ∙ reverse_from-Reverses (length b / 2) [] b [] refl refl
    ∙ append-nil (rev b)
