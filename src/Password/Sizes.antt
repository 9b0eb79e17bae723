-- ===== src/Password/Sizes.antt =====
-- The sizes of what the password functions give.
use protonmail_go.Prelude.{
  ℕ, suc, zero, ◌-◌, ◌≤◌, ◌≡◌, ◌≢◌, refl, ◌∙◌, eqb_ℤ_iff, Bool, true, false, ◌&&◌, [], ◌∷◌, ◌++◌, ℤ,
  pos, eqb_ℤ, eqb, ◌||◌, leb, arith, length, length-append, if-rule, ◌⊎◌, inl, inr,
}
use protonmail_go.Errors.{other}
use protonmail_go.Result.{Result, ok, err, ◌>>=◌}
use protonmail_go.Http.{Bytes}
use protonmail_go.Password.{
  Hashes, starts_with, drop, replace_first, hash_bcrypt, expand_hash, hash_password,
  compute_key_password, without_prefix, bcrypt_2a, bcrypt_2y, proton_suffix,
}

-- SHA-512 gives 64 bytes.
abbrev pub GivesDigests : Hashes → Type 0
GivesDigests hashes = (b : Bytes) → length (hashes.sha512 b) ≡ 64

-- bcrypt gives a text of 60 bytes.
abbrev pub GivesSixty : Hashes → Type 0
GivesSixty hashes = (password salt b : Bytes) → hashes.bcrypt password salt ≡ ok b → length b ≡ 60

length-drop : (n : ℕ) (b : Bytes) → length (drop n b) ≡ length b - n
length-drop zero b = omega arith
length-drop (suc n) [] = omega arith
length-drop (suc n) (x ∷ xs) = omega (arith, length-drop n xs)

starts_with-le : (old b : Bytes) → starts_with old b ≡ true → length old ≤ length b
starts_with-le [] b h = omega arith
starts_with-le (x ∷ xs) [] h = ground arith
starts_with-le (x ∷ xs) (y ∷ ys) h =
    let le = starts_with-le xs ys (both (eqb x y) (starts_with xs ys) h) in omega arith
  where
    both : (a b : Bool) → (a && b) ≡ true → b ≡ true
    both a b h = ground arith

length-replace_first :
    (old new b : Bytes) → length old ≡ length new → length (replace_first old new b) ≡ length b
unfolding replace_first
length-replace_first old new [] e = refl
length-replace_first old new (x ∷ xs) e =
    if-rule (λ r. length r ≡ suc (length xs)) (starts_with old (x ∷ xs))
      {x = new ++ drop (length old) (x ∷ xs)} {y = x ∷ replace_first old new xs}
      (λ s.
        let le = starts_with-le old (x ∷ xs) s in
        omega (
          arith,
          length-append new (drop (length old) (x ∷ xs)),
          length-drop (length old) (x ∷ xs),
        ))
      (λ _. omega (arith, length-replace_first old new xs e))

either : (a b : Bool) → (a || b) ≡ true → (a ≡ true) ⊎ (b ≡ true)
either true b h = inl refl
either false b h = inr h

neither : (a b : Bool) → (a || b) ≡ false → (a ≡ true) ⊎ (b ≡ true) → ⊥
neither a b h (inl e) = ground arith
neither a b h (inr e) = ground arith

short : (n : ℕ) → n ≡ 60 → leb 29 n ≡ false → ⊥
short n e h = ground arith

module _ (hashes : Hashes) where
  length-expand_hash : (b : Bytes) → GivesDigests hashes → length (expand_hash hashes b) ≡ 256
  unfolding expand_hash
  length-expand_hash b d =
      four (hashes.sha512 (b ++ 0 ∷ [])) (hashes.sha512 (b ++ 1 ∷ [])) (hashes.sha512 (b ++ 2 ∷ []))
        (hashes.sha512 (b ++ 3 ∷ [])) (d _) (d _) (d _) (d _)
    where
      four :
          (w x y z : Bytes)
          → length w ≡ 64
          → length x ≡ 64
          → length y ≡ 64
          → length z ≡ 64
          → length (w ++ x ++ y ++ z) ≡ 256
      four w x y z h i j k =
          let l0 = length-append (w ++ x ++ y) z in
          let l1 = length-append (w ++ x) y in let l2 = length-append w x in omega arith

  -- What hashPassword gives at a version: 256 bytes or bcrypt's error at 3 and 4, and an error else.
  abbrev pub Hashed : ℤ → Bytes → Bytes → Result Bytes → Type 0
  Hashed version password salt (ok b) = ((version ≡ pos 3) ⊎ (version ≡ pos 4)) × (length b ≡ 256)
  Hashed version password salt (err e) =
      (hashes.bcrypt password (salt ++ proton_suffix) ≡ err e)
      ⊎ ((version ≢ pos 3) × (version ≢ pos 4) × (e ≡ other "unsupported auth version"))

  -- hashPassword gives 256 bytes, at versions 3 and 4 only, unless bcrypt fails.
  pub hash_password-Hashed :
      (version : ℤ) (password salt modulus : Bytes)
      → GivesDigests hashes
      → Hashed version password salt (hash_password hashes version password salt modulus)
  unfolding hash_password hash_bcrypt
  hash_password-Hashed version password salt modulus d =
      if-rule (Hashed version password salt) (eqb_ℤ version (pos 3) || eqb_ℤ version (pos 4))
        (λ v. hashed-Hashed v (hashes.bcrypt password (salt ++ proton_suffix)) refl)
        (λ v. inr (
          (λ e. neither _ _ v (inl ((eqb_ℤ_iff version (pos 3)).1 e))),
          (λ e. neither _ _ v (inr ((eqb_ℤ_iff version (pos 4)).1 e))),
          refl,
        ))
    where
      hashed-Hashed :
          (eqb_ℤ version (pos 3) || eqb_ℤ version (pos 4)) ≡ true
          → (r : Result Bytes) → hashes.bcrypt password (salt ++ proton_suffix) ≡ r
          → Hashed version password salt (
              (r >>= λ h. ok (replace_first bcrypt_2a bcrypt_2y h)) >>= λ h.
              ok (expand_hash hashes (h ++ modulus)))
      hashed-Hashed v (err e) b = inl b
      hashed-Hashed v (ok h) b = (
        (elim (either _ _ v) [
          | inl e ↦ inl ((eqb_ℤ_iff version (pos 3)).0 e)
          | inr e ↦ inr ((eqb_ℤ_iff version (pos 4)).0 e)
        ]),
        length-expand_hash _ d,
      )

  -- The key password has 31 bytes, and cutting off the prefix does not panic.
  abbrev pub Cut : Bytes → Bytes → Result Bytes → Type 0
  Cut password salt (ok b) = length b ≡ 31
  Cut password salt (err e) = hashes.bcrypt password salt ≡ err e

  pub compute_key_password-Cut :
      (password salt : Bytes)
      → GivesSixty hashes
      → Cut password salt (compute_key_password hashes password salt)
  unfolding compute_key_password hash_bcrypt without_prefix
  compute_key_password-Cut password salt g = cut-Cut (hashes.bcrypt password salt) refl
    where
      cut-Cut :
          (r : Result Bytes)
          → hashes.bcrypt password salt ≡ r
          → Cut password salt
              ((r >>= λ h. ok (replace_first bcrypt_2a bcrypt_2y h)) >>= without_prefix)
      cut-Cut (err e) b = b
      cut-Cut (ok h) b =
          if-rule (Cut password salt) (leb 29 (length (replace_first bcrypt_2a bcrypt_2y h)))
            (λ _. omega (
              arith,
              length-drop 29 (replace_first bcrypt_2a bcrypt_2y h),
              length-replace_first bcrypt_2a bcrypt_2y h refl,
              g password salt h b,
            ))
            (λ n.
              elim (short (length (replace_first bcrypt_2a bcrypt_2y h))
                (length-replace_first bcrypt_2a bcrypt_2y h refl ∙ g password salt h b) n) [ ])
