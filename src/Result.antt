-- ===== src/Result.antt =====
-- A Go function's pair of a value and an error, of which one counts.
use protonmail_go.Prelude.{◌≡◌, ◌⊎◌, inl, inr, refl}
use protonmail_go.Errors.{Error}

pub data Result {ℓ} (A : Type ℓ) : Type ℓ where
  ok : A → Result A
  err : Error → Result A

infixl 5 ◌>>=◌
abbrev pub ◌>>=◌ {ℓ κ} : {A : Type ℓ} {B : Type κ} → Result A → (A → Result B) → Result B
ok a >>= f = f a
err e >>= f = err e

pub Result-cases {ℓ} :
    {A : Type ℓ} (r : Result A) → ((a : A) × (r ≡ ok a)) ⊎ ((e : Error) × (r ≡ err e))
Result-cases (ok a) = inl (a, refl)
Result-cases (err e) = inr (e, refl)

pub ok-injective {ℓ} : {A : Type ℓ} {a b : A} → ok a ≡ ok b → a ≡ b
ok-injective e = cc

-- What holds of the error and of every continuation holds of the chain.
pub bind-rule {ℓ κ μ} :
    {A : Type ℓ} {B : Type κ} (P : Result B → Type μ) (r : Result A) (f : A → Result B)
    → ((e : Error) → r ≡ err e → P (err e))
    → ((a : A) → r ≡ ok a → P (f a))
    → P (r >>= f)
bind-rule P (ok a) f h k = k a refl
bind-rule P (err e) f h k = h e refl
