-- ===== src/Result.antt =====
-- A Go function that returns a value and an `error`.
use expensor.Prelude.{◌≡◌, ◌⊎◌, refl, inl, inr}
use expensor.Errors.{Err}

pub data Result {ℓ} (A : Type ℓ) : Type ℓ where
  ok : A → Result A
  fail : Err → Result A

infixl 5 ◌>>=◌
abbrev pub ◌>>=◌ {ℓ κ} : {A : Type ℓ} {B : Type κ} → Result A → (A → Result B) → Result B
ok a >>= f = f a
fail e >>= f = fail e

-- To split on a computed result and keep the equation.
pub Result-cases {ℓ} :
    {A : Type ℓ} (r : Result A) → ((a : A) × (r ≡ ok a)) ⊎ ((err : Err) × (r ≡ fail err))
Result-cases (ok a) = inl (a, refl)
Result-cases (fail err) = inr (err, refl)

-- The predicate holds of the value that is returned, if one is.
abbrev pub OnOk {ℓ κ} : {A : Type ℓ} → (A → Type κ) → Result A → Type κ
OnOk P (ok a) = P a
OnOk P (fail err) = Unit

pub OnOk-bind {ℓ κ μ} :
    {A : Type ℓ} {B : Type κ} (P : B → Type μ) (r : Result A) (f : A → Result B)
    → ((a : A) → r ≡ ok a → OnOk P (f a))
    → OnOk P (r >>= f)
OnOk-bind P (ok a) f h = h a refl
OnOk-bind P (fail err) f h = tt
