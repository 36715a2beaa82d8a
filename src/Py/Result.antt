-- ===== src/Py/Result.antt =====
-- A call that may raise: its value, or the exception.
use deputydev_core.Prelude.{◌≡◌, refl, ◌⊎◌, inl, inr}

pub data Result {ℓ} (E : Type 0) (A : Type ℓ) : Type ℓ where
  ok : A → Result E A
  err : E → Result E A

infixl 5 ◌>>=◌
abbrev pub ◌>>=◌ {ℓ κ} :
    {E : Type 0} {A : Type ℓ} {B : Type κ} → Result E A → (A → Result E B) → Result E B
ok a >>= f = f a
err e >>= f = err e

-- What holds of the value of a call, if it returns one.
abbrev pub Returns {ℓ} : {E : Type 0} {A : Type ℓ} → (A → Type 0) → Result E A → Type 0
Returns P (ok a) = P a
Returns P (err e) = Unit

pub ok-Returns {ℓ} :
    {E : Type 0} {A : Type ℓ} (P : A → Type 0) (r : Result E A)
    → ((a : A) → r ≡ ok a → P a)
    → Returns P r
ok-Returns P (ok a) h = h a refl
ok-Returns P (err e) h = tt

-- To split on a call and keep the equation.
pub Result-cases {ℓ} :
    {E : Type 0} {A : Type ℓ} (r : Result E A) → ((a : A) × (r ≡ ok a)) ⊎ ((e : E) × (r ≡ err e))
Result-cases (ok a) = inl (a, refl)
Result-cases (err e) = inr (e, refl)

-- What raises in the first of two calls, raises in both.
pub bind-err {ℓ κ μ} :
    {E : Type 0} {A : Type ℓ} {B : Type κ} {C : Type μ} (r : Result E A) (f : A → Result E B)
    (g : B → Result E C) (e : E)
    → (r >>= f) ≡ err e
    → (r >>= (λ a. f a >>= g)) ≡ err e
bind-err (ok a) f g e h = rw h refl
bind-err (err x) f g e h = cc
