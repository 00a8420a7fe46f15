-- ===== src/Common/Outcomes.antt =====
-- What a Go function does: it returns a value, or it panics.
use mathlib.Core.Option.{Option, none, some}
use mathlib.Core.List.{List, [], ◌∷◌}

pub data Outcome {ℓ} (A : Type ℓ) : Type ℓ where
  ret : A → Outcome A
  panic : Outcome A

infixl 5 ◌>>=◌
abbrev pub ◌>>=◌ {ℓ κ} : {A : Type ℓ} {B : Type κ} → Outcome A → (A → Outcome B) → Outcome B
ret a >>= f = f a
panic >>= f = panic

-- A loop whose body changes the state and may panic.
abbrev pub for_each {ℓ κ} : {A : Type ℓ} {S : Type κ} → List A → (A → S → Outcome S) → S → Outcome S
for_each [] f s = ret s
for_each (x ∷ xs) f s = f x s >>= for_each xs f

-- Whatever the function returns satisfies `P`; a panic returns nothing.
abbrev pub Ensures {ℓ κ} : {A : Type ℓ} → (A → Type κ) → Outcome A → Type κ
Ensures P (ret a) = P a
Ensures P panic = Unit

pub Ensures-bind {ℓ κ ι μ} :
    {A : Type ℓ} {B : Type κ} (P : A → Type ι) (Q : B → Type μ) (m : Outcome A) (f : A → Outcome B)
    → Ensures P m
    → ((a : A) → P a → Ensures Q (f a))
    → Ensures Q (m >>= f)
Ensures-bind P Q (ret a) f h k = k a h
Ensures-bind P Q panic f h k = tt

abbrev pub bind_option {ℓ κ} : {A : Type ℓ} {B : Type κ} → Option A → (A → Option B) → Option B
bind_option none f = none
bind_option (some a) f = f a
