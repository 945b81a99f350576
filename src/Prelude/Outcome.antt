-- ===== src/Prelude/Outcome.antt =====
-- What a Go call can come to: it returns, or it panics. `Failable` is Go's pair of a value and an
-- error, of which the callers look at the value only where the error is nil.
use go_tasks.Prelude.{◌≡◌, refl, ◌⊎◌, inl, inr, String, Bool, true, false}

pub data Outcome {ℓ} (A : Type ℓ) : Type ℓ where
  ok : A → Outcome A
  panic : Outcome A

pub ok_inj {ℓ} : {A : Type ℓ} {a b : A} → ok a ≡ ok b → a ≡ b
ok_inj e = cc

infixl 5 ◌>>=◌
abbrev pub ◌>>=◌ {ℓ κ} : {A : Type ℓ} {B : Type κ} → Outcome A → (A → Outcome B) → Outcome B
ok a >>= f = f a
panic >>= f = panic

-- An error is known by its text.
abbrev pub Err : Type 0
Err = String

pub data Failable {ℓ} (A : Type ℓ) : Type ℓ where
  value : A → Failable A
  failure : Err → Failable A

-- `close` of a channel that is closed already panics. A channel is closed or not.
abbrev pub close : Bool → Outcome Bool
close false = ok true
close true = panic

abbrev pub bind_failable {ℓ κ} :
    {A : Type ℓ} {B : Type κ} → Failable A → (A → Failable B) → Failable B
bind_failable (value a) f = f a
bind_failable (failure e) f = failure e

pub Failable-cases {ℓ} :
    {A : Type ℓ} (r : Failable A) → ((e : Err) × (r ≡ failure e)) ⊎ ((a : A) × (r ≡ value a))
Failable-cases (value a) = inr (a, refl)
Failable-cases (failure e) = inl (e, refl)

pub Outcome-cases {ℓ} : {A : Type ℓ} (r : Outcome A) → (r ≡ panic) ⊎ ((a : A) × (r ≡ ok a))
Outcome-cases (ok a) = inr (a, refl)
Outcome-cases panic = inl refl
