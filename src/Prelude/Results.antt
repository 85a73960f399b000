-- ===== src/Prelude/Results.antt =====
-- Errors as values: a thrown `Error` carries its message's kind.
use mathlib.Core.Path.{◌≡◌, refl}
use mathlib.Core.Logic.{◌⊎◌, inl, inr}
use mathlib.Core.Option.{Option, none, some}

pub data Result {ℓ κ} (E : Type κ) (A : Type ℓ) : Type (ℓ ⊔ κ) where
  -- The method throws.
  err : E → Result E A
  -- The method returns.
  ok : A → Result E A

pub Result-cases {ℓ κ} :
    {E : Type κ} {A : Type ℓ} (r : Result E A) → ((a : A) × (r ≡ ok a)) ⊎ ((e : E) × (r ≡ err e))
Result-cases (ok a) = inl (a, refl)
Result-cases (err e) = inr (e, refl)

infixl 5 ◌>>=◌
abbrev pub ◌>>=◌ {ℓ κ μ} :
    {E : Type μ} {A : Type ℓ} {B : Type κ} → Result E A → (A → Result E B) → Result E B
err thrown >>= f = err thrown
ok a >>= f = f a

-- Inversion of a successful bind.
pub >>=-eq-ok {ℓ κ μ} :
    {E : Type μ} {A : Type ℓ} {B : Type κ} (m : Result E A) (f : A → Result E B) {b : B}
    → (m >>= f) ≡ ok b
    → (found : A) × (m ≡ ok found) × (f found ≡ ok b)
>>=-eq-ok (err thrown) f h = cc
>>=-eq-ok (ok found) f h = (found, refl, h)

pub ok≢err {ℓ κ} : {E : Type κ} {A : Type ℓ} {a : A} {e : E} → ok a ≡ err e → ⊥
ok≢err h = cc

-- A method that changes its object and may throw half-way: the object as it is left, and the error.
abbrev pub Outcome {ℓ κ} : Type κ → Type ℓ → Type (ℓ ⊔ κ)
Outcome E S = S × Option E

abbrev pub and_then {ℓ κ} :
    {E : Type κ} {S : Type ℓ} → Outcome E S → (S → Outcome E S) → Outcome E S
and_then (s, none) step = step s
and_then (s, some thrown) step = (s, some thrown)

-- Inversion of a run that does not throw.
pub and_then-eq-none {ℓ κ} :
    {E : Type κ} {S : Type ℓ} (o : Outcome E S) (step : S → Outcome E S) {s : S}
    → and_then o step ≡ (s, none)
    → (before : S) × (o ≡ (before, none)) × (step before ≡ (s, none))
and_then-eq-none (before, none) step h = (before, refl, h)
and_then-eq-none (before, some thrown) step h = cc

pub ok-inj {ℓ κ} : {E : Type κ} {A : Type ℓ} {a b : A} → ◌≡◌ {A = Result E A} (ok a) (ok b) → a ≡ b
ok-inj h = cc
