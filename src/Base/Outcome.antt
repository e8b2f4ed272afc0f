-- ===== src/Base/Outcome.antt =====
-- The result of code that throws: a value or the exception, of a type `E` of the component.
use mathlib.Core.Path.{◌≡◌, refl}
use mathlib.Core.Logic.{◌⊎◌, inl, inr}
use mathlib.Core.Bool.{Bool, true, false}

pub data Result {ℓ κ} (E : Type κ) (A : Type ℓ) : Type (ℓ ⊔ κ) where
  ok : A → Result E A
  err : E → Result E A

-- `if (!test) throw thrown;`
abbrev pub guard {κ} : {E : Type κ} → Bool → E → Result E (Unit {0})
guard false thrown = err thrown
guard true thrown = ok tt

pub Result-cases {ℓ κ} :
    {E : Type κ} {A : Type ℓ} (r : Result E A) → ((a : A) × (r ≡ ok a)) ⊎ ((e : E) × (r ≡ err e))
Result-cases (err e) = inr (e, refl)
Result-cases (ok a) = inl (a, refl)

infixl 5 ◌>>=◌
abbrev pub ◌>>=◌ {κ ℓ μ} :
    {E : Type κ} {A : Type ℓ} {B : Type μ} → Result E A → (A → Result E B) → Result E B
err thrown >>= next = err thrown
ok x >>= next = next x

-- A statement, and then the rest.
infixl 5 ◌>>◌
abbrev pub ◌>>◌ {κ ℓ} : {E : Type κ} {A : Type ℓ} → Result E (Unit {0}) → Result E A → Result E A
statement >> rest = statement >>= λ _. rest

-- What a bind that succeeds went through.
pub >>=-eq-ok {κ ℓ μ} :
    {E : Type κ} {A : Type ℓ} {B : Type μ} (r : Result E A) (next : A → Result E B) {y : B}
    → (r >>= next) ≡ ok y
    → (x : A) × (r ≡ ok x) × (next x ≡ ok y)
>>=-eq-ok (err thrown) next done = cc
>>=-eq-ok (ok x) next done = (x, refl, done)

-- Where the run returns, its result has `Q`.
abbrev pub Ensures {κ ℓ μ} : {E : Type κ} {A : Type ℓ} → (A → Type μ) → Result E A → Type μ
Ensures Q (err thrown) = Unit
Ensures Q (ok x) = Q x

pub Ensures-bind {κ ℓ μ} :
    {E : Type κ} {A B : Type ℓ} (Q : A → Type μ) (R : B → Type μ) (r : Result E A)
    (next : A → Result E B)
    → Ensures Q r
    → ((x : A) → Q x → Ensures R (next x))
    → Ensures R (r >>= next)
Ensures-bind Q R (err thrown) next h k = tt
Ensures-bind Q R (ok x) next h k = k x h

-- What a run gives need not be known for what follows it.
pub Ensures-after {κ ℓ μ} :
    {E : Type κ} {A B : Type ℓ} (R : B → Type μ) (r : Result E A) (next : A → Result E B)
    → ((x : A) → Ensures R (next x))
    → Ensures R (r >>= next)
Ensures-after R (err thrown) next k = tt
Ensures-after R (ok x) next k = k x
