-- ===== src/Common/Results.antt =====
-- C++ calls that may throw, or have no defined behaviour.
use mathlib.Core.Path.{◌≡◌, refl}
use mathlib.Core.Option.{Option, none, some}

-- `undefined` is no exception: the code reads or erases out of range there.
-- `out_of_fuel` is no outcome of the code: a loop of the model was given too few rounds.
pub data Error : Type 0 where
  runtime_error out_of_range bad_optional_access undefined out_of_fuel : Error

pub data Result {ℓ} (A : Type ℓ) : Type ℓ where
  err : Error → Result A
  ok : A → Result A

-- A call, and what the code goes on to do with its value.
infixl 5 ◌>>=◌
abbrev pub ◌>>=◌ {κ ℓ} : {A : Type κ} {B : Type ℓ} → Result A → (A → Result B) → Result B
err problem >>= next = err problem
ok a >>= next = next a

-- `std::optional::value`
abbrev pub value {ℓ} : {A : Type ℓ} → Option A → Result A
value none = err Error.bad_optional_access
value (some a) = ok a

-- The outcome is a value of which `P` holds.
abbrev pub Returns {ℓ} : {A : Type ℓ} → (A → Type 0) → Result A → Type 0
Returns P (ok a) = P a
Returns P (err e) = ⊥

pub Returns-bind {ℓ κ} :
    {A : Type ℓ} {B : Type κ} (P : A → Type 0) (Q : B → Type 0) (m : Result A) (f : A → Result B)
    → Returns P m
    → ((a : A) → P a → Returns Q (f a))
    → Returns Q (m >>= f)
Returns-bind P Q (ok a) f h k = k a h
Returns-bind P Q (err e) f h k = absurd h

-- A chain that returns went through its first call.
pub >>=-eq-ok {κ ℓ} :
    {A : Type κ} {B : Type ℓ} (first : Result A) (next : A → Result B) {out : B}
    → (first >>= next) ≡ ok out
    → (a : A) × (first ≡ ok a) × (next a ≡ ok out)
>>=-eq-ok (err problem) next e = cc
>>=-eq-ok (ok a) next e = (a, refl, e)

pub ok-injective {ℓ} : {A : Type ℓ} {a b : A} → ok a ≡ ok b → a ≡ b
ok-injective e = cc

pub Returns-map {ℓ} :
    {A : Type ℓ} (P Q : A → Type 0) (m : Result A)
    → ((a : A) → P a → Q a)
    → Returns P m
    → Returns Q m
Returns-map P Q (ok a) k h = k a h
Returns-map P Q (err e) k h = absurd h

pub Returns-both {ℓ} :
    {A : Type ℓ} (P Q R : A → Type 0) (m : Result A)
    → ((a : A) → P a → Q a → R a)
    → Returns P m
    → Returns Q m
    → Returns R m
Returns-both P Q R (ok a) f p q = f a p q
Returns-both P Q R (err e) f p q = p

-- The outcome is a value of which `P` holds, or an exception: never undefined behaviour.
abbrev pub Safely {ℓ} : {A : Type ℓ} → (A → Type 0) → Result A → Type 0
Safely P (ok a) = P a
Safely P (err Error.undefined) = ⊥
Safely P (err Error.runtime_error) = Unit {0}
Safely P (err Error.out_of_range) = Unit {0}
Safely P (err Error.bad_optional_access) = Unit {0}
Safely P (err Error.out_of_fuel) = ⊥

-- A call either fails or leaves a result with the property.
abbrev pub IfReturns : {A : Type 0} → (A → Type 0) → Result A → Type 0
IfReturns P (ok a) = P a
IfReturns P (err e) = Unit {0}

pub IfReturns-bind :
    {A B : Type 0} (Q : B → Type 0) (m : Result A) (f : A → Result B)
    → ((a : A) → IfReturns Q (f a))
    → IfReturns Q (m >>= f)
IfReturns-bind Q (ok a) f k = k a
IfReturns-bind Q (err e) f k = tt

pub IfReturns-step :
    {A B : Type 0} (P : A → Type 0) (Q : B → Type 0) (m : Result A) (f : A → Result B)
    → IfReturns P m
    → ((a : A) → P a → IfReturns Q (f a))
    → IfReturns Q (m >>= f)
IfReturns-step P Q (ok a) f h k = k a h
IfReturns-step P Q (err e) f h k = tt

pub IfReturns-map :
    {A : Type 0} (P Q : A → Type 0) (m : Result A)
    → ((a : A) → P a → Q a)
    → IfReturns P m
    → IfReturns Q m
IfReturns-map P Q (ok a) k h = k a h
IfReturns-map P Q (err e) k h = tt
