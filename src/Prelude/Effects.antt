-- ===== src/Prelude/Effects.antt =====
-- The result of a call whose environment is a script of events: it returns, it still waits when the
-- script ends, or it does something that C++ leaves undefined.
use mathlib.Core.Path.{◌≡◌, refl}

pub data Exec {ℓ} (A : Type ℓ) : Type ℓ where
  ret : A → Exec A
  waiting : Exec A
  fault : Exec A

infixl 5 ◌>>=◌
abbrev pub ◌>>=◌ {ℓ κ} : {A : Type ℓ} {B : Type κ} → Exec A → (A → Exec B) → Exec B
ret a >>= f = f a
waiting >>= f = waiting
fault >>= f = fault

pub >>=-eq-ret {ℓ κ} :
    {A : Type ℓ} {B : Type κ} (m : Exec A) (f : A → Exec B) {b : B}
    → (m >>= f) ≡ ret b
    → (a : A) × (m ≡ ret a) × (f a ≡ ret b)
>>=-eq-ret (ret a) f h = (a, refl, h)
>>=-eq-ret waiting f h = cc
>>=-eq-ret fault f h = cc

-- The call returns, with a result of which `P` holds.
abbrev pub Returns {ℓ} : {A : Type ℓ} → (A → Type 0) → Exec A → Type 0
Returns P (ret a) = P a
Returns P waiting = ⊥
Returns P fault = ⊥

-- What is true of the result, where there is one.
abbrev pub IfReturns {ℓ} : {A : Type ℓ} → (A → Type 0) → Exec A → Type 0
IfReturns P (ret a) = P a
IfReturns P _ = Unit

pub IfReturns-bind {ℓ κ} :
    {A : Type ℓ} {B : Type κ} (P : A → Type 0) (Q : B → Type 0) (x : Exec A) (f : A → Exec B)
    → IfReturns P x
    → ((a : A) → P a → IfReturns Q (f a))
    → IfReturns Q (x >>= f)
IfReturns-bind P Q (ret a) f h k = k a h
IfReturns-bind P Q waiting f h k = tt
IfReturns-bind P Q fault f h k = tt

pub IfReturns-anything {ℓ} : {A : Type ℓ} (x : Exec A) → IfReturns (λ a. Unit) x
IfReturns-anything (ret a) = tt
IfReturns-anything waiting = tt
IfReturns-anything fault = tt

pub Returns-both {ℓ} :
    {A : Type ℓ} (P Q : A → Type 0) (x : Exec A)
    → Returns P x
    → IfReturns Q x
    → (a : A) × (x ≡ ret a) × P a × Q a
Returns-both P Q (ret a) p q = (a, refl, p, q)
Returns-both P Q waiting p q = elim p [ ]
Returns-both P Q fault p q = elim p [ ]

-- The call does nothing undefined, and `P` holds of its result, where there is one.
abbrev pub Safely {ℓ} : {A : Type ℓ} → (A → Type 0) → Exec A → Type 0
Safely P (ret a) = P a
Safely P waiting = Unit
Safely P fault = ⊥

pub Safely-bind {ℓ κ} :
    {A : Type ℓ} {B : Type κ} (P : A → Type 0) (Q : B → Type 0) (x : Exec A) (f : A → Exec B)
    → Safely P x
    → ((a : A) → P a → Safely Q (f a))
    → Safely Q (x >>= f)
Safely-bind P Q (ret a) f h k = k a h
Safely-bind P Q waiting f h k = tt
Safely-bind P Q fault f h k = h

pub Safely-map {ℓ} :
    {A : Type ℓ} (P Q : A → Type 0) (x : Exec A) → Safely P x → ((a : A) → P a → Q a) → Safely Q x
Safely-map P Q (ret a) h k = k a h
Safely-map P Q waiting h k = tt
Safely-map P Q fault h k = h
