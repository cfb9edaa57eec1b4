-- ===== src/Base/Results.antt =====
-- What the C functions return, and the chaining of those that deliver a value when they succeed.
use mathlib.Core.Option.{Option, none, some}
use mathlib.Core.Bool.{Bool, true, false}
use in_lib.Base.Tests.{if◌then◌else◌}
use mathlib.Core.Path.{◌≡◌, refl, ap}

-- EXIT_SUCCESS and EXIT_FAILURE.
pub data Status : Type 0 where
  success failure : Status

-- A result that is delivered only on EXIT_SUCCESS: the rest runs if the step before succeeded.
infixl 5 ◌>>=◌ ◌>>◌
abbrev pub ◌>>=◌ {ℓ κ} : {A : Type ℓ} {B : Type κ} → Option A → (A → Option B) → Option B
some a >>= f = f a
none >>= f = none

abbrev pub ◌>>◌ {ℓ} : {B : Type ℓ} → Option (Unit {0}) → Option B → Option B
m >> k = m >>= λ _. k

-- A chain that delivers a value has gone through all of its steps.
pub bind-eq-some {ℓ κ} :
    {A : Type ℓ} {B : Type κ} (o : Option A) (f : A → Option B) (b : B)
    → (o >>= f) ≡ some b
    → (a : A) × (o ≡ some a) × (f a ≡ some b)
bind-eq-some (some a) f b h = (a, refl, h)
bind-eq-some none f b h = cc

pub some_inj {ℓ} : {A : Type ℓ} {a b : A} → some a ≡ some b → a ≡ b
some_inj {a} h = ap (λ o. elim o [ none ↦ a | some x ↦ x ]) h

pub bind-some {ℓ κ} :
    {A : Type ℓ} {B : Type κ} (o : Option A) (f : A → Option B) (a : A) (b : Option B)
    → o ≡ some a
    → f a ≡ b
    → (o >>= f) ≡ b
bind-some o f a b at then_b = rw at then_b

-- A guard that did not fail was passed.
pub if_some {ℓ} :
    {A : Type ℓ} (b : Bool) (o : Option A) (a : A) → (if b then o else none) ≡ some a → o ≡ some a
if_some true o a h = h
if_some false o a h = cc
