-- ===== src/Base/Outcomes.antt =====
-- How a call of the programs ends: with EXIT_SUCCESS and what it delivers, with EXIT_FAILURE, or in
-- what C leaves undefined, as an access out of bounds or a sum above INT_MAX.
use mathlib.Core.Path.{◌≡◌, refl, ap}
use mathlib.Core.Bool.{Bool, true, false}
use mathlib.Core.Option.{Option, none, some}
use in_lib.Base.Tests.{if◌then◌else◌}
use in_lib.Base.Results.{Status, success, failure}

pub data Outcome {ℓ} (A : Type ℓ) : Type ℓ where
  done : A → Outcome A
  failed : Outcome A
  undefined : Outcome A

infixl 5 ◌>>=◌
abbrev pub ◌>>=◌ {ℓ κ} : {A : Type ℓ} {B : Type κ} → Outcome A → (A → Outcome B) → Outcome B
done a >>= f = f a
failed >>= f = failed
undefined >>= f = undefined

-- An action that delivers its result by a status beside it.
abbrev pub by_status {ℓ} : {A : Type ℓ} → Status × A → Outcome A
by_status (success, a) = done a
by_status (failure, a) = failed

abbrev pub some_or_failed {ℓ} : {A : Type ℓ} → Option A → Outcome A
some_or_failed (some a) = done a
some_or_failed none = failed

pub bind-eq-done {ℓ κ} :
    {A : Type ℓ} {B : Type κ} (o : Outcome A) (f : A → Outcome B) (b : B)
    → (o >>= f) ≡ done b
    → (a : A) × (o ≡ done a) × (f a ≡ done b)
bind-eq-done (done a) f b h = (a, refl, h)
bind-eq-done failed f b h = cc
bind-eq-done undefined f b h = cc

pub bind-done {ℓ κ} :
    {A : Type ℓ} {B : Type κ} (o : Outcome A) (f : A → Outcome B) (a : A) (b : Outcome B)
    → o ≡ done a
    → f a ≡ b
    → (o >>= f) ≡ b
bind-done o f a b at then_b = rw at then_b

pub done_inj {ℓ} : {A : Type ℓ} {a b : A} → done a ≡ done b → a ≡ b
done_inj {a} h = ap (λ o. elim o [ done x ↦ x | failed ↦ a | undefined ↦ a ]) h

pub by_status-eq-done {ℓ} : {A : Type ℓ} (p : Status × A) (a : A) → by_status p ≡ done a → p.1 ≡ a
by_status-eq-done (success, b) a h = done_inj h
by_status-eq-done (failure, b) a h = cc

pub some_or_failed-eq-done {ℓ} :
    {A : Type ℓ} (o : Option A) (a : A) → some_or_failed o ≡ done a → o ≡ some a
some_or_failed-eq-done (some b) a h = ap some (done_inj h)
some_or_failed-eq-done none a h = cc

-- A guard that did not fail was passed.
pub if_done {ℓ} :
    {A : Type ℓ} (b : Bool) (o : Outcome A) (a : A)
    → (if b then o else failed) ≡ done a
    → o ≡ done a
if_done true o a h = h
if_done false o a h = cc

-- A sum, say, that had to be defined is.
pub if_defined {ℓ} :
    {A : Type ℓ} (b : Bool) (o : Outcome A) (a : A)
    → (if b then o else undefined) ≡ done a
    → o ≡ done a
if_defined true o a h = h
if_defined false o a h = cc

-- What a call delivers that ends with EXIT_SUCCESS.
abbrev pub returned {ℓ} : {A : Type ℓ} → Outcome A → Option A
returned (done a) = some a
returned failed = none
returned undefined = none

pub returned-eq-some {ℓ} : {A : Type ℓ} (o : Outcome A) (a : A) → returned o ≡ some a → o ≡ done a
returned-eq-some {A} (done b) a h =
    ap (λ (x : Option A). elim x [ none ↦ failed | some y ↦ done y ]) h
returned-eq-some failed a h = cc
returned-eq-some undefined a h = cc
