-- ===== src/Base/SwapRemove.antt =====
-- Removal of an element whose place the last one takes, on lists under native indices.
use Prim.Native.Nat.{ℕ, zero, suc, ◌≤◌, ◌<◌}
use mathlib.Core.Path.{◌≡◌, refl, ap}
use mathlib.Core.Logic.{◌⊎◌, inl, inr}
use mathlib.Core.List.{List, [], ◌∷◌, ◌++◌}
use native.Mathlib.Omega.{arith}
use in_lib.Base.Lists.{
  length, set, get_or, take, length-append, take-length-append, set-append_left, length-set,
}

abbrev pub last_or {ℓ} : {A : Type ℓ} → A → List A → A
last_or d [] = d
last_or d (x ∷ xs) = last_or x xs

abbrev pub init {ℓ} : {A : Type ℓ} → List A → List A
init [] = []
init (x ∷ []) = []
init (x ∷ y ∷ ys) = x ∷ init (y ∷ ys)

abbrev pub swap_remove {ℓ} : {A : Type ℓ} → List A → ℕ → A → List A
swap_remove xs i d = init (set xs i (last_or d xs))

pub last_or-concat {ℓ} : {A : Type ℓ} (d l : A) (ys : List A) → last_or d (ys ++ l ∷ []) ≡ l
last_or-concat d l [] = refl
last_or-concat d l (y ∷ ys) = last_or-concat y l ys

pub init-concat {ℓ} : {A : Type ℓ} (l : A) (ys : List A) → init (ys ++ l ∷ []) ≡ ys
init-concat l [] = refl
init-concat l (y ∷ []) = refl
init-concat l (y ∷ z ∷ ys) = ap (λ zs. y ∷ zs) (init-concat l (z ∷ ys))

-- Overwriting any element by the last one keeps the last one.
pub set-concat {ℓ} :
    {A : Type ℓ} (ys : List A) (l : A) (i : ℕ)
    → i ≤ length ys
    → (zs : List A) × (set (ys ++ l ∷ []) i l ≡ zs ++ l ∷ []) × (length zs ≡ length ys)
set-concat [] l zero h = ([], refl, refl)
set-concat [] l (suc i) h = absurd (omega arith)
set-concat (y ∷ ys) l zero h = (l ∷ ys, refl, refl)
set-concat (y ∷ ys) l (suc i) h =
    let (zs, e, n) = set-concat ys l i (omega arith) in (y ∷ zs, ap (λ s. y ∷ s) e, ap suc n)

pub set-concat_last {ℓ} :
    {A : Type ℓ} (ys : List A) (l : A) → set (ys ++ l ∷ []) (length ys) l ≡ ys ++ l ∷ []
set-concat_last [] l = refl
set-concat_last (y ∷ ys) l = ap (λ s. y ∷ s) (set-concat_last ys l)

pub swap_remove-concat_last {ℓ} :
    {A : Type ℓ} (ys : List A) (l d : A) → swap_remove (ys ++ l ∷ []) (length ys) d ≡ ys
swap_remove-concat_last ys l d = rw (last_or-concat d l ys, set-concat_last ys l) (init-concat l ys)

pub snoc-cases {ℓ} :
    {A : Type ℓ} (xs : List A) → (xs ≡ []) ⊎ ((ys : List A) × (l : A) × (xs ≡ ys ++ l ∷ []))
snoc-cases [] = inl refl
snoc-cases (x ∷ xs) = elim (snoc-cases xs) [
  | inl e ↦ inr ([], x, ap (λ s. x ∷ s) e)
  | inr (ys, l, e) ↦ inr (x ∷ ys, l, ap (λ s. x ∷ s) e)
]

pub length-concat {ℓ} : {A : Type ℓ} (ys : List A) (l : A) → length (ys ++ l ∷ []) ≡ suc (length ys)
length-concat ys l = omega (arith, length-append ys (l ∷ []))

pub get_or-concat_last {ℓ} :
    {A : Type ℓ} (ys : List A) (l d : A) → get_or (ys ++ l ∷ []) (length ys) d ≡ l
get_or-concat_last [] l d = refl
get_or-concat_last (y ∷ ys) l d = get_or-concat_last ys l d

pub swap_remove-concat {ℓ} :
    {A : Type ℓ} (ys : List A) (l d : A) (i : ℕ)
    → i < length ys
    → swap_remove (ys ++ l ∷ []) i d ≡ set ys i l
swap_remove-concat ys l d i h =
    rw (last_or-concat d l ys, set-append_left ys i l (l ∷ []) h) (init-concat l (set ys i l))

-- Dropping the last element after it was written over another is the removal by swapping.
pub take-set_concat {ℓ} :
    {A : Type ℓ} (ys : List A) (l d : A) (i : ℕ)
    → i < length ys
    → take (length ys) (set (ys ++ l ∷ []) i l) ≡ swap_remove (ys ++ l ∷ []) i d
take-set_concat ys l d i h =
    rw (swap_remove-concat ys l d i h, set-append_left ys i l (l ∷ []) h)
      (rw (← length-set ys i l) (take-length-append (set ys i l) (l ∷ [])))

length-init {ℓ} : {A : Type ℓ} (xs : List A) → 0 < length xs → suc (length (init xs)) ≡ length xs
length-init [] h = absurd (omega (arith, h))
length-init (x ∷ []) h = refl
length-init (x ∷ y ∷ xs) h = ap suc (length-init (y ∷ xs) (omega arith))

pub length-swap_remove {ℓ} :
    {A : Type ℓ} (xs : List A) (i : ℕ) (d : A)
    → i < length xs
    → suc (length (swap_remove xs i d)) ≡ length xs
length-swap_remove xs i d h =
    let same = length-set xs i (last_or d xs) in
    omega (arith, same, length-init (set xs i (last_or d xs)) (omega (arith, h, same)))
