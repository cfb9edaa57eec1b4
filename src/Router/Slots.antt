-- ===== src/Router/Slots.antt =====
-- The neighbor slots of a router: the used ones stand in front. What `findFreeNeighbor` and writes
-- to the slots do to the list of neighbors that they hold.
use in_lib.Base.{
  ℕ, zero, suc, ◌+◌, ◌<◌, ◌≡◌, refl, ap, none, some, List, [], ◌∷◌, ◌++◌, arith, length, get_or,
  set, replicate,
}
use in_lib.Router.{Slot, max_neighbors, find_free_neighbor}

-- The slots that hold the neighbors `xs`, followed by `k` free ones.
abbrev pub slots_of : List ℕ → ℕ → List Slot
slots_of [] k = replicate k none
slots_of (x ∷ xs) k = some x ∷ slots_of xs k

-- What the loops over the slots see: they stop at the first free one.
abbrev pub listed : List Slot → List ℕ
listed [] = []
listed (none ∷ s) = []
listed (some n ∷ s) = n ∷ listed s

pub listed-slots_of : (xs : List ℕ) (k : ℕ) → listed (slots_of xs k) ≡ xs
listed-slots_of [] zero = refl
listed-slots_of [] (suc k) = refl
listed-slots_of (x ∷ xs) k = ap (λ ys. x ∷ ys) (listed-slots_of xs k)

pub length-slots_of : (xs : List ℕ) (k : ℕ) → length (slots_of xs k) ≡ length xs + k
length-slots_of [] zero = omega arith
length-slots_of [] (suc k) = omega (arith, length-slots_of [] k)
length-slots_of (x ∷ xs) k = omega (arith, length-slots_of xs k)

pub find_free_neighbor-slots_of :
    (xs : List ℕ) (k : ℕ) → find_free_neighbor (slots_of xs (suc k)) ≡ some (length xs)
unfolding find_free_neighbor
find_free_neighbor-slots_of [] k = refl
find_free_neighbor-slots_of (x ∷ xs) k = ground (arith, find_free_neighbor-slots_of xs k)

pub find_free_neighbor_full : (xs : List ℕ) → find_free_neighbor (slots_of xs 0) ≡ none
unfolding find_free_neighbor
find_free_neighbor_full [] = refl
find_free_neighbor_full (x ∷ xs) = ground (arith, find_free_neighbor_full xs)

-- Writing the first free slot lists one neighbor more.
pub set-slots_of_free :
    (xs : List ℕ) (k v : ℕ)
    → set (slots_of xs (suc k)) (length xs) (some v) ≡ slots_of (xs ++ v ∷ []) k
set-slots_of_free [] k v = refl
set-slots_of_free (x ∷ xs) k v = ap (λ s. some x ∷ s) (set-slots_of_free xs k v)

-- Freeing the last used slot lists one neighbor less.
pub set-slots_of_last :
    (xs : List ℕ) (l k : ℕ) → set (slots_of (xs ++ l ∷ []) k) (length xs) none ≡ slots_of xs (suc k)
set-slots_of_last [] l k = refl
set-slots_of_last (x ∷ xs) l k = ap (λ s. some x ∷ s) (set-slots_of_last xs l k)

pub get_or-slots_of_last :
    (xs : List ℕ) (l k : ℕ) → get_or (slots_of (xs ++ l ∷ []) k) (length xs) none ≡ some l
get_or-slots_of_last [] l k = refl
get_or-slots_of_last (x ∷ xs) l k = get_or-slots_of_last xs l k

-- Overwriting a used slot replaces that neighbor.
pub set-slots_of :
    (xs : List ℕ) (i v k : ℕ)
    → i < length xs
    → set (slots_of xs k) i (some v) ≡ slots_of (set xs i v) k
set-slots_of [] i v k h = elim h [ ]
set-slots_of (x ∷ xs) zero v k h = refl
set-slots_of (x ∷ xs) (suc i) v k h = ap (λ s. some x ∷ s) (set-slots_of xs i v k (omega arith))

-- The invariant of a router's slots: ten of them, the used ones in front.
abbrev pub IsCompact : List Slot → Type 0
IsCompact s = (xs : List ℕ) × (k : ℕ) × (s ≡ slots_of xs k) × (length xs + k ≡ max_neighbors)
