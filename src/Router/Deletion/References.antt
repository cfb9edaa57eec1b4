-- ===== src/Router/Deletion/References.antt =====
-- The loops of `deleteRouter` that delete the references to a router from the neighbor slots.
use in_lib.Base.{
  ℕ, zero, suc, ◌+◌, ◌-◌, ◌<◌, ◌≤◌, ◌≡◌, refl, ap, Bool, true, false, ◌&&◌, ◌||◌, Option, none,
  some, List, [], ◌∷◌, ◌++◌, arith, length, length-append, get_or, set, Status, success, failure,
  ◌==◌, if◌then◌else◌, Bool-cases, Option-cases, inl, inr, one_if,
}
use in_lib.Base.Int.{ℤ, pos}
use in_lib.Router.{Router, Slot, has_id, max_neighbors, find_free_neighbor}
use in_lib.Router.Slots.{
  slots_of, listed, listed-slots_of, find_free_neighbor-slots_of, set-slots_of, set-slots_of_last,
  get_or-slots_of_last,
}
use in_lib.Base.SwapRemove.{
  swap_remove, last_or-concat, init-concat, set-concat, swap_remove-concat_last, snoc-cases,
}
use mathlib.Core.Option

abbrev is_free : Slot → Bool
is_free none = true
is_free (some n) = false

-- The search of the inner loop: the first slot with the id, before the first free slot.
unfoldable pub find_reference : ℤ → List Slot → Option ℕ
find_reference id [] = none
find_reference id (none ∷ s) = none
find_reference id (some n ∷ s) =
    if has_id id n then some 0 else Option.map suc (find_reference id s)

-- `lastNeighbor` after its decrement; `none` is the failure of `findFreeNeighbor`.
unfoldable pub last_neighbor : List Slot → Option ℕ
last_neighbor s =
    if is_free (get_or s (max_neighbors - 1) none)
    then Option.map (λ i. i - 1) (find_free_neighbor s)
    else some (max_neighbors - 1)

-- The body behind the test on the id, at slot `i`.
unfoldable pub drop_reference : List Slot → ℕ → Option (List Slot)
unfolding last_neighbor
drop_reference s i =
    if (i == 0) && is_free (get_or s 1 none) || (i == max_neighbors - 1)
    then some (set s i none)
    else Option.map (λ last. set (set s i (get_or s last none)) last none) (last_neighbor s)

-- One round of the loop over the routers; `none` is the early EXIT_FAILURE.
unfoldable pub remove_reference : ℤ → List Slot → Option (List Slot)
unfolding find_reference drop_reference
remove_reference id s = elim (find_reference id s) [ none ↦ some s | some i ↦ drop_reference s i ]

unfoldable pub remove_references : ℤ → List Router → Status × List Router
unfolding remove_reference
remove_references id [] = (success, [])
remove_references id (r ∷ rs) =
    let (status, rest) = remove_references id rs in
    elim (remove_reference id r.neighbors) [
      | none ↦ (failure, r ∷ rs)
      | some s ↦ (status, record r { neighbors = s } ∷ rest)
    ]

-- The specification on the list of neighbors: the last one takes the place of the first one with
-- the id.
abbrev pub index_of : ℤ → List ℕ → Option ℕ
index_of id [] = none
index_of id (x ∷ xs) = if has_id id x then some 0 else Option.map suc (index_of id xs)

is_free-slots_of_used :
    (xs : List ℕ) (k i : ℕ) → i < length xs → is_free (get_or (slots_of xs k) i none) ≡ false
is_free-slots_of_used [] k i h = elim h [ ]
is_free-slots_of_used (x ∷ xs) k zero h = refl
is_free-slots_of_used (x ∷ xs) k (suc i) h = is_free-slots_of_used xs k i (omega arith)

is_free-slots_of :
    (xs : List ℕ) (k i : ℕ) → length xs ≤ i → is_free (get_or (slots_of xs k) i none) ≡ true
is_free-slots_of [] zero i h = refl
is_free-slots_of [] (suc k) zero h = refl
is_free-slots_of [] (suc k) (suc i) h = is_free-slots_of [] k i (omega arith)
is_free-slots_of (x ∷ xs) k zero h = absurd (omega arith)
is_free-slots_of (x ∷ xs) k (suc i) h = is_free-slots_of xs k i (omega arith)

module _ (ys : List ℕ) (l : ℕ) where
  abbrev filled : ℕ → List Slot
  filled k = slots_of (ys ++ l ∷ []) k

  length-filled : length (ys ++ l ∷ []) ≡ suc (length ys)
  length-filled = omega (arith, length-append ys (l ∷ []))

  last_neighbor-filled :
      (k : ℕ) → suc (length ys) + k ≡ max_neighbors → last_neighbor (filled k) ≡ some (length ys)
  unfolding last_neighbor
  last_neighbor-filled zero h =
      rw (is_free-slots_of_used (ys ++ l ∷ []) zero 9 (omega (arith, length-filled)))
        (ap (λ n. some n) (omega arith))
  last_neighbor-filled (suc k) h =
      rw (is_free-slots_of (ys ++ l ∷ []) (suc k) 9 (omega (arith, length-filled)))
        (rw find_free_neighbor-slots_of (ap (λ n. some n) (omega (arith, length-filled))))

  drop_last :
      (k : ℕ)
      → set (filled k) (length ys) none
        ≡ slots_of (swap_remove (ys ++ l ∷ []) (length ys) 0) (suc k)
  drop_last k = rw swap_remove-concat_last (set-slots_of_last ys l k)

  drop_middle :
      (k i : ℕ)
      → i ≤ length ys
      → set (set (filled k) i (some l)) (length ys) none
        ≡ slots_of (swap_remove (ys ++ l ∷ []) i 0) (suc k)
  drop_middle k i h =
      let (zs, e, n) = set-concat ys l i h in
      rw (last_or-concat 0 l ys, set-slots_of (ys ++ l ∷ []) i l k (omega (arith, length-filled)))
        (rw (e, init-concat l zs, ← n) (set-slots_of_last zs l k))

  abbrev only_or_last : ℕ → ℕ → Bool
  only_or_last k i = (i == 0) && is_free (get_or (filled k) 1 none) || (i == max_neighbors - 1)

  -- The code takes the short branch only for the last neighbor.
  short_branch :
      (k i : ℕ)
      → i ≤ length ys
      → suc (length ys) + k ≡ max_neighbors
      → only_or_last k i ≡ true
      → i ≡ length ys
  short_branch k i h n t = ground (arith, is_free-slots_of_used (ys ++ l ∷ []) k 1, length-filled)

  drop_reference-filled :
      (k i : ℕ)
      → i ≤ length ys
      → suc (length ys) + k ≡ max_neighbors
      → drop_reference (filled k) i ≡ some (slots_of (swap_remove (ys ++ l ∷ []) i 0) (suc k))
  unfolding drop_reference
  drop_reference-filled k i h n = elim (Bool-cases (only_or_last k i)) [
    | inl short ↦ rw short (rw (short_branch k i h n short) (ap (λ s. some s) (drop_last k)))
    | inr long ↦
        rw (long, last_neighbor-filled k n)
          (rw (get_or-slots_of_last ys l k) (ap (λ s. some s) (drop_middle k i h)))
  ]

pub index_of-lt : (id : ℤ) (xs : List ℕ) (i : ℕ) → index_of id xs ≡ some i → i < length xs
index_of-lt id [] i h = cc
index_of-lt id (x ∷ xs) i h = elim (Bool-cases (has_id id x)) [
  | inl hit ↦ ground arith
  | inr miss ↦ elim (Option-cases (index_of id xs)) [
    | inl nowhere ↦ ground arith
    | inr (j, e) ↦ ground (arith, index_of-lt id xs j)
  ]
]

find_reference-slots_of :
    (id : ℤ) (xs : List ℕ) (k : ℕ) → find_reference id (slots_of xs k) ≡ index_of id xs
unfolding find_reference
find_reference-slots_of id [] zero = refl
find_reference-slots_of id [] (suc k) = refl
find_reference-slots_of id (x ∷ xs) k = rw (find_reference-slots_of id xs k)

drop_reference-slots_of :
    (xs : List ℕ) (k i : ℕ)
    → i < length xs
    → length xs + k ≡ max_neighbors
    → drop_reference (slots_of xs k) i ≡ some (slots_of (swap_remove xs i 0) (suc k))
drop_reference-slots_of xs k i h n = elim (snoc-cases xs) [
  | inl empty ↦ absurd (omega (arith, ap length empty))
  | inr (ys, l, e) ↦
      let m = length-filled ys l in
      let m' = ap length e in rw e (drop_reference-filled ys l k i (omega arith) (omega arith))
]

-- The slots after the first reference to `id` was deleted.
abbrev pub slots_without : ℤ → List ℕ → ℕ → List Slot
slots_without id xs k = elim (index_of id xs) [
  | none ↦ slots_of xs k
  | some i ↦ slots_of (swap_remove xs i 0) (suc k)
]

-- On compact slots the code's search and its two branches are the removal of the first neighbor
-- with the id, whose place the last neighbor takes; `findFreeNeighbor` does not fail there.
pub remove_reference-slots_of :
    (id : ℤ) (xs : List ℕ) (k : ℕ)
    → length xs + k ≡ max_neighbors
    → remove_reference id (slots_of xs k) ≡ some (slots_without id xs k)
unfolding remove_reference
remove_reference-slots_of id xs k n = elim (Option-cases (index_of id xs)) [
  | inl absent ↦
      rw (find_reference-slots_of id xs k, remove_reference)
        (rw absent (rw (absent, slots_without)))
  | inr (i, e) ↦
      rw (find_reference-slots_of id xs k, remove_reference)
        (rw e (rw (e, slots_without) (drop_reference-slots_of xs k i (index_of-lt id xs i e) n)))
]

-- How many references to router `id` a list of neighbors has.
abbrev pub count : List ℕ → ℕ → ℕ
count [] id = 0
count (n ∷ rest) id = count rest id + one_if (id == n)

count-append :
    (id : ℕ) (front back : List ℕ) → count (front ++ back) id ≡ count back id + count front id
count-append id [] back = omega arith
count-append id (n ∷ front) back = omega (arith, count-append id front back)

-- Overwriting one place loses what stood there and gains the new id.
count-set :
    (id : ℕ) (ids : List ℕ) (place new : ℕ)
    → place < length ids
    → one_if (id == get_or ids place 0) + count (set ids place new) id
      ≡ one_if (id == new) + count ids id
count-set id [] place new inside = absurd (omega (arith, inside))
count-set id (n ∷ rest) zero new inside = omega arith
count-set id (n ∷ rest) (suc before) new inside =
    omega (arith, count-set id rest before new (omega (arith, inside)))

count-swap_remove_concat :
    (a : ℕ) (ys : List ℕ) (l i : ℕ)
    → i ≤ length ys
    → count (swap_remove (ys ++ l ∷ []) i 0) a + one_if (a == get_or (ys ++ l ∷ []) i 0)
      ≡ count (ys ++ l ∷ []) a
count-swap_remove_concat a ys l i h =
    let (zs, e, n) = set-concat ys l i h in
    let c = count-set a (ys ++ l ∷ []) i l (omega (arith, length-filled ys l)) in
    rw (last_or-concat 0 l ys) (
      rw (e, init-concat l zs)
        (omega (arith, rw e at c, count-append a zs (l ∷ []), count-append a ys (l ∷ []))))

count-swap_remove :
    (a : ℕ) (xs : List ℕ) (i : ℕ)
    → i < length xs
    → count (swap_remove xs i 0) a + one_if (a == get_or xs i 0) ≡ count xs a
count-swap_remove a xs i h = elim (snoc-cases xs) [
  | inl empty ↦ absurd (omega (arith, ap length empty))
  | inr (ys, l, e) ↦
      let m = length-filled ys l in
      let m' = ap length e in rw e (count-swap_remove_concat a ys l i (omega arith))
]

has_id-index_of :
    (id : ℕ) (xs : List ℕ) (i : ℕ) → index_of (pos id) xs ≡ some i → get_or xs i 0 ≡ id
has_id-index_of id [] i h = cc
has_id-index_of id (x ∷ xs) i h = elim (Bool-cases (id == x)) [
  | inl hit ↦ ground arith
  | inr miss ↦ elim (Option-cases (index_of (pos id) xs)) [
    | inl nowhere ↦ ground arith
    | inr (j, e) ↦ ground (arith, has_id-index_of id xs j)
  ]
]

index_of-count : (id : ℕ) (xs : List ℕ) → index_of (pos id) xs ≡ none → count xs id ≡ 0
index_of-count id [] h = refl
index_of-count id (x ∷ xs) h = elim (Bool-cases (id == x)) [
  | inl hit ↦ ground arith
  | inr miss ↦ ground (arith, index_of-count id xs)
]

-- Of the references to `id` one is deleted, the others stay: the loop breaks after the first. The
-- references to every other router are kept.
pub count-remove_reference :
    (id a : ℕ) (xs : List ℕ) (k : ℕ)
    → length xs + k ≡ max_neighbors
    → (s : List Slot) × (remove_reference (pos id) (slots_of xs k) ≡ some s)
      × (count (listed s) a ≡ count xs a - one_if (a == id))
count-remove_reference id a xs k n = elim (Option-cases (index_of (pos id) xs)) [
  | inl absent ↦ (
    slots_without (pos id) xs k,
    remove_reference-slots_of (pos id) xs k n,
    rw (absent, slots_without) (rw listed-slots_of (ground (arith, index_of-count id xs absent))),
  )
  | inr (i, e) ↦ (
    slots_without (pos id) xs k,
    remove_reference-slots_of (pos id) xs k n,
    rw (e, slots_without)
        (rw listed-slots_of (
          ground (
            arith,
            count-swap_remove a xs i (index_of-lt (pos id) xs i e),
            has_id-index_of id xs i e,
          ))),
  )
]
