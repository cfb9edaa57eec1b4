-- ===== src/Router.antt =====
-- obligatory_assignment/include/router.h and src/router.c: the router array and the searches in it.
-- The children hold one group of operations each, with what is proved of them.
pub mod Slots
pub mod Links
pub mod Deletion
pub mod Flags
pub mod Model
pub mod Search
pub mod Tests
use in_lib.Base.{
  ℕ, zero, suc, ◌<◌, ◌≡◌, inl, inr, arith, Bool, false, Option, none, some, List, [], ◌∷◌, ◌==◌,
  if◌then◌else◌, get_or, set, refl, length, Bool-cases, Option-cases,
}
use in_lib.Base.Int.{ℤ, pos, negsuc}
use mathlib.Core.Option

-- MAX_NEIGHBORS.
abbrev pub max_neighbors : ℕ
max_neighbors = 10

-- One element of `int neighbors[MAX_NEIGHBORS]`: `none` is -1, the mark of a free slot. All other
-- values that the program stores there are an `unsigned char`.
abbrev pub Slot : Type 0
Slot = Option ℕ

-- `struct Router`. The producer model is the string's bytes, and `none` is NULL.
pub record Router : Type 0 where
  pub router_id : ℕ
  pub flag : ℕ
  pub producer_model : Option (List ℕ)
  pub neighbors : List Slot

-- The value that stands for a read past the array: no index that the code computes reaches it.
abbrev pub no_router : Router
no_router = record { router_id = 0; flag = 0; producer_model = none; neighbors = [] }

-- `((int)routerArray[i].routerId) == routerId`.
abbrev pub has_id : ℤ → ℕ → Bool
has_id (pos n) id = n == id
has_id (negsuc n) id = false

-- `findRouterId`: the first index with the id. `none` is *hitIdx == -1 and EXIT_FAILURE.
unfoldable pub find_router_id : List Router → ℤ → Option ℕ
find_router_id [] id = none
find_router_id (r ∷ rs) id =
    if has_id id r.router_id then some 0 else Option.map suc (find_router_id rs id)

-- `findFreeNeighbor`: the first free slot.
unfoldable pub find_free_neighbor : List Slot → Option ℕ
find_free_neighbor [] = none
find_free_neighbor (none ∷ s) = some 0
find_free_neighbor (some n ∷ s) = Option.map suc (find_free_neighbor s)

abbrev pub router_at : List Router → ℕ → Router
router_at rs i = get_or rs i no_router

pub find_router_id-lt :
    (rs : List Router) (id : ℤ) (i : ℕ) → find_router_id rs id ≡ some i → i < length rs
unfolding find_router_id
find_router_id-lt [] id i h = cc
find_router_id-lt (r ∷ rs) id i h = elim (Bool-cases (has_id id r.router_id)) [
  | inl hit ↦ ground arith
  | inr miss ↦ elim (Option-cases (find_router_id rs id)) [
    | inl nowhere ↦ ground arith
    | inr (j, e) ↦ ground (arith, find_router_id-lt rs id j)
  ]
]

-- A write that keeps the id of a router keeps every search for an id.
pub find_router_id-set :
    (rs : List Router) (i : ℕ) (r : Router) (id : ℤ)
    → r.router_id ≡ (router_at rs i).router_id
    → find_router_id (set rs i r) id ≡ find_router_id rs id
unfolding find_router_id
find_router_id-set [] i r id e = refl
find_router_id-set (q ∷ rs) zero r id e = rw e refl
find_router_id-set (q ∷ rs) (suc i) r id e = rw (find_router_id-set rs i r id e) refl
