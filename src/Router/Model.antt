-- ===== src/Router/Model.antt =====
-- `setModel` of obligatory_assignment/src/router.c.
use in_lib.Base.{
  ℕ, ◌≡◌, refl, Bool, true, false, Option, none, some, List, if◌then◌else◌, ◌==◌, set, get_or-set,
  Status, success, failure, inl, inr, Option-cases, ◌⊎◌,
}
use in_lib.Base.Int.{ℤ}
use in_lib.Router.{
  Router, router_at, no_router, find_router_id, find_router_id-lt, find_router_id-set,
}

-- Whether the call that makes room for the name succeeds: `malloc` for a router without a model, and
-- `realloc` for one that has a model.
abbrev pub has_room : Bool → Bool → Option (List ℕ) → Bool
has_room malloc_ok realloc_ok none = malloc_ok
has_room malloc_ok realloc_ok (some m) = realloc_ok

-- The part of `setModel` behind the search: `hitIdx` is `i`.
unfoldable pub set_model_at : Bool → Bool → List Router → ℕ → List ℕ → Status × List Router
set_model_at malloc_ok realloc_ok rs i name =
    let r = router_at rs i in
    if has_room malloc_ok realloc_ok r.producer_model
    then (success, set rs i (record r { producer_model = some name }))
    else (failure, rs)

unfoldable pub set_model : Bool → Bool → List Router → ℤ → List ℕ → Status × List Router
unfolding set_model_at
set_model malloc_ok realloc_ok rs id name = elim (find_router_id rs id) [
  | none ↦ (failure, rs)
  | some i ↦ set_model_at malloc_ok realloc_ok rs i name
]

has_room_same : (ok : Bool) (model : Option (List ℕ)) → has_room ok ok model ≡ ok
has_room_same ok none = refl
has_room_same ok (some m) = refl

-- With memory, setting the model of a router that is in the array succeeds. The router has the name
-- as its model and is otherwise as before, the other routers are as before, and every search for an
-- id gives what it gave.
pub set_model_sets :
    (rs : List Router) (id : ℤ) (i : ℕ) (name : List ℕ)
    → find_router_id rs id ≡ some i
    → (after : List Router) × (set_model true true rs id name ≡ (success, after))
      × ((j : ℕ)
          → router_at after j ≡ (
              if i == j
              then record (router_at rs i) { producer_model = some name }
              else router_at rs j))
      × ((other : ℤ) → find_router_id after other ≡ find_router_id rs other)
unfolding set_model
set_model_sets rs id i name hit =
    let r : Router = record (router_at rs i) { producer_model = some name } in
    (
      set rs i r,
      rw (set_model, hit, set_model_at, has_room_same true (router_at rs i).producer_model) refl,
      λ j. get_or-set rs i j r no_router (find_router_id-lt rs id i hit),
      λ other. find_router_id-set rs i r other refl,
    )

-- An unknown id is refused, and so is every call without memory; the routers stay as they are.
pub set_model_refuses :
    (malloc_ok realloc_ok : Bool) (rs : List Router) (id : ℤ) (name : List ℕ)
    → (find_router_id rs id ≡ none) ⊎ ((malloc_ok ≡ false) × (realloc_ok ≡ false))
    → set_model malloc_ok realloc_ok rs id name ≡ (failure, rs)
unfolding set_model
set_model_refuses malloc_ok realloc_ok rs id name (inl missing) = rw (set_model, missing) refl
set_model_refuses malloc_ok realloc_ok rs id name (inr (no_malloc, no_realloc)) =
    elim (Option-cases (find_router_id rs id)) [
      | inl missing ↦ rw (set_model, missing) refl
      | inr (i, hit) ↦
          rw (no_malloc, no_realloc)
            (rw (set_model, hit, set_model_at, has_room_same false (router_at rs i).producer_model)
              refl)
    ]
