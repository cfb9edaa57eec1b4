-- ===== src/Command/Kept.antt =====
-- What the operations on the router array keep: compact slots, and the number of routers as a bound.
use in_lib.Base.{
  ℕ, zero, suc, ◌-◌, ◌≤◌, ◌<◌, ◌≡◌, refl, ap, Bool, ◌||◌, none, List, [], ◌∷◌, arith, length,
  length-set, set, take, Status, success, failure, All-get_or, All-set, Bool-cases, Option-cases,
  inl, inr,
}
use in_lib.Base.Int.{ℤ, pos}
use in_lib.Router.{
  Router, router_at, no_router, find_router_id, find_router_id-lt, find_free_neighbor,
}
use in_lib.Router.Slots.{IsCompact}
use in_lib.Router.Links.{add_link, link_at, AllCompact, add_link-AllCompact}
use in_lib.Router.Model.{set_model, set_model_at, has_room}
use in_lib.Router.Flags.{set_flag, bad_flag, bad_value}
use in_lib.Router.Deletion.References.{remove_reference, remove_references}
use in_lib.Router.Deletion.Array.{delete_router, delete_at, fill_hole, stays}
use in_lib.Router.Deletion.Compact.{delete_router-AllCompact}
use in_lib.Command.Invariant.{IsKept, Runs, Runs-kept}

-- `setFlag` and `setModel` write one router in place, or none, and leave its neighbors.
module _ (P : List Router → Type 0)
    (writes : (rs : List Router) (i : ℕ) (r : Router)
      → i < length rs
      → r.neighbors ≡ (router_at rs i).neighbors
      → P rs
      → P (set rs i r)) where
  set_flag-kept : (rs : List Router) (id flag value : ℤ) → P rs → P (set_flag rs id flag value).1
  unfolding set_flag
  set_flag-kept rs id flag value h = elim (Bool-cases (bad_flag flag || bad_value flag value)) [
    | inl bad ↦ rw (set_flag, bad) h
    | inr good ↦ elim (Option-cases (find_router_id rs id)) [
      | inl missing ↦ rw (set_flag, good, missing) h
      | inr (i, found) ↦
          rw (set_flag, good, found) (writes rs i _ (find_router_id-lt rs id i found) refl h)
    ]
  ]

  set_model-kept :
      (malloc_ok realloc_ok : Bool) (rs : List Router) (id : ℤ) (name : List ℕ)
      → P rs
      → P (set_model malloc_ok realloc_ok rs id name).1
  unfolding set_model set_model_at
  set_model-kept malloc_ok realloc_ok rs id name h = elim (Option-cases (find_router_id rs id)) [
    | inl missing ↦ rw (set_model, missing) h
    | inr (i, found) ↦
        elim (Bool-cases (has_room malloc_ok realloc_ok (router_at rs i).producer_model)) [
          | inl room ↦
              rw (set_model, found, set_model_at, room)
                (writes rs i _ (find_router_id-lt rs id i found) refl h)
          | inr full ↦ rw (set_model, found, set_model_at, full) h
        ]
  ]

writes-AllCompact :
    (rs : List Router) (i : ℕ) (r : Router)
    → i < length rs
    → r.neighbors ≡ (router_at rs i).neighbors
    → AllCompact rs
    → AllCompact (set rs i r)
writes-AllCompact rs i r lt same h =
    All-set (λ r. IsCompact r.neighbors) rs i r h
      (rw same (All-get_or (λ r. IsCompact r.neighbors) rs i no_router h lt))

-- Every operation on the routers keeps their slots compact.
AllCompact-IsKept : IsKept AllCompact
AllCompact-IsKept = record {
  flags = set_flag-kept AllCompact writes-AllCompact;
  models = set_model-kept AllCompact writes-AllCompact;
  links = add_link-AllCompact;
  deletions = delete_router-AllCompact;
}

length-remove_references :
    (id : ℤ) (rs : List Router) → length (remove_references id rs).1 ≡ length rs
unfolding remove_references
length-remove_references id [] = refl
length-remove_references id (r ∷ rs) = elim (Option-cases (remove_reference id r.neighbors)) [
  | inl stuck ↦ rw (remove_references, stuck) refl
  | inr (s, removed) ↦ rw (remove_references, removed) (ap suc (length-remove_references id rs))
]

length-take_le {ℓ} : {A : Type ℓ} (n : ℕ) (xs : List A) → length (take n xs) ≤ length xs
length-take_le zero xs = omega arith
length-take_le (suc n) [] = omega arith
length-take_le (suc n) (x ∷ xs) = omega (arith, length-take_le n xs)

length-fill_hole : (rs : List Router) (hit n : ℕ) → length (fill_hole rs hit n) ≤ length rs
unfolding fill_hole
length-fill_hole rs hit n =
    let freed = set rs hit (record (router_at rs hit) { producer_model = none }) in
    let filled = set freed hit (router_at freed n) in
    let size = length-set rs hit (record (router_at rs hit) { producer_model = none }) in
    elim (Bool-cases (stays hit n)) [
      | inl same ↦ rw (fill_hole, same) (omega (arith, length-take_le n freed, size))
      | inr moved ↦
          rw (fill_hole, moved)
            (omega (arith, length-take_le n filled, size, length-set freed hit (router_at freed n)))
    ]

length-delete_at :
    (realloc_ok : ℕ → Bool) (hit : ℕ) (p : Status × List Router)
    → length (delete_at realloc_ok hit p).1 ≤ length p.1
unfolding delete_at
length-delete_at realloc_ok hit (success, rs) = length-fill_hole rs hit (length rs - 1)
length-delete_at realloc_ok hit (failure, rs) = omega arith

length-delete_router :
    (realloc_ok : ℕ → Bool) (rs : List Router) (id : ℤ)
    → length (delete_router realloc_ok rs id).1 ≤ length rs
unfolding delete_router
length-delete_router realloc_ok rs id = elim (Option-cases (find_router_id rs id)) [
  | inl missing ↦ rw (delete_router, missing) (omega arith)
  | inr (hit, found) ↦
      rw (delete_router, found)
        (omega (
          arith,
          length-delete_at realloc_ok hit (remove_references id rs),
          length-remove_references id rs,
        ))
]

length-add_link :
    (rs : List Router) (from_router to_router : ℕ)
    → length (add_link rs from_router to_router).1 ≡ length rs
unfolding add_link link_at
length-add_link rs from_router to_router =
    elim (Option-cases (find_router_id rs (pos from_router))) [
      | inl missing ↦ rw (add_link, missing) refl
      | inr (i, found) ↦ elim (Option-cases (find_free_neighbor (router_at rs i).neighbors)) [
        | inl full ↦ rw (add_link, found, link_at, full) refl
        | inr (j, free) ↦ rw (add_link, found, link_at, free) (length-set rs i _)
      ]
    ]

-- No operation on the routers makes their number grow.
at_most-IsKept : (n : ℕ) → IsKept (λ rs. length rs ≤ n)
at_most-IsKept n = record {
  flags =
      set_flag-kept (λ rs. length rs ≤ n) (λ rs i r lt same h. omega (arith, h, length-set rs i r));
  models =
      set_model-kept (λ rs. length rs ≤ n)
        (λ rs i r lt same h. omega (arith, h, length-set rs i r));
  links = λ rs a b h. omega (arith, h, length-add_link rs a b);
  deletions = λ realloc_ok rs id h. omega (arith, h, length-delete_router realloc_ok rs id);
}

-- A run of command lines on routers with compact slots leaves routers with compact slots, which hold at
-- most ten neighbors each, and no more routers than there were.
pub Runs-bounds :
    (rs rs1 : List Router) → AllCompact rs → Runs rs rs1 → AllCompact rs1 × (length rs1 ≤ length rs)
Runs-bounds rs rs1 compact runs = (
  Runs-kept AllCompact AllCompact-IsKept rs rs1 compact runs,
  Runs-kept (λ rs2. length rs2 ≤ length rs) (at_most-IsKept (length rs)) rs rs1 (omega arith) runs,
)
