-- ===== src/Router/Deletion/Compact.antt =====
-- `deleteRouter` keeps the slots of the routers compact.
use in_lib.Base.{
  ℕ, suc, ◌+◌, ◌-◌, ◌<◌, ◌≡◌, refl, Bool, none, some, List, [], ◌∷◌, map, arith, length, length-map,
  length-set, set, All-get_or, All-set, All-take, Bool-cases, Option-cases, inl, inr,
}
use in_lib.Base.Int.{ℤ}
use in_lib.Base.SwapRemove.{swap_remove, length-swap_remove}
use in_lib.Router.{Router, no_router, router_at, find_router_id, find_router_id-lt}
use in_lib.Router.Slots.{IsCompact}
use in_lib.Router.Links.{AllCompact}
use in_lib.Router.Deletion.References.{
  index_of, index_of-lt, slots_without, remove_reference, remove_reference-slots_of,
}
use in_lib.Router.Deletion.Array.{
  stays, fill_hole, delete_at, delete_router, strip, remove_references-AllCompact,
}

slots_without-IsCompact :
    (id : ℤ) (xs : List ℕ) (k : ℕ) → length xs + k ≡ 10 → IsCompact (slots_without id xs k)
slots_without-IsCompact id xs k n = elim (Option-cases (index_of id xs)) [
  | inl absent ↦ rw (slots_without, absent) (xs, k, refl, n)
  | inr (i, e) ↦
      rw (slots_without, e)
        (
          swap_remove xs i 0,
          suc k,
          refl,
          omega (arith, length-swap_remove xs i 0 (index_of-lt id xs i e), n),
        )
]

strip-IsCompact : (id : ℤ) (r : Router) → IsCompact r.neighbors → IsCompact (strip id r).neighbors
strip-IsCompact id r (xs, k, e, n) =
    let done : remove_reference id r.neighbors ≡ some (slots_without id xs k) =
      rw e (remove_reference-slots_of id xs k n) in
    rw (strip, done) (slots_without-IsCompact id xs k n)

map-strip-AllCompact : (id : ℤ) (rs : List Router) → AllCompact rs → AllCompact (map (strip id) rs)
map-strip-AllCompact id [] h = tt
map-strip-AllCompact id (r ∷ rs) h = (strip-IsCompact id r h.0, map-strip-AllCompact id rs h.1)

fill_hole-AllCompact :
    (rs : List Router) (hit n : ℕ)
    → hit < length rs
    → n < length rs
    → AllCompact rs
    → AllCompact (fill_hole rs hit n)
unfolding fill_hole
fill_hole-AllCompact rs hit n hit_lt n_lt h =
    let P = λ (r : Router). IsCompact r.neighbors in
    let freed = set rs hit (record (router_at rs hit) { producer_model = none }) in
    let kept = All-set P rs hit _ h (All-get_or P rs hit no_router h hit_lt) in
    elim (Bool-cases (stays hit n)) [
      | inl same ↦ rw (fill_hole, same) (All-take P n freed kept)
      | inr moved ↦
          rw (fill_hole, moved)
            (All-take P n _ (
              All-set P freed hit _ kept
                (All-get_or P freed n no_router kept (omega (arith, n_lt, length-set rs hit _)))))
    ]

-- `deleteRouter` keeps the slots of every router compact, whether it succeeds or not.
pub delete_router-AllCompact :
    (realloc_ok : ℕ → Bool) (rs : List Router) (id : ℤ)
    → AllCompact rs
    → AllCompact (delete_router realloc_ok rs id).1
unfolding delete_router
delete_router-AllCompact realloc_ok rs id h = elim (Option-cases (find_router_id rs id)) [
  | inl missing ↦ rw (delete_router, missing) h
  | inr (hit, found) ↦
      let lt = find_router_id-lt rs id hit found in
      let size = length-map (strip id) rs in
      rw (delete_router, found)
        (rw (remove_references-AllCompact id rs h, delete_at)
          (fill_hole-AllCompact (map (strip id) rs) hit (length (map (strip id) rs) - 1)
            (omega (arith, lt, size)) (omega (arith, lt, size)) (map-strip-AllCompact id rs h)))
]
