-- ===== src/Router/Deletion/Array.antt =====
-- `deleteRouter`: the router array without the router, in the last router's place.
use in_lib.Base.{
  ℕ, ◌-◌, ◌<◌, ◌≡◌, ◌≢◌, refl, ap, Bool, true, false, ◌&&◌, ◌||◌, none, some, List, [], ◌∷◌, ◌++◌,
  map, arith, length, set, take, Status, success, failure, ◌==◌, if◌then◌else◌, Bool-cases, inl,
  inr, length-set, length-map, set-append_left, take-length-append, set-set, take-set_concat_last,
}
use in_lib.Base.Int.{ℤ}
use in_lib.Base.SwapRemove.{
  swap_remove, swap_remove-concat, swap_remove-concat_last, snoc-cases, length-concat,
  get_or-concat_last,
}
use in_lib.Router.{Router, no_router, has_id, find_router_id, find_router_id-lt, router_at}
use in_lib.Router.Links.{AllCompact}
use in_lib.Router.Deletion.References.{
  remove_reference, remove_references, remove_reference-slots_of, slots_without,
}

-- The test under which the last router is not moved into the hole; `n` is *N after `--(*N)`.
abbrev pub stays : ℕ → ℕ → Bool
stays hit n = (hit == 0) && (n == 1) || (hit == n)

-- The array after the references are gone: `n` routers of it are left.
unfoldable pub fill_hole : List Router → ℕ → ℕ → List Router
fill_hole rs hit n =
    let freed = set rs hit (record (router_at rs hit) { producer_model = none }) in
    if stays hit n then take n freed else take n (set freed hit (router_at freed n))

-- The part of `deleteRouter` behind the loop over the references. `realloc_ok n` says whether
-- `realloc` delivers a block for `n` routers; its failure is reported after the array and *N have
-- changed.
unfoldable pub delete_at : (ℕ → Bool) → ℕ → Status × List Router → Status × List Router
unfolding fill_hole
delete_at realloc_ok hit (failure, rs) = (failure, rs)
delete_at realloc_ok hit (success, rs) =
    let n = length rs - 1 in (if realloc_ok n then success else failure, fill_hole rs hit n)

unfoldable pub delete_router : (ℕ → Bool) → List Router → ℤ → Status × List Router
unfolding delete_at remove_references
delete_router realloc_ok rs id = elim (find_router_id rs id) [
  | none ↦ (failure, rs)
  | some hit ↦ delete_at realloc_ok hit (remove_references id rs)
]

-- A router without its first reference to `id`.
abbrev pub strip : ℤ → Router → Router
strip id r = elim (remove_reference id r.neighbors) [
  | none ↦ r
  | some s ↦ record r { neighbors = s }
]

-- On compact slots the loop over the routers succeeds.
pub remove_references-AllCompact :
    (id : ℤ) (rs : List Router)
    → AllCompact rs
    → remove_references id rs ≡ (success, map (strip id) rs)
unfolding remove_references
remove_references-AllCompact id [] h = refl
remove_references-AllCompact id (r ∷ rs) h =
    let (xs, k, e, n) = h.0 in
    let done : remove_reference id r.neighbors ≡ some (slots_without id xs k) =
      rw e (remove_reference-slots_of id xs k n) in
    ground (arith, done, remove_references-AllCompact id rs h.1)

module _ (ys : List Router) (l : Router) where
  fill_hole-middle :
      (hit : ℕ)
      → hit < length ys
      → stays hit (length ys) ≡ false
      → fill_hole (ys ++ l ∷ []) hit (length ys) ≡ swap_remove (ys ++ l ∷ []) hit no_router
  unfolding fill_hole
  fill_hole-middle hit h moved =
      let freed = record (router_at (ys ++ l ∷ []) hit) { producer_model = none } in
      rw (moved, set-append_left ys hit freed (l ∷ []) h, ← length-set ys hit freed)
        (rw get_or-concat_last (
          rw (← set-append_left ys hit freed (l ∷ []) h, set-set (ys ++ l ∷ []) hit freed l)
            (rw (length-set ys hit freed, swap_remove-concat ys l no_router hit h)
              (rw (set-append_left ys hit l (l ∷ []) h, ← length-set ys hit l)
                (take-length-append (set ys hit l) (l ∷ []))))))

  fill_hole-last :
      fill_hole (ys ++ l ∷ []) (length ys) (length ys)
      ≡ swap_remove (ys ++ l ∷ []) (length ys) no_router
  unfolding fill_hole
  fill_hole-last =
      let same : stays (length ys) (length ys) ≡ true = ground arith in
      rw (same, swap_remove-concat_last ys l no_router) (take-set_concat_last ys l _)

fill_hole-swap_remove :
    (rs : List Router) (hit : ℕ)
    → hit < length rs
    → (hit ≡ 0 → length rs ≢ 2)
    → fill_hole rs hit (length rs - 1) ≡ swap_remove rs hit no_router
fill_hole-swap_remove rs hit lt not_first_of_two = elim (snoc-cases rs) [
  | inl empty ↦ absurd (omega (arith, ap length empty))
  | inr (ys, l, e) ↦
      let n = ap length e in
      let m = length-concat ys l in
      let last : length rs - 1 ≡ length ys = omega arith in
      elim (Bool-cases (hit == length ys)) [
        | inl at_end ↦
            let at : hit ≡ length ys = ground arith in rw (last, at, e) (fill_hole-last ys l)
        | inr inside ↦
            rw (last, e)
              (fill_hole-middle ys l hit (ground arith) (ground (arith, not_first_of_two)))
      ]
]

module _ (realloc_ok : ℕ → Bool) (rs : List Router) (id : ℤ) where
  -- `deleteRouter` refuses an unknown id and changes nothing.
  pub delete_router_unknown :
      find_router_id rs id ≡ none → delete_router realloc_ok rs id ≡ (failure, rs)
  unfolding delete_router
  delete_router_unknown missing = rw (missing, delete_router)

  -- Where the router is not the first of exactly two, the array that is left is the old one without
  -- it, the last router in its place, and without the first reference to its id in every router. The
  -- status is that of the final `realloc`.
  pub delete_router_removes :
      (hit : ℕ)
      → AllCompact rs
      → find_router_id rs id ≡ some hit
      → (hit ≡ 0 → length rs ≢ 2)
      → delete_router realloc_ok rs id ≡ (
        if realloc_ok (length rs - 1) then success else failure,
        swap_remove (map (strip id) rs) hit no_router,
      )
  unfolding delete_router
  delete_router_removes hit h found not_first_of_two =
      let n = length-map (strip id) rs in
      let lt = find_router_id-lt rs id hit found in
      rw (found, delete_router)
        (rw (remove_references-AllCompact id rs h, delete_at)
          (rw n (
            ap (λ rest. (if realloc_ok (length rs - 1) then success else failure, rest))
              (rw (← n) (
                fill_hole-swap_remove (map (strip id) rs) hit (omega arith)
                  (λ z. rw n (not_first_of_two z)))))))

  -- The test for "the only router" reads *N after its decrement, so of exactly two routers the first
  -- cannot be deleted: it stays, with the model NULL, and the second is lost.
  pub delete_router_first_of_two :
      (a b : Router)
      → rs ≡ a ∷ b ∷ []
      → AllCompact rs
      → has_id id a.router_id ≡ true
      → (delete_router realloc_ok rs id).1 ≡ record (strip id a) { producer_model = none } ∷ []
  unfolding delete_router find_router_id
  delete_router_first_of_two a b e h hit =
      let found : find_router_id rs id ≡ some 0 = rw e (rw hit) in
      let done = remove_references-AllCompact id rs h in
      rw (found, delete_router) (rw (done, delete_at) (rw e refl))
