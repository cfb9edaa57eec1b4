-- ===== src/Router/Search/Returns.antt =====
-- The search ends on every network: the fuel of `existsRoute` never runs out.
use in_lib.Base.{
  ℕ, zero, suc, ◌<◌, ◌≤◌, ◌≡◌, refl, ◌∙◌, if_true, if_false, Bool, true, false, ◌||◌, Option, none,
  some, List, [], ◌∷◌, inl, inr, arith, Status, success, failure, length, set, ◌==◌, Bool-cases,
  Option-cases,
}
use in_lib.Base.Int.{pos}
use in_lib.Router.{Router, Slot, router_at, find_router_id}
use in_lib.Router.Search.{
  State, Scan, seen, full, free, scan_visited, Outcome, for_neighbors, expand, dfs, after_scan,
  exists_route,
}
use in_lib.Router.Search.Links.{vacant, Marks-set, vacant-replicate}
use in_lib.Router.Search.Run.{start}

-- A call ends, and gives no slot back.
abbrev Returns : State → Outcome → Type 0
Returns s r =
    (status : Status) × (s' : State) × (r ≡ some (status, s'))
    × (vacant s'.visited ≤ vacant s.visited)

-- The calls that start with less than `f` free slots end.
abbrev Total : ℕ → (ℕ → State → Outcome) → Type 0
Total f call = (n : ℕ) (s : State) → vacant s.visited < f → Returns s (call n s)

for_neighbors-Returns :
    (f : ℕ) (call : ℕ → State → Outcome) (ns : List Slot) (s : State)
    → Total f call
    → vacant s.visited < f
    → Returns s (for_neighbors call ns s)
unfolding for_neighbors
for_neighbors-Returns f call [] s total lt = (success, s, refl, omega arith)
for_neighbors-Returns f call (none ∷ ns) s total lt = (success, s, refl, omega arith)
for_neighbors-Returns f call (some n ∷ ns) s total lt =
    go (total n s lt) (λ s1. for_neighbors-Returns f call ns s1 total)
  where
    go :
        Returns s (call n s)
        → ((s1 : State) → vacant s1.visited < f → Returns s1 (for_neighbors call ns s1))
        → Returns s (for_neighbors call (some n ∷ ns) s)
    go (failure, s1, e, le) later = (failure, s1, rw (for_neighbors, e) refl, le)
    go (success, s1, e, le) later = elim (Bool-cases s1.found) [
      | inl stop ↦ (success, s1, rw (for_neighbors, e) (if_true s1.found _ _ stop), le)
      | inr on ↦
          let (status, s2, e2, le2) = later s1 (omega (arith, lt, le)) in
          (
            status,
            s2,
            rw (for_neighbors, e) (if_false s1.found _ _ on ∙ e2),
            omega (arith, le, le2),
          )
    ]

module _ (rs : List Router) (to_id : ℕ) where
  expand-Returns :
      (f : ℕ) (call : ℕ → State → Outcome) (from_id i : ℕ) (s : State)
      → Total f call
      → scan_visited from_id s.visited ≡ free i
      → vacant s.visited < suc f
      → Returns s (expand rs call from_id i s)
  unfolding expand
  expand-Returns f call from_id i s total at lt =
      let few = (Marks-set from_id i s.visited at).fewer in
      let s1 = record s { visited = set s.visited i (some from_id) } in
      elim (Option-cases (find_router_id rs (pos from_id))) [
        | inl missing ↦ (failure, s1, rw (expand, missing) refl, omega (arith, few))
        | inr (hit, found) ↦
            let (status, s2, e, le) =
              for_neighbors-Returns f call (router_at rs hit).neighbors s1 total
                (omega (arith, few, lt)) in
            (status, s2, rw (expand, found) e, omega (arith, few, le))
      ]

  dfs-Returns : (fuel : ℕ) → Total fuel (dfs fuel rs to_id)
  unfolding dfs
  dfs-Returns zero n s lt = absurd (omega (arith, lt))
  dfs-Returns (suc fuel) n s lt = elim (Bool-cases (s.found || (n == to_id))) [
    | inl stop ↦ (success, record s { found = true }, rw stop refl, omega arith)
    | inr on ↦ rw on (go (scan_visited n s.visited) refl (dfs-Returns fuel))
  ]
    where
      go :
          (k : Scan)
          → scan_visited n s.visited ≡ k
          → Total fuel (dfs fuel rs to_id)
          → Returns s (after_scan (expand rs (dfs fuel rs to_id) n) s k)
      go seen e deeper = (success, s, refl, omega arith)
      go full e deeper = (failure, s, refl, omega arith)
      go (free i) e deeper = expand-Returns fuel (dfs fuel rs to_id) n i s deeper e lt

  -- Whatever the links and the two ids are, the search ends: with an answer, or with EXIT_FAILURE.
  pub exists_route_returns :
      (malloc_ok : Bool) (from_id : ℕ)
      → (result : Option Bool) × (exists_route malloc_ok rs from_id to_id ≡ some result)
  unfolding exists_route
  exists_route_returns false from_id = (none, refl)
  exists_route_returns true from_id = ended (
      dfs-Returns (suc (length rs)) from_id (start rs)
        (omega (arith, vacant-replicate (length rs))))
    where
      ended :
          Returns (start rs) (dfs (suc (length rs)) rs to_id from_id (start rs))
          → (result : Option Bool) × (exists_route true rs from_id to_id ≡ some result)
      ended (success, s, e, le) = (some s.found, rw (exists_route, e) refl)
      ended (failure, s, e, le) = (none, rw (exists_route, e) refl)
