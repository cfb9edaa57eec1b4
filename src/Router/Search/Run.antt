-- ===== src/Router/Search/Run.antt =====
-- The search ends: on a network whose links lead to routers every call succeeds.
use in_lib.Base.{
  ℕ, zero, suc, ◌<◌, ◌≤◌, ◌≡◌, refl, true, false, ◌||◌, none, some, List, [], ◌∷◌, inl, inr, arith,
  success, length, set, replicate, ◌==◌, Bool-cases, Listed,
}
use in_lib.Base.Int.{pos}
use in_lib.Router.{Router, Slot, router_at, find_router_id}
use in_lib.Router.Slots.{listed}
use in_lib.Router.Search.{
  State, Scan, seen, full, free, scan_visited, Outcome, for_neighbors, expand, dfs, answer,
  after_scan, exists_route,
}
use in_lib.Router.Search.Links.{
  Link, vacant, IsFront, unvisited, scan_visited-full, Marks-set, IsFront-set,
  unvisited-Marks_found, unvisited-pos, vacant-replicate, IsFront-replicate, unvisited-le,
}

module _ (rs : List Router) where
  -- An id that `findRouterId` finds.
  abbrev pub Known : ℕ → Type 0
  Known a = (i : ℕ) × (find_router_id rs (pos a) ≡ some i)

  -- Every link leads to a router.
  abbrev pub AllKnown : Type 0
  AllKnown = (a b : ℕ) → Link rs a b → Known b

  -- There are slots for all routers that are not visited yet.
  pub record IsSane (s : State) : Type 0 where
    pub front : IsFront s.visited
    pub room : unvisited rs s.visited ≤ vacant s.visited

  -- A call that starts in a sane state with `f` above its free slots succeeds in a sane state.
  abbrev Succeeds : ℕ → State → Outcome → Type 0
  Succeeds f s r =
      (s' : State) × (r ≡ some (success, s')) × (vacant s'.visited ≤ vacant s.visited) × IsSane s'

  abbrev Total : ℕ → (ℕ → State → Outcome) → Type 0
  Total f call =
      (n : ℕ) (s : State) → Known n → vacant s.visited < f → IsSane s → Succeeds f s (call n s)

  for_neighbors-Total :
      (f : ℕ) (call : ℕ → State → Outcome) (ns : List Slot) (s : State)
      → Total f call
      → ((b : ℕ) → Listed b (listed ns) → Known b)
      → vacant s.visited < f
      → IsSane s
      → Succeeds f s (for_neighbors call ns s)
  unfolding for_neighbors
  for_neighbors-Total f call [] s total known lt sane = (s, refl, omega arith, sane)
  for_neighbors-Total f call (none ∷ ns) s total known lt sane = (s, refl, omega arith, sane)
  for_neighbors-Total f call (some n ∷ ns) s total known lt sane =
      let (s1, e, le, sane1) = total n s (known n (inl refl)) lt sane in
      let (s2, e2, le2, sane2) =
        for_neighbors-Total f call ns s1 total (λ b l. known b (inr l)) (omega arith) sane1 in
      elim (Bool-cases s1.found) [
        | inl stop ↦ (s1, ground arith, le, sane1)
        | inr on ↦ (s2, ground arith, omega arith, sane2)
      ]

  expand-Total :
      (f : ℕ) (call : ℕ → State → Outcome) (from_id i : ℕ) (s : State)
      → AllKnown
      → Total f call
      → Known from_id
      → scan_visited from_id s.visited ≡ free i
      → vacant s.visited < suc f
      → IsSane s
      → Succeeds (suc f) s (expand rs call from_id i s)
  unfolding expand
  expand-Total f call from_id i s links total (hit, found) at lt sane =
      let m = Marks-set from_id i s.visited at in
      let (front, new) = IsFront-set from_id i s.visited at sane.front in
      let v = set s.visited i (some from_id) in
      let less = unvisited-Marks_found rs from_id hit s.visited v found new m in
      let s1 = record s { visited = v } in
      let few = m.fewer in
      let room = sane.room in
      let (s2, e, le, sane2) =
        for_neighbors-Total f call (router_at rs hit).neighbors s1 total
          (λ b l. links from_id b (hit, found, l)) (omega arith)
          (record { front = front; room = omega arith }) in
      (s2, rw (found, expand) e, omega arith, sane2)

  dfs-Total : (fuel to_id : ℕ) → AllKnown → Total fuel (dfs fuel rs to_id)
  unfolding dfs
  dfs-Total zero to_id links n s known lt sane = absurd (omega arith)
  dfs-Total (suc fuel) to_id links n s known lt sane = elim (Bool-cases (s.found || (n == to_id))) [
    | inl stop ↦ (
      record s { found = true },
      rw stop,
      omega arith,
      record { front = sane.front; room = sane.room },
    )
    | inr on ↦ rw on (go (scan_visited n s.visited) refl (dfs-Total fuel to_id links))
  ]
    where
      go :
          (k : Scan)
          → scan_visited n s.visited ≡ k
          → Total fuel (dfs fuel rs to_id)
          → Succeeds (suc fuel) s (after_scan (expand rs (dfs fuel rs to_id) n) s k)
      go seen e deeper = (s, refl, omega arith, sane)
      go full e deeper =
          let (none_left, new) = scan_visited-full n s.visited e in
          absurd (omega (arith, unvisited-pos rs n known.0 s.visited known.1 new, sane.room))
      go (free i) e deeper =
          expand-Total fuel (dfs fuel rs to_id) n i s links deeper known e lt sane

  abbrev pub start : State
  start = record { found = false; visited = replicate (length rs) none }

  -- On a network whose links all lead to routers, the search from a router ends with an answer.
  pub exists_route_answers :
      (from_id to_id : ℕ)
      → AllKnown
      → Known from_id
      → (s : State) × (dfs (suc (length rs)) rs to_id from_id start ≡ some (success, s))
        × (exists_route true rs from_id to_id ≡ some (some s.found))
  unfolding exists_route
  exists_route_answers from_id to_id links known =
      let slots = vacant-replicate (length rs) in
      let (s, e, _, _) =
        dfs-Total (suc (length rs)) to_id links from_id start known (omega arith) (record {
          front = IsFront-replicate (length rs);
          room = omega (arith, unvisited-le rs start.visited);
        }) in
      (s, e, rw (e, answer))
