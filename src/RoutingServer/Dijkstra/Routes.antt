-- ===== src/RoutingServer/Dijkstra/Routes.antt =====
-- dijkstra.c: the routes as the routing tables use them.
use in_lib.Base.{
  ℕ, zero, suc, ◌<◌, ◌≡◌, sym, subst, true, List, [], ◌∷◌, ◌++◌, arith, length, length-append,
  get_or, inl, inr, Listed,
}
use in_lib.RoutingServer.Dijkstra.{Matrix, Route, State, dijkstra, rounds, start}
use in_lib.Base.Outcomes.{done, done_inj, bind-eq-done}
use in_lib.RoutingServer.Dijkstra.Walk.{Walk, here, step, IsSymmetric}
use in_lib.RoutingServer.Dijkstra.Correct.{rounds-Inv, start-Inv, dijkstra-IsShortest}

-- A value that stands in a list stands at an index.
Listed-index :
    {A : Type 0} (a d : A) (xs : List A)
    → Listed a xs
    → (i : ℕ) × (i < length xs) × (get_or xs i d ≡ a)
Listed-index a d [] l = elim l [ ]
Listed-index a d (x ∷ xs) (inl e) = (0, omega arith, e)
Listed-index a d (x ∷ xs) (inr l) =
    let (i, below, e) = Listed-index a d xs l in (suc i, omega (arith, below), e)

below-concat :
    (n v : ℕ) (r : Route)
    → ((i : ℕ) → i < length r → get_or r i 0 < n)
    → v < n
    → (i : ℕ) → i < length (r ++ v ∷ [])
    → get_or (r ++ v ∷ []) i 0 < n
below-concat n v [] below lt zero h = lt
below-concat n v [] below lt (suc i) h = absurd (omega (arith, h))
below-concat n v (x ∷ r) below lt zero h = below 0 (omega arith)
below-concat n v (x ∷ r) below lt (suc i) h =
    below-concat n v r (λ j h'. below (suc j) (omega (arith, h'))) lt i (omega (arith, h))

Walk-below :
    (m : Matrix) (n src : ℕ) {v l : ℕ} {r : Route}
    → src < n
    → Walk m n src v l r
    → (0 < length r) × ((i : ℕ) → i < length r → get_or r i 0 < n)
Walk-below m n src src_lt here =
    (omega arith, below-concat n src [] (λ i h. absurd (omega (arith, h))) src_lt)
Walk-below m n src src_lt (step {u} {l} {r} v w edge lt) =
    (omega (arith, length-append r (v ∷ [])), below-concat n v r (Walk-below m n src src_lt w).1 lt)

module _ (m : Matrix) (n src : ℕ) (src_lt : src < n) (symmetric : IsSymmetric m) where
  -- There is a route for each node.
  pub length-dijkstra :
      (dist : List ℕ) (routes : List Route)
      → dijkstra true src m n ≡ done (dist, routes)
      → length routes ≡ n
  unfolding dijkstra
  length-dijkstra dist routes ran =
      let (s, run, result) =
        bind-eq-done (rounds src m n (start src n)) (λ (s : State). done (s.distance, s.routes))
          (dist, routes) ran in
      let inv =
        rounds-Inv m n src src_lt symmetric n (start src n) s (start-Inv m n src src_lt) run in
      subst (λ (p : List ℕ × List Route). length p.1 ≡ n) (done_inj result) inv.routes_size

  -- The routes have a node each, and only nodes of the matrix.
  pub dijkstra-nodes :
      (dist : List ℕ) (routes : List Route)
      → dijkstra true src m n ≡ done (dist, routes)
      → (route : Route) → Listed route routes
      → (0 < length route) × ((i : ℕ) → i < length route → get_or route i 0 < length routes)
  dijkstra-nodes dist routes ran route l =
      let size = length-dijkstra dist routes ran in
      let (v, below, at) = Listed-index route [] routes l in
      let found =
        dijkstra-IsShortest m n src src_lt symmetric dist routes ran v
          (omega (arith, below, size)) in
      subst (λ k. (0 < length route) × ((i : ℕ) → i < length route → get_or route i 0 < k))
        (sym size)
        (subst (λ r. (0 < length r) × ((i : ℕ) → i < length r → get_or r i 0 < n)) at
          (Walk-below m n src src_lt found.route))
