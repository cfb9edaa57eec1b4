-- ===== src/RoutingServer/Dijkstra/Correct.antt =====
-- What `dijkstra` delivers: shortest routes, and when it delivers them.
use in_lib.Base.{
  ℕ, zero, suc, ◌+◌, ◌<◌, ◌≤◌, ◌≡◌, ◌↔◌, refl, ap, sym, ◌∙◌, subst, true, false, List, [], ◌∷◌,
  ◌++◌, arith, ◌==◌, if◌then◌else◌, length, get_or, set, replicate, Bool-cases, Option-cases, inl,
  inr, ◌⊎◌, get_or-set, length-set, length-replicate, get_or-replicate,
}
use in_lib.RoutingServer.Dijkstra.{
  int_max, Matrix, Route, row, weight, State, register_route, round, rounds, start, dijkstra,
}
use in_lib.Base.Outcomes.{done, done_inj, bind-eq-done}
use in_lib.RoutingServer.Dijkstra.Overflow.{AreSmall, open_below, costs_defined, update_defined}
use in_lib.RoutingServer.Dijkstra.MinDistance.{
  open_at, get_min_distance_idx-least, get_min_distance_idx_found,
}
use in_lib.RoutingServer.Dijkstra.Neighbors.{choice, choice-eq-none}
use in_lib.RoutingServer.Dijkstra.Walk.{Walk, here, step, IsSymmetric}
use in_lib.RoutingServer.Dijkstra.Invariant.{
  visited_at, open_count, open_count_pos, open_count_zero, lt_of_open, open_or_visited, distance_at,
  Inv,
}
use in_lib.RoutingServer.Dijkstra.Round.{round-Inv}

open_count-replicate : (n : ℕ) → open_count (replicate n false) ≡ n
open_count-replicate zero = refl
open_count-replicate (suc n) = ap suc (open_count-replicate n)

none_visited : (n k : ℕ) → visited_at (replicate n false) k ≡ true → ⊥
none_visited zero k h = cc
none_visited (suc n) zero h = cc
none_visited (suc n) (suc k) h = none_visited n k h

module _ (m : Matrix) (n src : ℕ) (src_lt : src < n) where
  start-distance : (v : ℕ) → v < n → distance_at (start src n) v ≡ (if src == v then 0 else int_max)
  start-distance v h =
      get_or-set (replicate n int_max) src v 0 0 (omega (arith, length-replicate n int_max))
      ∙ ap (λ d. if src == v then 0 else d) (get_or-replicate n v int_max 0 h)

  pub start-Inv : Inv m n src n (start src n)
  start-Inv = record {
    visited_size = length-replicate n false;
    distance_size = length-set (replicate n int_max) src 0 ∙ length-replicate n int_max;
    routes_size = length-replicate n [];
    left_open = open_count-replicate n;
    source = ground (arith, start-distance src src_lt);
    bounded = λ v h. ground (arith, start-distance v h);
    reached = λ v seen. absurd (none_visited n v seen);
    triangle = λ u v seen. absurd (none_visited n u seen);
    ordered = λ u v seen. absurd (none_visited n u seen);
    predecessor = λ v h ne lt. absurd (ground (arith, start-distance v h));
  }

  Walk-lt : {v l : ℕ} {r : Route} → Walk m n src v l r → v < n
  Walk-lt here = src_lt
  Walk-lt (step v w ne lt) = lt

  -- A walk is as long as the distance of its end, or of a node on it that is not visited.
  Walk-bound :
      (left : ℕ) (s : State)
      → Inv m n src left s
      → {v l : ℕ} {r : Route} → Walk m n src v l r
      → ((y : ℕ) × (open_at s.visited y ≡ true) × (distance_at s y ≤ l)) ⊎ (distance_at s v ≤ l)
  Walk-bound left s inv here = inr (omega (arith, inv.source))
  Walk-bound left s inv (step {u} {l} v w ne lt) = elim (Walk-bound left s inv w) [
    | inl (y, o, le) ↦ inl (y, o, omega arith)
    | inr le ↦ elim (open_or_visited s.visited u (omega (arith, inv.visited_size, Walk-lt w))) [
      | inl o ↦ inl (u, o, omega arith)
      | inr seen ↦ inr (omega (arith, inv.triangle u v seen lt ne))
    ]
  ]

  -- Every node is reached by a walk that is shorter than INT_MAX.
  abbrev pub AllReachable : Type 0
  AllReachable = (v : ℕ) → v < n → (l : ℕ) × (r : Route) × Walk m n src v l r × (l < int_max)

  module _ (symmetric : IsSymmetric m) where
    pub rounds-Inv :
        (left : ℕ) (s s' : State)
        → Inv m n src left s
        → rounds src m left s ≡ done s'
        → Inv m n src 0 s'
    unfolding rounds
    rounds-Inv zero s s' inv e = subst (Inv m n src 0) (done_inj e) inv
    rounds-Inv (suc left) s s' inv e =
        let (t, one, rest) = bind-eq-done (round src m left s) (λ t. rounds src m left t) s' e in
        rounds-Inv left t s' (round-Inv m n src left s t symmetric src_lt inv one) rest

    -- The node that is picked has a finite distance if every node is reachable.
    finite_least :
        (left : ℕ) (s : State)
        → Inv m n src left s
        → AllReachable
        → (u : ℕ) → open_at s.visited u ≡ true
        → ((v : ℕ) → open_at s.visited v ≡ true → distance_at s u ≤ distance_at s v)
        → distance_at s u < int_max
    finite_least left s inv all u o least =
        let (l, r, walk, lt) = all u (omega (arith, lt_of_open s.visited u o, inv.visited_size)) in
        elim (Walk-bound left s inv walk) [
          | inl (y, oy, le) ↦ omega (arith, least y oy)
          | inr le ↦ omega arith
        ]

    module _ (most : ℕ) (weights : AreSmall m n most) where
      register_route_returns :
          (left : ℕ) (s : State) (u : ℕ)
          → Inv m n src (suc left) s
          → open_at s.visited u ≡ true
          → distance_at s u < int_max
          → (routes : List Route) × (register_route src u m
                (set s.visited u true)
                s.distance
                s.routes
              ≡ done routes)
      unfolding register_route
      register_route_returns left s u inv o fin = elim (Bool-cases (src == u)) [
        | inl own ↦ (set s.routes u (src ∷ []), rw own)
        | inr other ↦
            let lt : u < n = omega (arith, lt_of_open s.visited u o, inv.visited_size) in
            let fine = costs_defined m n src most weights left s inv u o lt src_lt fin in
            elim (Option-cases
              (choice (λ j. distance_at s j + weight m u j) (row m u) (set s.visited u true))) [
                | inl nothing ↦
                    let (j, seen, w, e) = inv.predecessor u lt (ground arith) fin in
                    let at = get_or-set s.visited u j true false (lt_of_open s.visited u o) in
                    let all =
                      choice-eq-none (λ j. distance_at s j + weight m u j) (row m u)
                        (set s.visited u true) nothing j
                        (rw (symmetric u j) w, ground (arith, at)) in
                    absurd (omega (arith, all, symmetric u j))
                | inr (j, chosen) ↦
                    (set s.routes u (get_or s.routes j [] ++ u ∷ []), rw (other, fine) (rw chosen))
              ]
      ]

      round_returns :
          (left : ℕ) (s : State)
          → Inv m n src (suc left) s
          → AllReachable
          → (s' : State) × (round src m left s ≡ done s')
      unfolding round
      round_returns left s inv all =
          let sizes = inv.distance_size ∙ sym inv.visited_size in
          let (v, ov, ltv) = open_count_pos s.visited (omega (arith, inv.left_open)) in
          let (u, found) =
            get_min_distance_idx_found s.distance s.visited sizes v ov
              (inv.bounded v (omega (arith, inv.visited_size))) in
          let (o, least) = get_min_distance_idx-least s.distance s.visited sizes u found in
          let fin = finite_least (suc left) s inv all u o least in
          let lt : u < n = omega (arith, lt_of_open s.visited u o, inv.visited_size) in
          let (routes, e) = register_route_returns left s u inv o fin in
          let (distance, updated) =
            update_defined m n src most weights left s u (set s.visited u true)
              (open_below m n src most weights left s inv u lt src_lt fin) in
          (
            record { visited = set s.visited u true; distance = distance; routes = routes },
            rw found (rw e (rw updated refl)),
          )

      rounds_return :
          (left : ℕ) (s : State)
          → Inv m n src left s
          → AllReachable
          → (s' : State) × (rounds src m left s ≡ done s')
      unfolding rounds
      rounds_return zero s inv all = (s, refl)
      rounds_return (suc left) s inv all =
          let (t, one) = round_returns left s inv all in
          let (s', rest) =
            rounds_return left t (round-Inv m n src left s t symmetric src_lt inv one) all in
          (s', rw (one, rounds) rest)

    -- What a successful call delivers for node `v`: its distance is that of its route, which leads
    -- from the source along edges of the graph, and no walk to it is shorter. The route fits in the
    -- `n` elements that are allocated.
    pub record IsShortest (dist : List ℕ) (routes : List Route) (v : ℕ) : Type 0 where
      pub finite : get_or dist v 0 < int_max
      pub route : Walk m n src v (get_or dist v 0) (get_or routes v [])
      pub fits : length (get_or routes v []) ≤ n
      pub shortest : (l : ℕ) (r : Route) → Walk m n src v l r → get_or dist v 0 ≤ l

    all_visited : (s : State) → Inv m n src 0 s → (k : ℕ) → k < n → visited_at s.visited k ≡ true
    all_visited s inv k h = elim (open_or_visited s.visited k (omega (arith, inv.visited_size))) [
      | inl o ↦ absurd (open_count_zero s.visited k inv.left_open o)
      | inr seen ↦ seen
    ]

    -- On a symmetric matrix, a call that succeeds, with no sum above INT_MAX, delivers shortest routes
    -- to all nodes.
    pub dijkstra-IsShortest :
        (dist : List ℕ) (routes : List Route)
        → dijkstra true src m n ≡ done (dist, routes)
        → (v : ℕ) → v < n
        → IsShortest dist routes v
    unfolding dijkstra
    dijkstra-IsShortest dist routes e v lt =
        let (s, run, same) =
          bind-eq-done (rounds src m n (start src n)) (λ (s : State). done (s.distance, s.routes))
            (dist, routes) e in
        let inv = rounds-Inv n (start src n) s start-Inv run in
        let (fin, walk, len) = inv.reached v (all_visited s inv v lt) in
        subst (λ (p : List ℕ × List Route). IsShortest p.0 p.1 v) (done_inj same)
          (record {
            finite = fin;
            route = walk;
            fits = omega arith;
            shortest = λ l r w. elim (Walk-bound 0 s inv w) [
              | inl (y, o, le) ↦ absurd (open_count_zero s.visited y inv.left_open o)
              | inr le ↦ le
            ];
          })

    -- On a symmetric matrix where the greatest weight, taken once for each of the nodes, does not exceed
    -- INT_MAX, the call succeeds, with no sum above INT_MAX, if and only if every node is reached from
    -- the source by a walk that is shorter than INT_MAX.
    pub dijkstra_returns :
        (most : ℕ)
        → AreSmall m n most
        → ((result : List ℕ × List Route) × (dijkstra true src m n ≡ done result)) ↔ AllReachable
    unfolding dijkstra
    dijkstra_returns most weights = (
      λ (result, e). λ v lt.
          let found = dijkstra-IsShortest result.0 result.1 e v lt in
          (get_or result.0 v 0, get_or result.1 v [], found.route, found.finite),
      λ all.
          let (s, run) = rounds_return most weights n (start src n) start-Inv all in
          ((s.distance, s.routes), rw run),
    )
