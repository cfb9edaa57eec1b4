-- ===== src/RoutingServer/Dijkstra/Invariant.antt =====
-- The invariant of the main loop of `dijkstra`, and the choice of the route in one round.
use in_lib.Base.{
  ℕ, zero, suc, ◌+◌, ◌<◌, ◌≤◌, ◌≡◌, ◌≢◌, refl, ap, sym, subst, Bool, true, false, some, List, [],
  ◌∷◌, ◌++◌, arith, ◌==◌, if◌then◌else◌, length, get_or, set, Bool-cases, inl, inr, ◌⊎◌, get_or-set,
  length-append,
}
use in_lib.Base.Outcomes.{
  done, ◌>>=◌, done_inj, bind-eq-done, if_defined, some_or_failed, some_or_failed-eq-done,
}
use in_lib.RoutingServer.Dijkstra.{
  int_max, Matrix, Route, row, weight, State, register_route, visited_neighbors, costs_fit,
}
use in_lib.RoutingServer.Dijkstra.MinDistance.{open_at}
use in_lib.RoutingServer.Dijkstra.Neighbors.{IsVisitedNeighbor, choice, choice-eq-some}
use in_lib.RoutingServer.Dijkstra.Walk.{Walk, here, step, IsSymmetric}

abbrev pub visited_at : List Bool → ℕ → Bool
visited_at visited v = get_or visited v false

-- The nodes that are not visited.
abbrev pub open_count : List Bool → ℕ
open_count [] = 0
open_count (true ∷ v) = open_count v
open_count (false ∷ v) = suc (open_count v)

pub open_count-le : (v : List Bool) → open_count v ≤ length v
open_count-le [] = omega arith
open_count-le (true ∷ v) = omega (arith, open_count-le v)
open_count-le (false ∷ v) = omega (arith, open_count-le v)

pub open_count_pos :
    (v : List Bool) → 0 < open_count v → (k : ℕ) × (open_at v k ≡ true) × (k < length v)
open_count_pos [] h = absurd (omega arith)
open_count_pos (false ∷ v) h = (0, refl, omega arith)
open_count_pos (true ∷ v) h = let (k, o, lt) = open_count_pos v h in (suc k, o, omega arith)

pub open_count-set :
    (v : List Bool) (k : ℕ) → open_at v k ≡ true → suc (open_count (set v k true)) ≡ open_count v
open_count-set [] k h = cc
open_count-set (false ∷ v) zero h = refl
open_count-set (true ∷ v) zero h = cc
open_count-set (false ∷ v) (suc k) h = ap suc (open_count-set v k h)
open_count-set (true ∷ v) (suc k) h = open_count-set v k h

pub open_count_zero : (v : List Bool) (k : ℕ) → open_count v ≡ 0 → open_at v k ≡ true → ⊥
open_count_zero v k z h = omega (arith, open_count-set v k h)

pub lt_of_open : (v : List Bool) (k : ℕ) → open_at v k ≡ true → k < length v
lt_of_open [] k h = cc
lt_of_open (b ∷ v) zero h = omega arith
lt_of_open (b ∷ v) (suc k) h = omega (arith, lt_of_open v k h)

pub lt_of_visited : (v : List Bool) (k : ℕ) → visited_at v k ≡ true → k < length v
lt_of_visited [] k h = cc
lt_of_visited (b ∷ v) zero h = omega arith
lt_of_visited (b ∷ v) (suc k) h = omega (arith, lt_of_visited v k h)

pub open_or_visited :
    (v : List Bool) (k : ℕ) → k < length v → (open_at v k ≡ true) ⊎ (visited_at v k ≡ true)
open_or_visited [] k h = absurd (omega arith)
open_or_visited (true ∷ v) zero h = inr refl
open_or_visited (false ∷ v) zero h = inl refl
open_or_visited (b ∷ v) (suc k) h = open_or_visited v k (omega arith)

abbrev pub distance_at : State → ℕ → ℕ
distance_at s v = get_or s.distance v 0

abbrev pub route_at : State → ℕ → Route
route_at s v = get_or s.routes v []

module _ (m : Matrix) (n src : ℕ) where
  pub record Inv (left : ℕ) (s : State) : Type 0 where
    pub visited_size : length s.visited ≡ n
    pub distance_size : length s.distance ≡ n
    pub routes_size : length s.routes ≡ n
    pub left_open : open_count s.visited ≡ left
    pub source : distance_at s src ≡ 0
    pub bounded : (v : ℕ) → v < n → distance_at s v ≤ int_max
    -- a visited node has its route, and the route its distance
    pub reached :
        (v : ℕ)
        → visited_at s.visited v ≡ true
        → (distance_at s v < int_max)
          × Walk m n src v (distance_at s v) (route_at s v)
          × (length (route_at s v) + left ≤ n)
    -- no edge from a visited node is a shortcut
    pub triangle :
        (u v : ℕ)
        → visited_at s.visited u ≡ true
        → v < n
        → weight m u v ≢ 0
        → distance_at s v ≤ distance_at s u + weight m u v
    -- the visited nodes are the nearest ones
    pub ordered :
        (u v : ℕ)
        → visited_at s.visited u ≡ true
        → open_at s.visited v ≡ true
        → distance_at s u ≤ distance_at s v
    -- a finite distance comes from a visited node
    pub predecessor :
        (v : ℕ)
        → v < n
        → v ≢ src
        → distance_at s v < int_max
        → (j : ℕ) × (visited_at s.visited j ≡ true)
          × (weight m j v ≢ 0)
          × (distance_at s v ≡ distance_at s j + weight m j v)

  module _ (symmetric : IsSymmetric m) (left : ℕ) (s : State) (inv : Inv (suc left) s) (u : ℕ)
      (is_open : open_at s.visited u ≡ true) where
    abbrev visited' : List Bool
    visited' = set s.visited u true

    abbrev cost : ℕ → ℕ
    cost j = distance_at s j + weight m u j

    visited'-at :
        (w : ℕ) (d : Bool) → get_or visited' w d ≡ (if u == w then true else get_or s.visited w d)
    visited'-at w d = get_or-set s.visited u w true d (lt_of_open s.visited u is_open)

    lt_u : u < n
    lt_u = omega (arith, lt_of_open s.visited u is_open, inv.visited_size)

    -- A neighbor that was visited before costs at least the distance of `u`.
    le_cost : (j : ℕ) → IsVisitedNeighbor (row m u) visited' j → distance_at s u ≤ cost j
    le_cost j (ne, v) = elim (Bool-cases (u == j)) [
      | inl own ↦ let e : u ≡ j = ground arith in rw e (omega arith)
      | inr other ↦ ground (arith, visited'-at j false, inv.triangle j u, lt_u, symmetric u j)
    ]

    -- The neighbor that is chosen was visited before, and its cost is the distance.
    chosen :
        (j : ℕ)
        → u ≢ src
        → choice cost (row m u) visited' ≡ some j
        → (visited_at s.visited j ≡ true)
          × (weight m j u ≢ 0)
          × (distance_at s u ≡ distance_at s j + weight m j u)
          × (distance_at s u < int_max)
    chosen j ne e =
        let (neighbor, lt, least) = choice-eq-some cost (row m u) visited' j e in
        let le = le_cost j neighbor in
        let (j0, v0, w0, eq0) = inv.predecessor u lt_u ne (omega arith) in
        let known : IsVisitedNeighbor (row m u) visited' j0 =
          (rw (symmetric u j0) w0, ground (arith, visited'-at j0 false)) in
        let cheap = least j0 known in
        let both = symmetric u j0 in
        let back = symmetric u j in
        elim (Bool-cases (u == j)) [
          | inl own ↦
              let same : u ≡ j = ground arith in
              absurd (neighbor.0 (omega (arith, ap (distance_at s) same)))
          | inr other ↦ (
            ground (arith, neighbor.1, visited'-at j false),
            rw (← back) neighbor.0,
            omega arith,
            omega arith,
          )
        ]

    -- The route that a round registers leads to the node, and its weights add up to the distance.
    pub registered :
        (routes' : List Route)
        → register_route src u m visited' s.distance s.routes ≡ done routes'
        → (distance_at s u < int_max)
          × (r : Route) × (routes' ≡ set s.routes u r)
          × Walk m n src u (distance_at s u) r
          × (length r + left ≤ n)
    unfolding register_route
    registered routes' e = elim (Bool-cases (src == u)) [
      | inl own ↦
          let same : src ≡ u = ground arith in
          let zero_distance : distance_at s u ≡ 0 =
            subst (λ k. distance_at s k ≡ 0) same inv.source in
          (
            omega arith,
            src ∷ [],
            sym (done_inj (rw own at e)),
            rw zero_distance (subst (λ k. Walk m n src k 0 (src ∷ [])) same here),
            omega (arith, open_count-le s.visited, inv.visited_size, inv.left_open),
          )
      | inr other ↦
          let neighbors = visited_neighbors 0 (row m u) visited' in
          let ran =
            if_defined (costs_fit cost neighbors)
              (some_or_failed (choice cost (row m u) visited') >>= λ j.
                done (set s.routes u (get_or s.routes j [] ++ u ∷ [])))
              routes' (rw other at e) in
          let (j, found, delivered) =
            bind-eq-done (some_or_failed (choice cost (row m u) visited')) _ routes' ran in
          let chosen_j = some_or_failed-eq-done (choice cost (row m u) visited') j found in
          let (v, w, eq, lt) = chosen j (ground arith) chosen_j in
          let (fin, walk, len) = inv.reached j v in
          (
            lt,
            route_at s j ++ u ∷ [],
            sym (done_inj delivered),
            rw eq (step u walk w lt_u),
            omega (arith, length-append (route_at s j) (u ∷ [])),
          )
    ]
