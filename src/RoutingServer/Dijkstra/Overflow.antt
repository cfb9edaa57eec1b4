-- ===== src/RoutingServer/Dijkstra/Overflow.antt =====
-- dijkstra.c: every sum of the loops is defined when the weights are small enough for the number of
-- nodes.
use in_lib.Base.{
  ℕ, zero, suc, ◌+◌, ◌*◌, ◌<◌, ◌≤◌, ◌≡◌, refl, ap, subst, ◌∙◌, Bool, true, false, set, get_or-set,
  List, [], ◌∷◌, ◌++◌, arith, ◌==◌, length, length-append, get_or, Listed, inl, inr, Bool-cases,
}
use in_lib.RoutingServer.Dijkstra.{
  int_max, Matrix, Route, row, weight, State, costs_fit, sums_fit, visited_neighbors, relax, update,
}
use in_lib.Base.Outcomes.{done}
use in_lib.RoutingServer.Dijkstra.Neighbors.{visited_neighbors_sound}
use in_lib.RoutingServer.Dijkstra.MinDistance.{open_at}
use in_lib.RoutingServer.Dijkstra.Walk.{Walk, here, step}
use in_lib.RoutingServer.Dijkstra.Invariant.{visited_at, distance_at, lt_of_open, Inv}

pub costs_fit_lem :
    (cost : ℕ → ℕ) (js : List ℕ)
    → ((j : ℕ) → Listed j js → cost j ≤ int_max)
    → costs_fit cost js ≡ true
unfolding costs_fit
costs_fit_lem cost [] small = refl
costs_fit_lem cost (j ∷ js) small =
    let first = small j (inl refl) in
    let rest = costs_fit_lem cost js (λ k on. small k (inr on)) in ground (arith, first, rest)

pub sums_fit_lem :
    (d : ℕ) (visited : List Bool) (ws : List ℕ)
    → ((k : ℕ) → d + get_or ws k 0 ≤ int_max)
    → sums_fit d visited ws ≡ true
unfolding sums_fit
sums_fit_lem d [] ws small = refl
sums_fit_lem d (v ∷ visited) [] small = refl
sums_fit_lem d (v ∷ visited) (w ∷ ws) small =
    let first = small 0 in
    let rest = sums_fit_lem d visited ws (λ k. small (suc k)) in ground (arith, first, rest)

mul_mono : (a b c : ℕ) → a ≤ b → a * c ≤ b * c
mul_mono a b zero h = omega arith
mul_mono a b (suc c) h = omega (arith, mul_mono a b c h)

-- No weight is above `most`, and `n` times that weight is a value of type `int`.
pub record AreSmall (m : Matrix) (n most : ℕ) : Type 0 where
  pub small : (i j : ℕ) → weight m i j ≤ most
  pub product : n * most ≤ int_max

module _ (m : Matrix) (n src most : ℕ) (weights : AreSmall m n most) where
  Walk-most : {v l : ℕ} {r : Route} → Walk m n src v l r → l + most ≤ length r * most
  Walk-most here = omega arith
  Walk-most (step {u} {l} {r} v w ne lt) =
      let longer : length (r ++ v ∷ []) ≡ suc (length r) =
        omega (arith, length-append r (v ∷ [])) in
      rw longer (omega (arith, Walk-most w, weights.small u v))

  module _ (left : ℕ) (s : State) (inv : Inv m n src left s) where
    -- From a visited node one more weight can be added.
    pub visited_below : (j : ℕ) → visited_at s.visited j ≡ true → distance_at s j + most ≤ int_max
    visited_below j seen =
        let (fin, walk, short) = inv.reached j seen in
        let le : length (get_or s.routes j []) ≤ n = omega (arith, short) in
        omega (
          arith,
          Walk-most walk,
          mul_mono (length (get_or s.routes j [])) n most le,
          weights.product,
        )

  -- So it can from a node that is about to be visited, if a walk leads to it.
  pub open_below :
      (left : ℕ) (s : State)
      → Inv m n src (suc left) s
      → (u : ℕ) → u < n
      → src < n
      → distance_at s u < int_max
      → distance_at s u + most ≤ int_max
  open_below left s inv u u_lt src_lt fin = elim (Bool-cases (u == src)) [
    | inl own ↦
        let same : u ≡ src = ground arith in
        let none_yet = ap (distance_at s) same ∙ inv.source in
        omega (arith, mul_mono 1 n most (omega arith), weights.product, none_yet)
    | inr other ↦
        let (j, seen, w, e) = inv.predecessor u u_lt (ground arith) fin in
        let (fin_j, walk, short) = inv.reached j seen in
        let le : suc (length (get_or s.routes j [])) ≤ n = omega (arith, short) in
        omega (
          arith,
          Walk-most walk,
          mul_mono (suc (length (get_or s.routes j []))) n most le,
          weights.product,
          weights.small j u,
        )
  ]

  -- The sums for the route of such a node are defined.
  pub costs_defined :
      (left : ℕ) (s : State)
      → Inv m n src (suc left) s
      → (u : ℕ) → open_at s.visited u ≡ true
      → u < n
      → src < n
      → distance_at s u < int_max
      → costs_fit
          (λ j. distance_at s j + weight m u j)
          (visited_neighbors 0 (row m u) (set s.visited u true))
        ≡ true
  costs_defined left s inv u is_open u_lt src_lt fin =
      costs_fit_lem (λ j. distance_at s j + weight m u j)
        (visited_neighbors 0 (row m u) (set s.visited u true))
        (λ j on.
          let (k, e, neighbor) = visited_neighbors_sound 0 (row m u) (set s.visited u true) j on in
          let same : k ≡ j = omega (arith, e) in
          let seen : visited_at (set s.visited u true) j ≡ true =
            subst (λ i. visited_at (set s.visited u true) i ≡ true) same neighbor.1 in
          let at = get_or-set s.visited u j true false (lt_of_open s.visited u is_open) in
          elim (Bool-cases (u == j)) [
            | inl own ↦
                let own_j : u ≡ j = ground arith in
                let below = open_below left s inv u u_lt src_lt fin in
                let w = weights.small u j in omega (arith, below, w, ap (distance_at s) own_j)
            | inr other ↦
                let below = visited_below (suc left) s inv j (ground (arith, at, seen)) in
                omega (arith, below, weights.small u j)
          ])

  -- The update behind such a node is defined.
  pub update_defined :
      (left : ℕ) (s : State) (u : ℕ) (visited : List Bool)
      → distance_at s u + most ≤ int_max
      → (distance : List ℕ) × (update u m left visited s.distance ≡ done distance)
  unfolding update
  update_defined left s u visited below =
      let fine =
        sums_fit_lem (distance_at s u) visited (row m u)
          (λ k. omega (arith, below, weights.small u k)) in
      elim (Bool-cases (left == 0)) [
        | inl last ↦ (s.distance, rw last refl)
        | inr more ↦ (relax (distance_at s u) visited (row m u) s.distance, rw more (rw fine refl))
      ]
