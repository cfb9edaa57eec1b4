-- ===== src/RoutingServer/Dijkstra/Neighbors.antt =====
-- Steps 1 and 2 of `registerRoute`: the visited neighbors, and the cheapest of them.
use in_lib.Base.{
  ℕ, zero, suc, ◌+◌, ◌<◌, ◌≤◌, ◌≡◌, ◌≢◌, refl, ap, sym, ◌∙◌, Bool, true, false, not, ◌&&◌, Option,
  none, some, List, [], ◌∷◌, ◌⊎◌, inl, inr, arith, ltb, ◌==◌, if◌then◌else◌, get_or, Listed,
  Bool-cases, ltb→lt,
}
use mathlib.Core.Bool.{false≢true}
use in_lib.RoutingServer.Dijkstra.{int_max, visited_neighbors, closest, checked}

-- Node `k` is a neighbor by the row of weights, and visited.
abbrev pub IsVisitedNeighbor : List ℕ → List Bool → ℕ → Type 0
IsVisitedNeighbor ws visited k = (get_or ws k 0 ≢ 0) × (get_or visited k false ≡ true)

abbrev Found : ℕ → List ℕ → List Bool → ℕ → Type 0
Found j ws visited a = (k : ℕ) × (a ≡ j + k) × IsVisitedNeighbor ws visited k

Found-next :
    (j w : ℕ) (ws : List ℕ) (b : Bool) (visited : List Bool) (a : ℕ)
    → Found (suc j) ws visited a
    → Found j (w ∷ ws) (b ∷ visited) a
Found-next j w ws b visited a (k, e, h) = (suc k, omega arith, h)

pub visited_neighbors_sound :
    (j : ℕ) (ws : List ℕ) (visited : List Bool) (a : ℕ)
    → Listed a (visited_neighbors j ws visited)
    → Found j ws visited a
unfolding visited_neighbors
visited_neighbors_sound j [] visited a h = absurd h
visited_neighbors_sound j (w ∷ ws) [] a h = absurd h
visited_neighbors_sound j (w ∷ ws) (v ∷ visited) a h =
    go (not (w == 0) && v) refl h (visited_neighbors_sound (suc j) ws visited a)
  where
    go :
        (t : Bool)
        → not (w == 0) && v ≡ t
        → Listed a (
            if t
            then j ∷ visited_neighbors (suc j) ws visited
            else visited_neighbors (suc j) ws visited)
        → (Listed a (visited_neighbors (suc j) ws visited) → Found (suc j) ws visited a)
        → Found j (w ∷ ws) (v ∷ visited) a
    go true e (inl same) rest = (0, omega arith, (ground arith, ground arith))
    go true e (inr later) rest = Found-next j w ws v visited a (rest later)
    go false e l rest = Found-next j w ws v visited a (rest l)

visited_neighbors_complete :
    (j : ℕ) (ws : List ℕ) (visited : List Bool) (k : ℕ)
    → IsVisitedNeighbor ws visited k
    → Listed (j + k) (visited_neighbors j ws visited)
unfolding visited_neighbors
visited_neighbors_complete j [] visited k (ne, v) = absurd (ne refl)
visited_neighbors_complete j (w ∷ ws) [] k (ne, v) = absurd (false≢true v)
visited_neighbors_complete j (w ∷ ws) (b ∷ visited) zero (ne, v) =
    let t : not (w == 0) && b ≡ true = ground arith in
    let e : j + 0 ≡ j = omega arith in rw (t, e) (inl refl)
visited_neighbors_complete j (w ∷ ws) (b ∷ visited) (suc k) (ne, v) =
    let e : j + suc k ≡ suc j + k = omega arith in
    let rest = visited_neighbors_complete (suc j) ws visited k (ne, v) in
    rw e (go (not (w == 0) && b) rest)
  where
    go :
        (t : Bool)
        → Listed (suc j + k) (visited_neighbors (suc j) ws visited)
        → Listed (suc j + k) (
            if t
            then j ∷ visited_neighbors (suc j) ws visited
            else visited_neighbors (suc j) ws visited)
    go true l = inr l
    go false l = l

-- What the second loop delivers: the best cost so far, or that of a neighbor in the list which is
-- less than it; and none in the list is less.
record Cheapest (cost : ℕ → ℕ) (js : List ℕ) (best : ℕ) (idx : Option ℕ) (r : ℕ × Option ℕ)
    : Type 0 where
  bound : r.0 ≤ best
  least : (j : ℕ) → Listed j js → r.0 ≤ cost j
  which : (r ≡ (best, idx)) ⊎ (j : ℕ) × Listed j js × (r ≡ (cost j, some j)) × (cost j < best)

closest-Cheapest :
    (cost : ℕ → ℕ) (js : List ℕ) (best : ℕ) (idx : Option ℕ)
    → Cheapest cost js best idx (closest cost js best idx)
unfolding closest
closest-Cheapest cost [] best idx = record {
  bound = omega arith;
  least = λ j l. absurd l;
  which = inl refl;
}
closest-Cheapest cost (x ∷ xs) best idx = elim (Bool-cases (ltb (cost x) best)) [
  | inl t ↦ rw t (taken t (closest-Cheapest cost xs (cost x) (some x)))
  | inr t ↦ rw t (left t (closest-Cheapest cost xs best idx))
]
  where
    taken :
        ltb (cost x) best ≡ true
        → Cheapest cost xs (cost x) (some x) (closest cost xs (cost x) (some x))
        → Cheapest cost (x ∷ xs) best idx (closest cost xs (cost x) (some x))
    taken t c = record {
      bound = ground (arith, c.bound);
      least = λ j l. elim l [ inl same ↦ rw (← same) c.bound | inr later ↦ c.least j later ];
      which = elim c.which [
        | inl first ↦ inr (x, inl refl, first, ltb→lt (cost x) best t)
        | inr (j, l, e, lt) ↦ inr (j, inr l, e, ground arith)
      ];
    }

    left :
        ltb (cost x) best ≡ false
        → Cheapest cost xs best idx (closest cost xs best idx)
        → Cheapest cost (x ∷ xs) best idx (closest cost xs best idx)
    left t c = record {
      bound = c.bound;
      least = λ j l. elim l [
        | inl same ↦ rw (← same) (ground (arith, c.bound))
        | inr later ↦ c.least j later
      ];
      which = elim c.which [ inl first ↦ inl first | inr (j, l, e, lt) ↦ inr (j, inr l, e, lt) ];
    }

module _ (cost : ℕ → ℕ) (ws : List ℕ) (visited : List Bool) where
  abbrev neighbors : List ℕ
  neighbors = visited_neighbors 0 ws visited

  abbrev pub choice : Option ℕ
  choice = checked (closest cost (visited_neighbors 0 ws visited) int_max none)

  -- Either nothing costs less than INT_MAX, or the choice is the cheapest neighbor of the list.
  choice-cases :
      (choice ≡ none) × ((k : ℕ) → Listed k neighbors → int_max ≤ cost k)
      ⊎ (j : ℕ) × (choice ≡ some j)
        × Listed j neighbors
        × (cost j < int_max)
        × ((k : ℕ) → Listed k neighbors → cost j ≤ cost k)
  choice-cases =
      let c = closest-Cheapest cost neighbors int_max none in
      elim c.which [
        | inl e ↦
            inl
              (rw (e, checked), λ k l. omega (arith, c.least k l, ap (λ (p : ℕ × Option ℕ). p.0) e))
        | inr (j, l, e, lt) ↦
            let t : (cost j == int_max) ≡ false = ground arith in
            inr (
              j,
              rw (e, checked) (rw t),
              l,
              lt,
              λ k l'. omega (arith, c.least k l', ap (λ (p : ℕ × Option ℕ). p.0) e),
            )
      ]

  neighbors-Listed : (k : ℕ) → IsVisitedNeighbor ws visited k → Listed k neighbors
  neighbors-Listed k h =
      let e : 0 + k ≡ k = omega arith in rw e at (visited_neighbors_complete 0 ws visited k h)

  -- The neighbor that is chosen is visited, its cost is below INT_MAX, and no visited neighbor costs
  -- less.
  pub choice-eq-some :
      (j : ℕ)
      → choice ≡ some j
      → IsVisitedNeighbor ws visited j
        × (cost j < int_max)
        × ((k : ℕ) → IsVisitedNeighbor ws visited k → cost j ≤ cost k)
  choice-eq-some j e = elim choice-cases [
    | inl (nothing, all) ↦ absurd (none-ne-some (sym nothing ∙ e))
    | inr (i, e', l, lt, least) ↦
        let same : i ≡ j = same_index i (sym e' ∙ e) in
        let (k, at, found) = visited_neighbors_sound 0 ws visited i l in
        let eq : k ≡ j = omega arith in
        rw (← same) (rw (← (eq ∙ sym same)) found, lt, λ n h. least n (neighbors-Listed n h))
  ]
    where
      none-ne-some : none ≡ some j → ⊥
      none-ne-some h = cc

      same_index : (i : ℕ) → some i ≡ some j → i ≡ j
      same_index i h = cc

  -- No neighbor is chosen only if every visited one costs INT_MAX or more.
  pub choice-eq-none : choice ≡ none → (k : ℕ) → IsVisitedNeighbor ws visited k → int_max ≤ cost k
  choice-eq-none e k h = elim choice-cases [
    | inl (nothing, all) ↦ all k (neighbors-Listed k h)
    | inr (i, e', l, lt, least) ↦ absurd (some-ne-none i (sym e' ∙ e))
  ]
    where
      some-ne-none : (i : ℕ) → some i ≡ none → ⊥
      some-ne-none i h = cc
