-- ===== src/RoutingServer/Dijkstra/MinDistance.antt =====
-- `getMinDistanceIdx` delivers a node that is not visited, of the least distance.
use in_lib.Base.{
  ℕ, zero, suc, ◌+◌, ◌<◌, ◌≤◌, ◌≡◌, Bool, true, false, not, ◌&&◌, Option, none, some, List, [], ◌∷◌,
  ◌⊎◌, inl, inr, arith, leb, length, get_or, Bool-cases, Option-cases,
}
use mathlib.Core.Bool.{false≢true}
use in_lib.RoutingServer.Dijkstra.{int_max, min_distance_from, get_min_distance_idx}

-- Node `v` of the arrays is not visited, and has the distance `d`.
abbrev pub open_at : List Bool → ℕ → Bool
open_at visited v = not (get_or visited v true)

-- No node that is not visited is as near as `d`.
abbrev AllFarther : List Bool → List ℕ → ℕ → Type 0
AllFarther visited dist d = (v : ℕ) → open_at visited v ≡ true → d < get_or dist v 0

-- Node `k` is not visited, and no such node is nearer.
record IsNearest (visited : List Bool) (dist : List ℕ) (d k : ℕ) : Type 0 where
  is_open : open_at visited k ≡ true
  near : get_or dist k 0 ≤ d
  least : (v : ℕ) → open_at visited v ≡ true → get_or dist k 0 ≤ get_or dist v 0

-- What the loop delivers: the index found before, or one of the rest.
record Best (i : ℕ) (visited : List Bool) (dist : List ℕ) (d : ℕ) (idx r : Option ℕ) : Type 0 where
  which :
      (u : ℕ)
      → r ≡ some u
      → (idx ≡ some u) × AllFarther visited dist d
        ⊎ (k : ℕ) × (u ≡ i + k) × IsNearest visited dist d k
  nothing : r ≡ none → (idx ≡ none) × AllFarther visited dist d

module _ (i : ℕ) (b : Bool) (visited : List Bool) (x : ℕ) (dist : List ℕ) (d : ℕ) where
  -- The first node is taken.
  Best-taken :
      (idx r : Option ℕ)
      → not b && leb x d ≡ true
      → Best (suc i) visited dist x (some i) r
      → Best i (b ∷ visited) (x ∷ dist) d idx r
  Best-taken idx r t best = record {
    which = λ u e. elim (best.which u e) [
      | inl (same, far) ↦ inr (
        0,
        ground arith,
        record {
          is_open = ground arith;
          near = ground arith;
          least = elim [ zero ↦ λ o. omega arith | suc v ↦ λ o. omega (arith, far v o) ];
        },
      )
      | inr (k, at, n) ↦ inr (
        suc k,
        omega arith,
        record {
          is_open = n.is_open;
          near = ground (arith, n.near);
          least = elim [ zero ↦ λ o. n.near | suc v ↦ λ o. n.least v o ];
        },
      )
    ];
    nothing = λ e. absurd (some-ne-none (best.nothing e).0);
  }
    where
      some-ne-none : some i ≡ none → ⊥
      some-ne-none e = cc

  -- It is not taken.
  farther : not b && leb x d ≡ false → not b ≡ true → d < x
  farther t o = ground arith

  Best-left :
      (idx r : Option ℕ)
      → not b && leb x d ≡ false
      → Best (suc i) visited dist d idx r
      → Best i (b ∷ visited) (x ∷ dist) d idx r
  Best-left idx r t best = record {
    which = λ u e. elim (best.which u e) [
      | inl (same, far) ↦ inl (same, elim [ zero ↦ λ o. farther t o | suc v ↦ λ o. far v o ])
      | inr (k, at, n) ↦ inr (
        suc k,
        omega arith,
        record {
          is_open = n.is_open;
          near = n.near;
          least = elim [
            | zero ↦ λ o. omega (arith, farther t o, n.near)
            | suc v ↦ λ o. n.least v o
          ];
        },
      )
    ];
    nothing = λ e. (
      (best.nothing e).0,
      elim [ zero ↦ λ o. farther t o | suc v ↦ λ o. (best.nothing e).1 v o ],
    );
  }

min_distance_from-Best :
    (i : ℕ) (visited : List Bool) (dist : List ℕ) (d : ℕ) (idx : Option ℕ)
    → length dist ≡ length visited
    → Best i visited dist d idx (min_distance_from i visited dist d idx)
unfolding min_distance_from
min_distance_from-Best i [] dist d idx n = record {
  which = λ u e. inl (e, λ v o. absurd (false≢true o));
  nothing = λ e. (e, λ v o. absurd (false≢true o));
}
min_distance_from-Best i (b ∷ visited) [] d idx n = absurd (omega arith)
min_distance_from-Best i (b ∷ visited) (x ∷ dist) d idx n = elim (Bool-cases (not b && leb x d)) [
  | inl t ↦ rw t (
      Best-taken i b visited x dist d idx _ t
        (min_distance_from-Best (suc i) visited dist x (some i) (omega arith)))
  | inr t ↦ rw t (
      Best-left i b visited x dist d idx _ t
        (min_distance_from-Best (suc i) visited dist d idx (omega arith)))
]

module _ (dist : List ℕ) (visited : List Bool) (n : length dist ≡ length visited) where
  -- The index that is delivered is that of a node which is not visited, and no such node is nearer.
  pub get_min_distance_idx-least :
      (u : ℕ)
      → get_min_distance_idx dist visited ≡ some u
      → (open_at visited u ≡ true)
        × ((v : ℕ) → open_at visited v ≡ true → get_or dist u 0 ≤ get_or dist v 0)
  unfolding get_min_distance_idx
  get_min_distance_idx-least u e =
      elim ((min_distance_from-Best 0 visited dist int_max none n).which u e) [
        | inl (nope, far) ↦ absurd (none-ne-some nope)
        | inr (k, at, near) ↦ let same : u ≡ k = omega arith in rw same (near.is_open, near.least)
      ]
    where
      none-ne-some : none ≡ some u → ⊥
      none-ne-some h = cc

  -- An index is delivered if some node is not visited, at a distance of at most INT_MAX.
  pub get_min_distance_idx_found :
      (v : ℕ)
      → open_at visited v ≡ true
      → get_or dist v 0 ≤ int_max
      → (u : ℕ) × (get_min_distance_idx dist visited ≡ some u)
  unfolding get_min_distance_idx
  get_min_distance_idx_found v o le = elim (Option-cases (get_min_distance_idx dist visited)) [
    | inl nothing ↦ absurd (
        omega
          (arith, ((min_distance_from-Best 0 visited dist int_max none n).nothing nothing).1 v o))
    | inr found ↦ found
  ]
