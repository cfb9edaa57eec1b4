-- ===== src/RoutingServer/Dijkstra/Walk.antt =====
-- Walks in the graph of an adjacency matrix, with their lengths and the indices that they pass: the
-- specification of `dijkstra`.
use in_lib.Base.{ℕ, ◌+◌, ◌<◌, ◌≡◌, ◌≢◌, [], ◌∷◌, ◌++◌}
use in_lib.RoutingServer.Dijkstra.{Matrix, Route, weight}

-- `Walk m n src v l r`: the indices `r`, all below `n`, lead from `src` to `v` along edges whose
-- weights add up to `l`.
pub data Walk (m : Matrix) (n src : ℕ) : ℕ → ℕ → Route → Type 0 where
  here : Walk m n src src 0 (src ∷ [])
  step :
      {u l : ℕ} {r : Route} (v : ℕ)
      → Walk m n src u l r
      → weight m u v ≢ 0
      → v < n
      → Walk m n src v (l + weight m u v) (r ++ v ∷ [])

-- The weights are the same in both directions.
abbrev pub IsSymmetric : Matrix → Type 0
IsSymmetric m = (i j : ℕ) → weight m i j ≡ weight m j i
