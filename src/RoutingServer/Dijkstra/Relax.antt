-- ===== src/RoutingServer/Dijkstra/Relax.antt =====
-- The loop of `dijkstra` that updates the distances, node by node.
use in_lib.Base.{
  ℕ, zero, suc, ◌+◌, ◌<◌, ◌≡◌, refl, ap, Bool, true, not, ◌&&◌, List, [], ◌∷◌, arith, ltb, ◌==◌,
  if◌then◌else◌, length, get_or,
}
use in_lib.RoutingServer.Dijkstra.{int_max, relax}

pub length-relax :
    (d : ℕ) (visited : List Bool) (ws dist : List ℕ)
    → length (relax d visited ws dist) ≡ length dist
unfolding relax
length-relax d [] ws dist = refl
length-relax d (v ∷ visited) [] dist = refl
length-relax d (v ∷ visited) (w ∷ ws) [] = refl
length-relax d (v ∷ visited) (w ∷ ws) (e ∷ dist) = ap suc (length-relax d visited ws dist)

-- Node `k` is updated.
abbrev pub updates : ℕ → List Bool → List ℕ → List ℕ → ℕ → Bool
updates d visited ws dist k =
    not (get_or visited k true)
    && (not (get_or ws k 0 == 0)
        && (not (d == int_max) && ltb (d + get_or ws k 0) (get_or dist k 0)))

pub get_or-relax :
    (d : ℕ) (visited : List Bool) (ws dist : List ℕ) (k : ℕ)
    → k < length dist
    → get_or (relax d visited ws dist) k 0
      ≡ (if updates d visited ws dist k then d + get_or ws k 0 else get_or dist k 0)
unfolding relax
get_or-relax d [] ws dist k h = refl
get_or-relax d (v ∷ visited) [] dist zero h = ground arith
get_or-relax d (v ∷ visited) [] dist (suc k) h = ground arith
get_or-relax d (v ∷ visited) (w ∷ ws) [] k h = absurd (omega arith)
get_or-relax d (v ∷ visited) (w ∷ ws) (e ∷ dist) zero h = refl
get_or-relax d (v ∷ visited) (w ∷ ws) (e ∷ dist) (suc k) h =
    get_or-relax d visited ws dist k (omega arith)
