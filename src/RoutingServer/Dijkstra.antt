-- ===== src/RoutingServer/Dijkstra.antt =====
-- home_exam/routing_server/src/dijkstra.c: the definitions. Indices, distances and weights are
-- numbers of at least 0. A sum of two `int`s above INT_MAX is undefined behaviour: the outcome is
-- `undefined` when the code forms one.
pub mod MinDistance
pub mod Neighbors
pub mod Relax
pub mod Walk
pub mod Invariant
pub mod Round
pub mod Overflow
pub mod Correct
pub mod Routes
mod Tests
use in_lib.Base.{
  ℕ, zero, suc, ◌+◌, ◌-◌, Bool, true, false, not, ◌&&◌, ◌||◌, Option, none, some, List, [], ◌∷◌,
  ◌++◌, ◌==◌, ltb, leb, if◌then◌else◌, length, get_or, set, replicate,
}
use in_lib.Base.Outcomes.{Outcome, done, failed, undefined, ◌>>=◌, some_or_failed}

-- INT_MAX of a 32 bit `int`.
abbrev pub int_max : ℕ
int_max = 2147483647

-- A sum is a value of type `int`.
abbrev pub fits : ℕ → Bool
fits sum = leb sum int_max

abbrev pub Matrix : Type 0
Matrix = List (List ℕ)

-- `adjacencyMatrix[i]`.
abbrev pub row : Matrix → ℕ → List ℕ
row m i = get_or m i []

-- `adjacencyMatrix[i][j]`, where 0 says that there is no edge.
abbrev pub weight : Matrix → ℕ → ℕ → ℕ
weight m i j = get_or (row m i) j 0

-- `route[0]` to `route[nHops]` of a `struct Route`: nHops + 1 indices, so [] is nHops == -1.
abbrev pub Route : Type 0
Route = List ℕ

-- The loop of `getMinDistanceIdx` from index `i` on, over what is left of the two arrays, with
-- `minDist` and `minIdx` (`none` is -1).
unfoldable pub min_distance_from : ℕ → List Bool → List ℕ → ℕ → Option ℕ → Option ℕ
min_distance_from i [] dist min_dist min_idx = min_idx
min_distance_from i (v ∷ visited) [] min_dist min_idx = min_idx
min_distance_from i (v ∷ visited) (d ∷ dist) min_dist min_idx =
    let take_it = not v && leb d min_dist in
    min_distance_from (suc i) visited dist (if take_it then d else min_dist)
      (if take_it then some i else min_idx)

unfoldable pub get_min_distance_idx : List ℕ → List Bool → Option ℕ
unfolding min_distance_from
get_min_distance_idx dist visited = min_distance_from 0 visited dist int_max none

-- Step 1 of `registerRoute`, from index `j` on: the neighbors that are visited.
unfoldable pub visited_neighbors : ℕ → List ℕ → List Bool → List ℕ
visited_neighbors j [] visited = []
visited_neighbors j (w ∷ ws) [] = []
visited_neighbors j (w ∷ ws) (v ∷ visited) =
    let rest = visited_neighbors (suc j) ws visited in if not (w == 0) && v then j ∷ rest else rest

-- The sums that step 2 forms for the visited neighbors are all defined.
unfoldable pub costs_fit : (ℕ → ℕ) → List ℕ → Bool
costs_fit cost [] = true
costs_fit cost (j ∷ js) = fits (cost j) && costs_fit cost js

-- Step 2: `minDistNeighbor` and `minDistNeighborIdx` (`none` is INT_MAX); `cost` is the sum that the
-- code writes out.
unfoldable pub closest : (ℕ → ℕ) → List ℕ → ℕ → Option ℕ → ℕ × Option ℕ
closest cost [] best best_idx = (best, best_idx)
closest cost (j ∷ js) best best_idx =
    let less = ltb (cost j) best in
    closest cost js (if less then cost j else best) (if less then some j else best_idx)

abbrev pub is_none {ℓ} : {A : Type ℓ} → Option A → Bool
is_none none = true
is_none (some a) = false

-- The test behind step 2: the index of the neighbor, or EXIT_FAILURE.
abbrev pub checked : ℕ × Option ℕ → Option ℕ
checked (best, idx) = if (best == int_max) || is_none idx then none else idx

-- `registerRoute`; steps 3 and 4 are the route to the neighbor, and one hop more.
unfoldable pub register_route :
    ℕ → ℕ → Matrix → List Bool → List ℕ → List Route → Outcome (List Route)
unfolding visited_neighbors costs_fit closest
register_route src cur m visited dist routes =
    let cost = λ (j : ℕ). get_or dist j 0 + weight m cur j in
    let neighbors = visited_neighbors 0 (row m cur) visited in
    if src == cur
    then done (set routes cur (src ∷ []))
    else if costs_fit cost neighbors
    then (some_or_failed (checked (closest cost neighbors int_max none)) >>= λ j.
        done (set routes cur (get_or routes j [] ++ cur ∷ [])))
    else undefined

-- The loop that updates the distances of the nodes that are not visited, by the distance `d` and the
-- row of `minIdx`. That distance is not written in the loop, since `minIdx` is visited.
unfoldable pub relax : ℕ → List Bool → List ℕ → List ℕ → List ℕ
relax d [] ws dist = dist
relax d (v ∷ visited) [] dist = dist
relax d (v ∷ visited) (w ∷ ws) [] = []
relax d (v ∷ visited) (w ∷ ws) (e ∷ dist) =
    (if not v && (not (w == 0) && (not (d == int_max) && ltb (d + w) e)) then d + w else e)
    ∷ relax d visited ws dist

-- The sums that this loop forms are all defined.
unfoldable pub sums_fit : ℕ → List Bool → List ℕ → Bool
sums_fit d [] ws = true
sums_fit d (v ∷ visited) [] = true
sums_fit d (v ∷ visited) (w ∷ ws) =
    (if not v && (not (w == 0) && not (d == int_max)) then fits (d + w) else true)
    && sums_fit d visited ws

pub record State : Type 0 where
  pub visited : List Bool
  pub distance : List ℕ
  pub routes : List Route

-- The update behind the route of a round, with the node `u` and `left` rounds to go: the last round
-- does not update.
unfoldable pub update : ℕ → Matrix → ℕ → List Bool → List ℕ → Outcome (List ℕ)
unfolding relax sums_fit
update u m left visited dist =
    let d = get_or dist u 0 in
    if left == 0
    then done dist
    else if sums_fit d visited (row m u)
    then done (relax d visited (row m u) dist)
    else undefined

-- One round of the main loop, with `left` rounds behind it.
unfoldable pub round : ℕ → Matrix → ℕ → State → Outcome State
unfolding get_min_distance_idx register_route update
round src m left s = do
  min_idx ← some_or_failed (get_min_distance_idx s.distance s.visited)
  let visited = set s.visited min_idx true
  routes ← register_route src min_idx m visited s.distance s.routes
  distance ← update min_idx m left visited s.distance
  done (record { visited = visited; distance = distance; routes = routes })

unfoldable pub rounds : ℕ → Matrix → ℕ → State → Outcome State
unfolding round
rounds src m zero s = done s
rounds src m (suc left) s = round src m left s >>= λ s'. rounds src m left s'

abbrev pub start : ℕ → ℕ → State
start src n = record {
  visited = replicate n false;
  distance = set (replicate n int_max) src 0;
  routes = replicate n [];
}

-- `dijkstra` on `n` nodes: `distanceArray` and `routeArray`. `malloc_ok` says whether the three
-- arrays are allocated.
unfoldable pub dijkstra : Bool → ℕ → Matrix → ℕ → Outcome (List ℕ × List Route)
unfolding rounds
dijkstra malloc_ok src m n =
    if malloc_ok
    then rounds src m n (start src n) >>= (λ s. done (s.distance, s.routes))
    else failed
