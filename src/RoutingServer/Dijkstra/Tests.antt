-- ===== src/RoutingServer/Dijkstra/Tests.antt =====
-- The theorems on `dijkstra` at a triangle of three nodes, where the direct edge is the longer way.
use in_lib.Base.{ℕ, zero, suc, ◌≤◌, ◌≡◌, ◌↔◌, refl, true, false, some, List, [], ◌∷◌, arith, get_or}
use in_lib.Base.Outcomes.{done, failed, undefined}
use in_lib.RoutingServer.Dijkstra.Overflow.{AreSmall}
use in_lib.RoutingServer.Dijkstra.{int_max, weight, Matrix, Route, dijkstra, get_min_distance_idx}
use in_lib.RoutingServer.Dijkstra.MinDistance.{open_at, get_min_distance_idx-least}
use in_lib.RoutingServer.Dijkstra.Walk.{IsSymmetric}
use in_lib.RoutingServer.Dijkstra.Correct.{
  AllReachable, IsShortest, dijkstra-IsShortest, dijkstra_returns,
}

abbrev triangle : Matrix
triangle = (0 ∷ 1 ∷ 5 ∷ []) ∷ (1 ∷ 0 ∷ 2 ∷ []) ∷ (5 ∷ 2 ∷ 0 ∷ []) ∷ []

abbrev distances : List ℕ
distances = 0 ∷ 1 ∷ 3 ∷ []

abbrev shortest_routes : List Route
shortest_routes = (0 ∷ []) ∷ (0 ∷ 1 ∷ []) ∷ (0 ∷ 1 ∷ 2 ∷ []) ∷ []

triangle-IsSymmetric : IsSymmetric triangle
triangle-IsSymmetric zero zero = refl
triangle-IsSymmetric zero (suc zero) = refl
triangle-IsSymmetric zero (suc (suc zero)) = refl
triangle-IsSymmetric zero (suc (suc (suc j))) = refl
triangle-IsSymmetric (suc zero) zero = refl
triangle-IsSymmetric (suc zero) (suc zero) = refl
triangle-IsSymmetric (suc zero) (suc (suc zero)) = refl
triangle-IsSymmetric (suc zero) (suc (suc (suc j))) = refl
triangle-IsSymmetric (suc (suc zero)) zero = refl
triangle-IsSymmetric (suc (suc zero)) (suc zero) = refl
triangle-IsSymmetric (suc (suc zero)) (suc (suc zero)) = refl
triangle-IsSymmetric (suc (suc zero)) (suc (suc (suc j))) = refl
triangle-IsSymmetric (suc (suc (suc i))) zero = refl
triangle-IsSymmetric (suc (suc (suc i))) (suc zero) = refl
triangle-IsSymmetric (suc (suc (suc i))) (suc (suc zero)) = refl
triangle-IsSymmetric (suc (suc (suc i))) (suc (suc (suc j))) = refl

triangle_small : (i j : ℕ) → weight triangle i j ≤ 5
triangle_small zero zero = omega arith
triangle_small zero (suc zero) = omega arith
triangle_small zero (suc (suc zero)) = omega arith
triangle_small zero (suc (suc (suc j))) = omega arith
triangle_small (suc zero) zero = omega arith
triangle_small (suc zero) (suc zero) = omega arith
triangle_small (suc zero) (suc (suc zero)) = omega arith
triangle_small (suc zero) (suc (suc (suc j))) = omega arith
triangle_small (suc (suc zero)) zero = omega arith
triangle_small (suc (suc zero)) (suc zero) = omega arith
triangle_small (suc (suc zero)) (suc (suc zero)) = omega arith
triangle_small (suc (suc zero)) (suc (suc (suc j))) = omega arith
triangle_small (suc (suc (suc i))) j = omega arith

triangle-AreSmall : AreSmall triangle 3 5
triangle-AreSmall = record { small = triangle_small; product = omega arith }

dijkstra-triangle : dijkstra true 0 triangle 3 ≡ done (distances, shortest_routes)
unfolding dijkstra
dijkstra-triangle = refl

-- The way over the third node has a sum above INT_MAX, which the code forms.
overflowing :
    dijkstra true 0 ((0 ∷ 2 ∷ 1 ∷ []) ∷ (2 ∷ 0 ∷ int_max ∷ []) ∷ (1 ∷ int_max ∷ 0 ∷ []) ∷ []) 3
    ≡ undefined
unfolding dijkstra
overflowing = refl

-- Two nodes without an edge: the second is not reached.
dijkstra-apart : dijkstra true 0 ((0 ∷ 0 ∷ []) ∷ (0 ∷ 0 ∷ []) ∷ []) 2 ≡ failed
unfolding dijkstra
dijkstra-apart = refl

dijkstra-IsShortest_example :
    IsShortest triangle 3 0 (omega arith) triangle-IsSymmetric distances shortest_routes 2
dijkstra-IsShortest_example =
    dijkstra-IsShortest triangle 3 0 (omega arith) triangle-IsSymmetric distances shortest_routes
      dijkstra-triangle 2 (omega arith)

dijkstra_returns_example :
    ((result : List ℕ × List Route) × (dijkstra true 0 triangle 3 ≡ done result))
    ↔ AllReachable triangle 3 0 (omega arith)
dijkstra_returns_example =
    dijkstra_returns triangle 3 0 (omega arith) triangle-IsSymmetric 5 triangle-AreSmall

least-triangle : get_min_distance_idx distances (true ∷ false ∷ false ∷ []) ≡ some 1
unfolding get_min_distance_idx
least-triangle = refl

least_of_triangle :
    (open_at (true ∷ false ∷ false ∷ []) 1 ≡ true)
    × ((v : ℕ)
        → open_at (true ∷ false ∷ false ∷ []) v ≡ true
        → get_or distances 1 0 ≤ get_or distances v 0)
least_of_triangle =
    get_min_distance_idx-least distances (true ∷ false ∷ false ∷ []) refl 1 least-triangle
