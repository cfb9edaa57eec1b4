-- ===== src/RoutingServer/Validation/Tests.antt =====
-- Runs of `checkAllNodesReceived`.
use in_lib.Base.{ℕ, true, ◌||◌, ◌≡◌, refl, none, some, List, [], ◌∷◌}
use in_lib.RoutingServer.Network.{Edge, EdgeArray, Node, Neighbor}
use in_lib.RoutingServer.Validation.{check_all_nodes_received, is_edge_present}
use in_lib.RoutingServer.Validation.Reports.{about, is_bad, reports}
use in_lib.RoutingServer.Validation.Correct.{
  check_all_nodes_received_marks, check_all_nodes_received_two_nodes,
}

abbrev neighbor : ℕ → ℕ → Neighbor
neighbor a w = record { address = a; weight = w }

-- 1 and 2 agree; 2 and 3 report different weights.
abbrev three_nodes : List Node
three_nodes =
    record { address = 1; neighbors = neighbor 2 5 ∷ [] }
    ∷ record { address = 2; neighbors = neighbor 1 5 ∷ neighbor 3 7 ∷ [] }
    ∷ record { address = 3; neighbors = neighbor 2 8 ∷ [] }
    ∷ []

abbrev edge_array : List Edge → EdgeArray
edge_array es = record { array = es; max_edges = 3 }

abbrev two_three : Edge
two_three = record { low_node_address = 2; high_node_address = 3 }

three_nodes_run :
    check_all_nodes_received true three_nodes (edge_array []) ≡ some (edge_array (two_three ∷ []))
unfolding check_all_nodes_received
three_nodes_run = refl

check_all_nodes_received_marks_example :
    is_edge_present two_three (two_three ∷ [])
    ≡ (is_edge_present two_three [] || is_bad (about two_three (reports three_nodes)))
check_all_nodes_received_marks_example =
    check_all_nodes_received_marks true three_nodes (edge_array []) (edge_array (two_three ∷ []))
      three_nodes_run two_three

check_all_nodes_received_two_nodes_example :
    check_all_nodes_received true
      (record { address = 1; neighbors = neighbor 2 5 ∷ [] }
        ∷ record { address = 2; neighbors = neighbor 1 5 ∷ [] }
        ∷ [])
      (edge_array [])
    ≡ none
check_all_nodes_received_two_nodes_example =
    check_all_nodes_received_two_nodes 1 2 5 5 (edge_array [])
