-- ===== src/RoutingServer/Server/Tests.antt =====
-- The server on a network of three nodes in a row: the addresses 7, 1 and 9, in this order of
-- arrival.
use in_lib.Base.{
  ℕ, zero, suc, ◌+◌, ◌<◌, ◌≤◌, ◌≡◌, refl, true, some, List, [], ◌∷◌, arith, length, get_or,
}
use in_lib.RoutingServer.Network.{
  EdgeArray, Node, Neighbor, RoutingTable, RoutingTableRow, get_index_from_address,
}
use in_lib.RoutingServer.Dijkstra.{Matrix, Route}
use in_lib.RoutingServer.Dijkstra.Walk.{Walk, IsSymmetric}
use in_lib.RoutingServer.RoutingTables.Complete.{HasRow}
use in_lib.RoutingServer.Validation.{check_all_nodes_received}
use in_lib.RoutingServer.AdjacencyMatrix.{create_adjacency_matrix}
use in_lib.RoutingServer.Server.{route_tables, serve}
use in_lib.RoutingServer.Server.Correct.{route_tables-HasRow, serve-HasRow}
use in_lib.RoutingServer.Server.Symmetric.{create_adjacency_matrix-IsSymmetric}

abbrev neighbor : ℕ → ℕ → Neighbor
neighbor a w = record { address = a; weight = w }

abbrev nodes : List Node
nodes =
    record { address = 7; neighbors = neighbor 1 4 ∷ neighbor 9 2 ∷ [] }
    ∷ record { address = 1; neighbors = neighbor 7 4 ∷ [] }
    ∷ record { address = 9; neighbors = neighbor 7 2 ∷ [] }
    ∷ []

abbrev table_row : ℕ → ℕ → RoutingTableRow
table_row d h = record { destination = d; next_hop = h }

nodes_served :
    serve nodes
    ≡ some (4 ∷ 0 ∷ 6 ∷ [], (table_row 9 9 ∷ []) ∷ (table_row 7 7 ∷ table_row 9 7 ∷ []) ∷ [] ∷ [])
unfolding serve get_index_from_address check_all_nodes_received create_adjacency_matrix
nodes_served = refl

abbrev two : Matrix
two = (0 ∷ 4 ∷ []) ∷ (4 ∷ 0 ∷ []) ∷ []

two-IsSymmetric : IsSymmetric two
two-IsSymmetric zero zero = refl
two-IsSymmetric zero (suc zero) = refl
two-IsSymmetric zero (suc (suc j)) = refl
two-IsSymmetric (suc zero) zero = refl
two-IsSymmetric (suc zero) (suc zero) = refl
two-IsSymmetric (suc zero) (suc (suc j)) = refl
two-IsSymmetric (suc (suc i)) zero = refl
two-IsSymmetric (suc (suc i)) (suc zero) = refl
two-IsSymmetric (suc (suc i)) (suc (suc j)) = refl

abbrev two_tables : List RoutingTable
two_tables = (table_row 1 1 ∷ []) ∷ [] ∷ []

two_routed : route_tables two 0 2 ≡ some (0 ∷ 4 ∷ [], two_tables)
unfolding route_tables
two_routed = refl

route_tables-HasRow_example :
    (r : Route) × Walk two 2 0 1 4 r
    × ((l : ℕ) (q : Route) → Walk two 2 0 1 l q → 4 ≤ l)
    × ((i k : ℕ) → i + suc k < length r → HasRow two_tables (get_or r i 0) (get_or r (i + suc k) 0))
route_tables-HasRow_example =
    route_tables-HasRow two 2 0 (0 ∷ 4 ∷ []) two_tables (omega arith) two-IsSymmetric two_routed 1
      (omega arith)

abbrev addresses : List ℕ
addresses = 7 ∷ 1 ∷ 9 ∷ []

abbrev served_tables : List RoutingTable
served_tables = (table_row 9 9 ∷ []) ∷ (table_row 7 7 ∷ table_row 9 7 ∷ []) ∷ [] ∷ []

serve-HasRow_example :
    (invalid : EdgeArray) × (m : Matrix) × (src : ℕ) × (check_all_nodes_received true nodes
        (record { array = []; max_edges = 3 })
      ≡ some invalid)
    × (create_adjacency_matrix true nodes addresses invalid ≡ some m)
    × IsSymmetric m
    × (get_index_from_address 1 addresses ≡ some src)
    × ((v : ℕ)
        → v < 3
        → (r : Route) × Walk m 3 src v (get_or (4 ∷ 0 ∷ 6 ∷ []) v 0) r
          × ((l : ℕ) (q : Route) → Walk m 3 src v l q → get_or (4 ∷ 0 ∷ 6 ∷ []) v 0 ≤ l)
          × ((i k : ℕ)
              → i + suc k < length r
              → HasRow served_tables (get_or r i 0) (get_or addresses (get_or r (i + suc k) 0) 0)))
serve-HasRow_example = serve-HasRow nodes (4 ∷ 0 ∷ 6 ∷ []) served_tables nodes_served

no_edge_invalid :
    check_all_nodes_received true nodes (record { array = []; max_edges = 3 })
    ≡ some (record { array = []; max_edges = 3 })
unfolding check_all_nodes_received
no_edge_invalid = refl

abbrev nodes_matrix : Matrix
nodes_matrix = (0 ∷ 4 ∷ 2 ∷ []) ∷ (4 ∷ 0 ∷ 0 ∷ []) ∷ (2 ∷ 0 ∷ 0 ∷ []) ∷ []

nodes_made :
    create_adjacency_matrix true nodes addresses (record { array = []; max_edges = 3 })
    ≡ some nodes_matrix
unfolding create_adjacency_matrix get_index_from_address
nodes_made = refl

create_adjacency_matrix-IsSymmetric_example : IsSymmetric nodes_matrix
create_adjacency_matrix-IsSymmetric_example =
    create_adjacency_matrix-IsSymmetric nodes 3 (record { array = []; max_edges = 3 }) nodes_matrix
      no_edge_invalid nodes_made
