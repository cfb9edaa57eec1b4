-- ===== src/RoutingServer/AdjacencyMatrix/Tests.antt =====
-- A run of `createAdjacencyMatrix`.
use in_lib.Base.{ℕ, true, ◌≡◌, refl, some, List, [], ◌∷◌, if◌then◌else◌}
use in_lib.RoutingServer.Network.{EdgeArray, Node, Neighbor, get_index_from_address}
use in_lib.RoutingServer.Dijkstra.{Matrix, weight}
use in_lib.RoutingServer.AdjacencyMatrix.{create_adjacency_matrix}
use in_lib.RoutingServer.AdjacencyMatrix.Correct.{
  weight-create_adjacency_matrix, is_removed, nodes_weight,
}

abbrev neighbor : ℕ → ℕ → Neighbor
neighbor a w = record { address = a; weight = w }

abbrev nodes : List Node
nodes =
    record { address = 30; neighbors = neighbor 10 5 ∷ neighbor 20 4 ∷ [] }
    ∷ record { address = 10; neighbors = neighbor 30 5 ∷ [] }
    ∷ record { address = 20; neighbors = neighbor 30 6 ∷ [] }
    ∷ []

abbrev invalid : EdgeArray
invalid = record {
  array = record { low_node_address = 20; high_node_address = 30 } ∷ [];
  max_edges = 3;
}

abbrev matrix : Matrix
matrix = (0 ∷ 5 ∷ 0 ∷ []) ∷ (5 ∷ 0 ∷ 0 ∷ []) ∷ (0 ∷ 0 ∷ 0 ∷ []) ∷ []

nodes_run : create_adjacency_matrix true nodes (30 ∷ 10 ∷ 20 ∷ []) invalid ≡ some matrix
unfolding create_adjacency_matrix get_index_from_address
nodes_run = refl

weight-create_adjacency_matrix_example : weight matrix 0 1 ≡ (
    if is_removed (30 ∷ 10 ∷ 20 ∷ []) invalid.array 0 1
    then 0
    else nodes_weight (30 ∷ 10 ∷ 20 ∷ []) nodes 0 1 0)
weight-create_adjacency_matrix_example =
    weight-create_adjacency_matrix true nodes (30 ∷ 10 ∷ 20 ∷ []) invalid matrix refl nodes_run 0 1
