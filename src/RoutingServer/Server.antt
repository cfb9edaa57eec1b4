-- ===== src/RoutingServer/Server.antt =====
-- home_exam/routing_server/src/routing_server.c: what the main program computes from the nodes that
-- have reported, when there is memory.
pub mod Weights
pub mod Symmetric
pub mod Correct
mod Tests
use in_lib.Base.{ℕ, Bool, true, Option, none, some, List, [], ◌∷◌, map, length, ◌>>=◌}
use in_lib.Base.Int.{ℤ}
use in_lib.Base.Outcomes.{returned}
use in_lib.Sockets.{Received}
use in_lib.RoutingServer.Communication.{populate_node_array, send_routing_tables}
use in_lib.RoutingServer.Network.{
  Node, EdgeArray, IndexToAddress, RoutingTable, get_index_from_address,
}
use in_lib.RoutingServer.Validation.{check_all_nodes_received, max_edges_of}
use in_lib.RoutingServer.AdjacencyMatrix.{create_adjacency_matrix}
use in_lib.RoutingServer.Dijkstra.{Matrix, Route, dijkstra}
use in_lib.RoutingServer.RoutingTables.{
  create_routing_table_array, translate_table_from_idx_to_address,
}

-- From the matrix to the tables. Here and below `none` is EXIT_FAILURE, or a sum of `dijkstra` that is
-- not defined.
unfoldable pub route_tables : Matrix → ℕ → ℕ → Option (List ℕ × List RoutingTable)
unfolding dijkstra create_routing_table_array
route_tables m src n = returned (dijkstra true src m n) >>= λ (distances, routes).
    create_routing_table_array true true routes >>= λ tables. some (distances, tables)

-- The tables that `sendRoutingTables` sends, in the order of the nodes.
unfoldable pub translate_tables : IndexToAddress → List RoutingTable → Option (List RoutingTable)
unfolding translate_table_from_idx_to_address
translate_tables index_to_address [] = some []
translate_tables index_to_address (t ∷ ts) =
    translate_table_from_idx_to_address true index_to_address t >>= λ first.
    translate_tables index_to_address ts >>= λ rest. some (first ∷ rest)

abbrev pub node_addresses : List Node → IndexToAddress
node_addresses node_array = map (λ (x : Node). x.address) node_array

-- From the nodes to the tables.
unfoldable pub compute_tables : List Node → Option (List ℕ × List RoutingTable)
unfolding route_tables
compute_tables node_array =
    let n = length node_array in
    let index_to_address = node_addresses node_array in
    check_all_nodes_received true node_array (record { array = []; max_edges = max_edges_of n })
    >>= λ invalid. create_adjacency_matrix true node_array index_to_address invalid >>= λ m.
        get_index_from_address 1 index_to_address >>= λ src. route_tables m src n

-- The distances, and the tables that the nodes are sent.
unfoldable pub serve : List Node → Option (List ℕ × List RoutingTable)
unfolding compute_tables translate_tables
serve node_array = compute_tables node_array >>= λ (distances, tables).
    translate_tables (node_addresses node_array) tables >>= λ addressed. some (distances, addressed)

-- From the connections that are accepted to what is sent on them.
unfoldable pub run_server :
    (ℕ → Bool)
    → (ℕ → List ℕ → Received)
    → (List ℕ → ℤ)
    → List (Option (List ℕ))
    → Option (List ℕ × List (List ℕ))
unfolding compute_tables populate_node_array send_routing_tables
run_server malloc_ok recv send connections =
    populate_node_array malloc_ok recv connections >>= λ node_array.
    compute_tables node_array >>= λ (distances, tables).
    send_routing_tables true send (node_addresses node_array) tables >>= λ sent.
    some (distances, sent)
