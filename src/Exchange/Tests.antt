-- ===== src/Exchange/Tests.antt =====
-- The exchange of three nodes in a row, of the addresses 7, 1 and 9 in the order in which they connect.
use in_lib.Base.{
  ℕ, ◌<◌, ◌≡◌, refl, Bool, true, some, List, [], ◌∷◌, ◌++◌, arith, length, map, get_or, take, drop,
  take-length-append, drop-length-append,
}
use in_lib.Base.Int.{ℤ, pos}
use in_lib.Sockets.{Received, WaitsForAll}
use in_lib.RoutingServer.Network.{
  Node, Neighbor, RoutingTable, RoutingTableRow, get_index_from_address,
}
use in_lib.RoutingServer.Validation.{check_all_nodes_received}
use in_lib.RoutingServer.AdjacencyMatrix.{create_adjacency_matrix}
use in_lib.RoutingServer.Communication.{populate_node_array}
use in_lib.RoutingServer.Server.{serve, run_server}
use in_lib.Node.Messages.{receive_routing_table, send_edge_information}
use in_lib.Exchange.Registration.{IsNodeOfInts, populate_node_array-send_edge_information}
use in_lib.Exchange.Delivery.{run_server-receive_routing_table}

abbrev recv : ℕ → List ℕ → Received
recv n connection = record {
  count = pos (length (take n connection));
  bytes = take n connection;
  rest = drop n connection;
}

recv-WaitsForAll : WaitsForAll recv
recv-WaitsForAll bytes rest = rw (take-length-append bytes rest, drop-length-append bytes rest) refl

abbrev send : List ℕ → ℤ
send bytes = pos (length bytes)

abbrev enough : ℕ → Bool
enough n = true

abbrev neighbor : ℕ → ℕ → Neighbor
neighbor a w = record { address = a; weight = w }

abbrev leaf : ℕ → ℕ → ℕ → Node
leaf address a w = record { address = address; neighbors = neighbor a w ∷ [] }

abbrev nodes : List Node
nodes =
    record { address = 7; neighbors = neighbor 1 4 ∷ neighbor 9 2 ∷ [] }
    ∷ leaf 1 7 4
    ∷ leaf 9 7 2
    ∷ []

first-IsNodeOfInts :
    IsNodeOfInts (record { address = 7; neighbors = neighbor 1 4 ∷ neighbor 9 2 ∷ [] })
first-IsNodeOfInts = record {
  address = omega arith;
  few = omega arith;
  addresses = (omega arith, (omega arith, tt));
  weights = (omega arith, (omega arith, tt));
}

leaf-IsNodeOfInts :
    (address a w : ℕ)
    → address < 2147483648
    → a < 2147483648
    → w < 2147483648
    → IsNodeOfInts (leaf address a w)
leaf-IsNodeOfInts address a w address_lt a_lt w_lt = record {
  address = address_lt;
  few = omega arith;
  addresses = (a_lt, tt);
  weights = (w_lt, tt);
}

leaf_sent :
    send_edge_information send (leaf 1 300 4)
    ≡ some (
        (1 ∷ 0 ∷ 0 ∷ 0 ∷ [])
        ++ (1 ∷ 0 ∷ 0 ∷ 0 ∷ [])
        ++ (44 ∷ 1 ∷ 0 ∷ 0 ∷ [])
        ++ (4 ∷ 0 ∷ 0 ∷ 0 ∷ []))
unfolding send_edge_information
leaf_sent = refl

abbrev table_row : ℕ → ℕ → RoutingTableRow
table_row d h = record { destination = d; next_hop = h }

abbrev tables : List RoutingTable
tables = (table_row 9 9 ∷ []) ∷ (table_row 7 7 ∷ table_row 9 7 ∷ []) ∷ [] ∷ []

served : serve nodes ≡ some (4 ∷ 0 ∷ 6 ∷ [], tables)
unfolding serve get_index_from_address check_all_nodes_received create_adjacency_matrix
served = refl

populate_node_array-send_edge_information_example :
    populate_node_array enough recv (map (send_edge_information send) nodes) ≡ some nodes
populate_node_array-send_edge_information_example =
    populate_node_array-send_edge_information enough recv send nodes recv-WaitsForAll
      (λ bytes. refl)
      (
        first-IsNodeOfInts,
        (
          leaf-IsNodeOfInts 1 7 4 (omega arith) (omega arith) (omega arith),
          (leaf-IsNodeOfInts 9 7 2 (omega arith) (omega arith) (omega arith), tt),
        ),
      )
      (refl, (refl, (refl, tt)))

run_server-receive_routing_table_example :
    (sent : List (List ℕ)) × (run_server enough recv send (map (send_edge_information send) nodes)
      ≡ some (4 ∷ 0 ∷ 6 ∷ [], sent))
    × (length sent ≡ 3)
    × ((i : ℕ)
        → i < 3
        → receive_routing_table enough recv (get_or sent i []) ≡ some (get_or tables i [], []))
run_server-receive_routing_table_example =
    run_server-receive_routing_table enough enough recv send nodes (4 ∷ 0 ∷ 6 ∷ []) tables
      recv-WaitsForAll (λ bytes. refl)
      (
        first-IsNodeOfInts,
        (
          leaf-IsNodeOfInts 1 7 4 (omega arith) (omega arith) (omega arith),
          (leaf-IsNodeOfInts 9 7 2 (omega arith) (omega arith) (omega arith), tt),
        ),
      )
      (refl, (refl, (refl, tt)))
      ((omega arith, λ h. refl), ((omega arith, λ h. refl), ((omega arith, λ h. refl), tt))) served
