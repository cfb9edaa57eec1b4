-- ===== src/RoutingServer/Communication.antt =====
-- home_exam/routing_server/src/routing_server_communication.c: what the routing server receives from
-- the nodes and sends to them. A connection is what the node has sent on it; those that are accepted
-- stand in the order of `accept`, and `none` is a failure of `accept`.
use in_lib.Base.{
  ℕ, ◌*◌, Bool, Option, none, some, List, [], ◌∷◌, ◌++◌, length, if◌then◌else◌, Status, success,
  failure, ◌>>=◌,
}
use in_lib.Base.Int.{ℤ}
use in_lib.Base.Words.{u32_at, u32s_at, write_u32}
use in_lib.Sockets.{Received, receive_n_bytes_message, send_message}
use in_lib.RoutingServer.Network.{Node, Neighbor, RoutingTable, IndexToAddress, write_rows}
use in_lib.RoutingServer.RoutingTables.{translate_table_from_idx_to_address}

-- `allocateIntArray`. `malloc_ok n` says whether there is memory for `n` integers.
abbrev pub allocate_int_array : (ℕ → Bool) → ℕ → Status
allocate_int_array malloc_ok n = if malloc_ok n then success else failure

-- The node's two arrays.
unfoldable pub allocate_neighbor_addresses_and_edge_weights : (ℕ → Bool) → ℕ → Status
allocate_neighbor_addresses_and_edge_weights malloc_ok n_neighbors =
    elim (allocate_int_array malloc_ok n_neighbors) [
      | failure ↦ failure
      | success ↦ allocate_int_array malloc_ok n_neighbors
    ]

-- The two arrays of a node, which have the same length.
abbrev pub with_weights : List ℕ → List ℕ → List Neighbor
with_weights [] weights = []
with_weights (a ∷ addresses) [] = []
with_weights (a ∷ addresses) (w ∷ weights) =
    record { address = a; weight = w } ∷ with_weights addresses weights

-- The two arrays of a node are allocated and received.
unfoldable pub receive_neighbors :
    (ℕ → Bool) → (ℕ → List ℕ → Received) → ℕ → List ℕ → Option (List Neighbor × List ℕ)
unfolding receive_n_bytes_message allocate_neighbor_addresses_and_edge_weights
receive_neighbors malloc_ok recv n_neighbors connection =
    elim (allocate_neighbor_addresses_and_edge_weights malloc_ok n_neighbors) [
      | failure ↦ none
      | success ↦ do
        (addresses, connection1) ← receive_n_bytes_message recv (4 * n_neighbors) connection
        (weights, rest) ← receive_n_bytes_message recv (4 * n_neighbors) connection1
        some (with_weights (u32s_at n_neighbors addresses) (u32s_at n_neighbors weights), rest)
    ]

-- The body of the loop of `populateNodeArray`, on the connection that was accepted.
unfoldable pub populate_node :
    (ℕ → Bool) → (ℕ → List ℕ → Received) → List ℕ → Option (Node × List ℕ)
unfolding receive_n_bytes_message receive_neighbors
populate_node malloc_ok recv connection = do
  (address, connection1) ← receive_n_bytes_message recv 4 connection
  (n_neighbors, connection2) ← receive_n_bytes_message recv 4 connection1
  (neighbors, rest) ← receive_neighbors malloc_ok recv (u32_at n_neighbors) connection2
  some (record { address = u32_at address; neighbors = neighbors }, rest)

-- `populateNodeArray`: one connection for each of the nodes.
unfoldable pub populate_node_array :
    (ℕ → Bool) → (ℕ → List ℕ → Received) → List (Option (List ℕ)) → Option (List Node)
unfolding populate_node
populate_node_array malloc_ok recv [] = some []
populate_node_array malloc_ok recv (accepted ∷ connections) = do
  connection ← accepted
  (node, rest) ← populate_node malloc_ok recv connection
  nodes ← populate_node_array malloc_ok recv connections
  some (node ∷ nodes)

-- The body of the loop of `sendRoutingTables`: the bytes that go to the node.
unfoldable pub send_routing_table :
    Bool → (List ℕ → ℤ) → IndexToAddress → RoutingTable → Option (List ℕ)
unfolding translate_table_from_idx_to_address send_message
send_routing_table realloc_ok send index_to_address table = do
  addressed ← translate_table_from_idx_to_address realloc_ok index_to_address table
  n_rows ← send_message send (write_u32 (length addressed))
  elim addressed [
    | [] ↦ some n_rows
    | r ∷ rows ↦ send_message send (write_rows (r ∷ rows)) >>= λ sent. some (n_rows ++ sent)
  ]

-- `sendRoutingTables`: the bytes for each of the nodes.
unfoldable pub send_routing_tables :
    Bool → (List ℕ → ℤ) → IndexToAddress → List RoutingTable → Option (List (List ℕ))
unfolding send_routing_table
send_routing_tables realloc_ok send index_to_address [] = some []
send_routing_tables realloc_ok send index_to_address (t ∷ ts) = do
  bytes ← send_routing_table realloc_ok send index_to_address t
  rest ← send_routing_tables realloc_ok send index_to_address ts
  some (bytes ∷ rest)
