-- ===== src/Node/Messages.antt =====
-- home_exam/node/src/node_communication.c: what a node sends to the routing server and receives from
-- it, over one TCP connection.
use in_lib.Base.{
  ℕ, zero, suc, ◌*◌, Bool, Option, none, some, List, [], ◌++◌, map, length, if◌then◌else◌, Status,
  success, failure, ◌>>=◌,
}
use in_lib.Base.Int.{ℤ}
use in_lib.Base.Words.{u32_at, write_u32, write_u32s}
use in_lib.Sockets.{Received, receive_n_bytes_message, send_message}
use in_lib.RoutingServer.Network.{Node, Neighbor, RoutingTable, rows_at}

abbrev pub addresses_of : List Neighbor → List ℕ
addresses_of ns = map (λ (x : Neighbor). x.address) ns

abbrev pub weights_of : List Neighbor → List ℕ
weights_of ns = map (λ (x : Neighbor). x.weight) ns

-- `sendEdgeInformation`: the bytes that go to the server.
unfoldable pub send_edge_information : (List ℕ → ℤ) → Node → Option (List ℕ)
unfolding send_message
send_edge_information send node = do
  address ← send_message send (write_u32 node.address)
  size ← send_message send (write_u32 (length node.neighbors))
  addresses ← send_message send (write_u32s (addresses_of node.neighbors))
  weights ← send_message send (write_u32s (weights_of node.neighbors))
  some (address ++ (size ++ (addresses ++ weights)))

-- `allocateRoutingTable`: a table without rows needs no memory.
unfoldable pub allocate_routing_table : (ℕ → Bool) → ℕ → Status
allocate_routing_table calloc_ok zero = success
allocate_routing_table calloc_ok (suc n) = if calloc_ok (suc n) then success else failure

-- The table is allocated and received, when it has rows.
unfoldable pub receive_rows :
    (ℕ → Bool) → (ℕ → List ℕ → Received) → ℕ → List ℕ → Option (RoutingTable × List ℕ)
unfolding receive_n_bytes_message allocate_routing_table
receive_rows calloc_ok recv zero connection = some ([], connection)
receive_rows calloc_ok recv (suc n) connection = elim (allocate_routing_table calloc_ok (suc n)) [
  | failure ↦ none
  | success ↦ receive_n_bytes_message recv (8 * suc n) connection >>= λ (rows, rest).
      some (rows_at (suc n) rows, rest)
]

-- `receiveRoutingTable`: the table, and what is left on the connection.
unfoldable pub receive_routing_table :
    (ℕ → Bool) → (ℕ → List ℕ → Received) → List ℕ → Option (RoutingTable × List ℕ)
unfolding receive_rows
receive_routing_table calloc_ok recv connection =
    receive_n_bytes_message recv 4 connection >>= λ (n_rows, rest).
    receive_rows calloc_ok recv (u32_at n_rows) rest
