-- ===== src/Exchange/Delivery.antt =====
-- `sendRoutingTables` against `receiveRoutingTable`, and the whole exchange around the main program
-- of the routing server.
use in_lib.Base.{
  ℕ, zero, suc, ◌*◌, ◌<◌, ◌≡◌, refl, ap, ◌∙◌, subst, Bool, true, some, List, [], ◌∷◌, ◌++◌, map,
  length, length-map, get_or, All, arith, bind-some, bind-eq-some, some_inj,
}
use in_lib.Base.Int.{ℤ}
use in_lib.Base.Words.{write_u32, u32_at-write_u32}
use in_lib.Sockets.{
  Received, WaitsForAll, SendsAll, receive_n_bytes_message-append, receive_n_bytes_message-all,
  send_message-all,
}
use in_lib.RoutingServer.Network.{
  Node, RoutingTable, RoutingTableRow, IndexToAddress, write_rows, IsRowOfInts, length-write_rows,
  rows_at-write_rows,
}
use in_lib.RoutingServer.RoutingTables.{translate_table_from_idx_to_address}
use in_lib.RoutingServer.Communication.{send_routing_table, send_routing_tables}
use in_lib.RoutingServer.Server.{
  node_addresses, translate_tables, compute_tables, serve, run_server,
}
use in_lib.Node.Messages.{
  allocate_routing_table, receive_rows, receive_routing_table, send_edge_information,
}
use in_lib.Exchange.Registration.{IsNodeOfInts, populate_node_array-send_edge_information}

abbrev pub table_bytes : RoutingTable → List ℕ
table_bytes table = write_u32 (length table) ++ write_rows table

-- A node can hold the table.
abbrev pub HasRoom : (ℕ → Bool) → RoutingTable → Type 0
HasRoom calloc_ok table =
    (length table < 2147483648) × (0 < length table → calloc_ok (length table) ≡ true)

receive_rows-write_rows :
    (calloc_ok : ℕ → Bool) (recv : ℕ → List ℕ → Received) (table : RoutingTable)
    → WaitsForAll recv
    → HasRoom calloc_ok table
    → All IsRowOfInts table
    → receive_rows calloc_ok recv (length table) (write_rows table) ≡ some (table, [])
unfolding receive_rows allocate_routing_table
receive_rows-write_rows calloc_ok recv [] waits room ints = refl
receive_rows-write_rows calloc_ok recv (r ∷ rows) waits room ints =
    rw (receive_rows, allocate_routing_table, room.1 (omega arith))
      (bind-some _ _ _ _
        (receive_n_bytes_message-all recv (8 * length (r ∷ rows)) (write_rows (r ∷ rows)) waits
          (omega (arith, length-write_rows (r ∷ rows))))
        (ap (λ t. some (t, [])) (rows_at-write_rows (r ∷ rows) ints)))

-- The table that a node receives is the table whose bytes it was sent.
receive_routing_table-table_bytes :
    (calloc_ok : ℕ → Bool) (recv : ℕ → List ℕ → Received) (table : RoutingTable)
    → WaitsForAll recv
    → HasRoom calloc_ok table
    → All IsRowOfInts table
    → receive_routing_table calloc_ok recv (table_bytes table) ≡ some (table, [])
unfolding receive_routing_table
receive_routing_table-table_bytes calloc_ok recv table waits room ints =
    bind-some _ _ _ _
      (receive_n_bytes_message-append recv 4 (write_u32 (length table)) _ waits refl)
      (rw (u32_at-write_u32 (length table) [] (omega (arith, room.0)))
        (receive_rows-write_rows calloc_ok recv table waits room ints))

send_routing_table-translate :
    (send : List ℕ → ℤ) (addresses : IndexToAddress) (t u : RoutingTable)
    → SendsAll send
    → translate_table_from_idx_to_address true addresses t ≡ some u
    → send_routing_table true send addresses t ≡ some (table_bytes u)
unfolding send_routing_table
send_routing_table-translate send addresses t [] sends ran =
    bind-some _ _ _ _ ran (bind-some _ _ _ _ (send_message-all send _ sends) refl)
send_routing_table-translate send addresses t (r ∷ rows) sends ran = bind-some _ _ _ _ ran (
    bind-some _ _ _ _ (send_message-all send _ sends)
      (bind-some _ _ _ _ (send_message-all send _ sends) refl))

send_routing_tables-translate :
    (send : List ℕ → ℤ) (addresses : IndexToAddress) (ts us : List RoutingTable)
    → SendsAll send
    → translate_tables addresses ts ≡ some us
    → send_routing_tables true send addresses ts ≡ some (map table_bytes us)
unfolding send_routing_tables translate_tables
send_routing_tables-translate send addresses [] us sends ran =
    ap (λ vs. some (map table_bytes vs)) (some_inj ran)
send_routing_tables-translate send addresses (t ∷ ts) us sends ran =
    let (u, first, more) =
      bind-eq-some (translate_table_from_idx_to_address true addresses t) _ us ran in
    let (rest, others, result) =
      bind-eq-some (translate_tables addresses ts) (λ vs. some (u ∷ vs)) us more in
    bind-some _ _ _ _ (send_routing_table-translate send addresses t u sends first) (
      bind-some _ _ _ _ (send_routing_tables-translate send addresses ts rest sends others)
        (ap (λ vs. some (map table_bytes vs)) (some_inj result)))

get_or-int : (xs : List ℕ) (i : ℕ) → All (λ x. x < 2147483648) xs → get_or xs i 0 < 2147483648
get_or-int [] i h = omega arith
get_or-int (x ∷ xs) zero h = h.0
get_or-int (x ∷ xs) (suc i) h = get_or-int xs i h.1

translated_rows-ints :
    (addresses : IndexToAddress) (t : RoutingTable)
    → All (λ x. x < 2147483648) addresses
    → All IsRowOfInts (
        map
          (λ (x : RoutingTableRow). record {
            destination = get_or addresses x.destination 0;
            next_hop = get_or addresses x.next_hop 0;
          })
          t)
translated_rows-ints addresses [] h = tt
translated_rows-ints addresses (r ∷ t) h = (
  (get_or-int addresses r.destination h, get_or-int addresses r.next_hop h),
  translated_rows-ints addresses t h,
)

translate_table-ints :
    (addresses : IndexToAddress) (t u : RoutingTable)
    → All (λ x. x < 2147483648) addresses
    → translate_table_from_idx_to_address true addresses t ≡ some u
    → All IsRowOfInts u
unfolding translate_table_from_idx_to_address
translate_table-ints addresses [] u h ran = subst (All IsRowOfInts) (some_inj ran) tt
translate_table-ints addresses (r ∷ t) u h ran =
    subst (All IsRowOfInts) (some_inj ran) (translated_rows-ints addresses (r ∷ t) h)

translate_tables-ints :
    (addresses : IndexToAddress) (ts us : List RoutingTable)
    → All (λ x. x < 2147483648) addresses
    → translate_tables addresses ts ≡ some us
    → All (All IsRowOfInts) us
unfolding translate_tables
translate_tables-ints addresses [] us h ran = subst (All (All IsRowOfInts)) (some_inj ran) tt
translate_tables-ints addresses (t ∷ ts) us h ran =
    let (u, first, more) =
      bind-eq-some (translate_table_from_idx_to_address true addresses t) _ us ran in
    let (rest, others, result) =
      bind-eq-some (translate_tables addresses ts) (λ vs. some (u ∷ vs)) us more in
    subst (All (All IsRowOfInts)) (some_inj result)
      (translate_table-ints addresses t u h first, translate_tables-ints addresses ts rest h others)

node_addresses-ints :
    (nodes : List Node) → All IsNodeOfInts nodes → All (λ x. x < 2147483648) (node_addresses nodes)
node_addresses-ints [] h = tt
node_addresses-ints (n ∷ nodes) h = (h.0.address, node_addresses-ints nodes h.1)

-- What a node receives is what stands for it in the list of tables.
received_tables :
    (calloc_ok : ℕ → Bool) (recv : ℕ → List ℕ → Received) (tables : List RoutingTable)
    → WaitsForAll recv
    → All (HasRoom calloc_ok) tables
    → All (All IsRowOfInts) tables
    → (i : ℕ) → i < length tables
    → receive_routing_table calloc_ok recv (get_or (map table_bytes tables) i [])
      ≡ some (get_or tables i [], [])
received_tables calloc_ok recv [] waits room ints i h = absurd (omega (arith, h))
received_tables calloc_ok recv (t ∷ tables) waits room ints zero h =
    receive_routing_table-table_bytes calloc_ok recv t waits room.0 ints.0
received_tables calloc_ok recv (t ∷ tables) waits room ints (suc i) h =
    received_tables calloc_ok recv tables waits room.1 ints.1 i (omega (arith, h))

-- When all nodes send their edges, `send` and `recv` pass on whole messages, there is memory, all
-- numbers fit in an `int` and the computation of the tables succeeds on these nodes, the server
-- succeeds on their connections, and each node receives the table that was computed for it.
pub run_server-receive_routing_table :
    (malloc_ok calloc_ok : ℕ → Bool) (recv : ℕ → List ℕ → Received) (send : List ℕ → ℤ)
    (nodes : List Node) (distances : List ℕ) (tables : List RoutingTable)
    → WaitsForAll recv
    → SendsAll send
    → All IsNodeOfInts nodes
    → All (λ (x : Node). malloc_ok (length x.neighbors) ≡ true) nodes
    → All (HasRoom calloc_ok) tables
    → serve nodes ≡ some (distances, tables)
    → (sent : List (List ℕ)) × (run_server malloc_ok recv send
          (map (send_edge_information send) nodes)
        ≡ some (distances, sent))
      × (length sent ≡ length tables)
      × ((i : ℕ)
          → i < length tables
          → receive_routing_table calloc_ok recv (get_or sent i []) ≡ some (get_or tables i [], []))
unfolding serve run_server
run_server-receive_routing_table malloc_ok calloc_ok recv send nodes distances tables waits sends
      ints memory room ran =
    let addresses = node_addresses nodes in
    let (found, computed, more) = bind-eq-some (compute_tables nodes) _ (distances, tables) ran in
    let (addressed, translated, result) =
      bind-eq-some (translate_tables addresses found.1) (λ us. some (found.0, us))
        (distances, tables) more in
    let same = some_inj result in
    let to_tables : translate_tables addresses found.1 ≡ some tables =
      translated ∙ ap (λ p. some p.1) same in
    (
      map table_bytes tables,
      bind-some _ _ _ _
          (populate_node_array-send_edge_information malloc_ok recv send nodes waits sends ints
            memory)
          (bind-some _ _ _ _ computed (
            bind-some _ _ _ _
              (send_routing_tables-translate send addresses found.1 tables sends to_tables)
              (ap (λ p. some (p.0, map table_bytes tables)) same))),
      length-map table_bytes tables,
      received_tables calloc_ok recv tables waits room (
          translate_tables-ints addresses found.1 tables (node_addresses-ints nodes ints)
            to_tables),
    )
