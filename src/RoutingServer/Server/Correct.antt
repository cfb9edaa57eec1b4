-- ===== src/RoutingServer/Server/Correct.antt =====
-- routing_server.c: the tables follow the shortest routes.
use in_lib.Base.{
  some_inj, ℕ, zero, suc, ◌+◌, ◌<◌, ◌≤◌, ◌≡◌, refl, ap, ◌∙◌, subst, true, none, some, List, [], ◌∷◌,
  arith, length, map, length-map, get_or, inl, inr, Listed, bind-eq-some,
}
use in_lib.Base.Outcomes.{returned, returned-eq-some}
use in_lib.RoutingServer.Network.{
  RoutingTable, RoutingTableRow, IndexToAddress, Node, EdgeArray, get_index_from_address,
  get_index_from_address_lem,
}
use in_lib.RoutingServer.Validation.{check_all_nodes_received, max_edges_of}
use in_lib.RoutingServer.AdjacencyMatrix.{create_adjacency_matrix}
use in_lib.RoutingServer.Server.Symmetric.{create_adjacency_matrix-IsSymmetric}
use in_lib.RoutingServer.Dijkstra.{Matrix, Route, dijkstra}
use in_lib.RoutingServer.Dijkstra.Walk.{Walk, IsSymmetric}
use in_lib.RoutingServer.Dijkstra.Correct.{dijkstra-IsShortest}
use in_lib.RoutingServer.Dijkstra.Routes.{length-dijkstra, dijkstra-nodes}
use in_lib.RoutingServer.RoutingTables.{
  create_routing_table_array, translate_table_from_idx_to_address,
}
use in_lib.RoutingServer.RoutingTables.Complete.{HasRow, create_routing_table_array-HasRow}
use in_lib.RoutingServer.Server.{route_tables, translate_tables, compute_tables, serve}

get_or-Listed : (a : Route) (xs : List Route) (i : ℕ) → i < length xs → Listed (get_or xs i []) xs
get_or-Listed a [] i h = absurd (omega (arith, h))
get_or-Listed a (x ∷ xs) zero h = inl refl
get_or-Listed a (x ∷ xs) (suc i) h = inr (get_or-Listed a xs i (omega (arith, h)))

-- On a symmetric matrix, when routes and tables are made, with no sum above INT_MAX, each node has a
-- shortest walk from the source, and the table of every node on that walk has a row for every later
-- node of it.
pub route_tables-HasRow :
    (m : Matrix) (n src : ℕ) (distances : List ℕ) (tables : List RoutingTable)
    → src < n
    → IsSymmetric m
    → route_tables m src n ≡ some (distances, tables)
    → (v : ℕ) → v < n
    → (r : Route) × Walk m n src v (get_or distances v 0) r
      × ((l : ℕ) (q : Route) → Walk m n src v l q → get_or distances v 0 ≤ l)
      × ((i k : ℕ) → i + suc k < length r → HasRow tables (get_or r i 0) (get_or r (i + suc k) 0))
unfolding route_tables
route_tables-HasRow m n src distances tables src_lt symmetric ran v v_lt =
    let (found, back, rest) =
      bind-eq-some (returned (dijkstra true src m n)) _ (distances, tables) ran in
    let searched = returned-eq-some (dijkstra true src m n) found back in
    let (made, tabled, result) =
      bind-eq-some (create_routing_table_array true true found.1) (λ ts. some (found.0, ts))
        (distances, tables) rest in
    let same_distances = ap (λ o. elim o [ none ↦ [] | some x ↦ x.0 ]) result in
    let same_tables = ap (λ o. elim o [ none ↦ [] | some x ↦ x.1 ]) result in
    let size = length-dijkstra m n src src_lt symmetric found.0 found.1 searched in
    let s = dijkstra-IsShortest m n src src_lt symmetric found.0 found.1 searched v v_lt in
    (
      get_or found.1 v [],
      subst (λ d. Walk m n src v (get_or d v 0) (get_or found.1 v [])) same_distances s.route,
      λ l q w. subst (λ d. get_or d v 0 ≤ l) same_distances (s.shortest l q w),
      λ i k below.
          subst
            (λ ts.
              HasRow ts (get_or (get_or found.1 v []) i 0)
                (get_or (get_or found.1 v []) (i + suc k) 0))
            same_tables
            (create_routing_table_array-HasRow found.1 made
              (dijkstra-nodes m n src src_lt symmetric found.0 found.1 searched) tabled
              (get_or found.1 v []) i k (get_or-Listed [] found.1 v (omega (arith, v_lt, size)))
              below),
    )

-- The translation of a table keeps its rows.
translate_table-Listed :
    (addresses : IndexToAddress) (t u : RoutingTable) (r : RoutingTableRow)
    → translate_table_from_idx_to_address true addresses t ≡ some u
    → Listed r t
    → (q : RoutingTableRow) × Listed q u × (q.destination ≡ get_or addresses r.destination 0)
unfolding translate_table_from_idx_to_address
translate_table-Listed addresses [] u r ran l = elim l [ ]
translate_table-Listed addresses (x ∷ t) u r ran l =
    let same = some_inj ran in
    let (q, on, at) = translated (x ∷ t) l in (q, subst (Listed q) same on, at)
  where
    translated :
        (t : RoutingTable)
        → Listed r t
        → (q : RoutingTableRow) × Listed q (
            map
              (λ (x : RoutingTableRow). record {
                destination = get_or addresses x.destination 0;
                next_hop = get_or addresses x.next_hop 0;
              })
              t)
          × (q.destination ≡ get_or addresses r.destination 0)
    translated [] l = elim l [ ]
    translated (x ∷ t) (inl e) =
        (_, inl refl, ap (λ (y : RoutingTableRow). get_or addresses y.destination 0) e)
    translated (x ∷ t) (inr l) = let (q, on, at) = translated t l in (q, inr on, at)

translate_tables-HasRow :
    (addresses : IndexToAddress) (ts us : List RoutingTable) (s d : ℕ)
    → translate_tables addresses ts ≡ some us
    → HasRow ts s d
    → HasRow us s (get_or addresses d 0)
unfolding translate_tables
translate_tables-HasRow addresses [] us s d ran (r, l, at) = absurd (elim l [ ])
translate_tables-HasRow addresses (t ∷ ts) us s d ran has =
    let (u, first, more) =
      bind-eq-some (translate_table_from_idx_to_address true addresses t) _ us ran in
    let (rest, others, result) =
      bind-eq-some (translate_tables addresses ts) (λ vs. some (u ∷ vs)) us more in
    subst (λ vs. HasRow vs s (get_or addresses d 0)) (some_inj result)
      (at_place s has u first rest (λ k. translate_tables-HasRow addresses ts rest k d others))
  where
    at_place :
        (s : ℕ)
        → HasRow (t ∷ ts) s d
        → (u : RoutingTable) → translate_table_from_idx_to_address true addresses t ≡ some u
        → (rest : List RoutingTable)
        → ((k : ℕ) → HasRow ts k d → HasRow rest k (get_or addresses d 0))
        → HasRow (u ∷ rest) s (get_or addresses d 0)
    at_place zero (r, l, at) u first rest later =
        let (q, on, at_q) = translate_table-Listed addresses t u r first l in
        (q, on, at_q ∙ ap (λ x. get_or addresses x 0) at)
    at_place (suc s) has u first rest later = later s has

-- When the server succeeds, with no sum above INT_MAX, the edges were checked, the matrix was
-- made of the others and is symmetric, and a node has the address 1. For each node there is a
-- shortest walk from that node in the matrix, of the length that is delivered, and the table that
-- is sent to any node on the walk has a row for the address of every later node on it.
pub serve-HasRow :
    (nodes : List Node) (distances : List ℕ) (tables : List RoutingTable)
    → serve nodes ≡ some (distances, tables)
    → let addresses = map (λ (x : Node). x.address) nodes in
      let n = length nodes in
      (invalid : EdgeArray) × (m : Matrix) × (src : ℕ) × (check_all_nodes_received true nodes
          (record { array = []; max_edges = max_edges_of n })
        ≡ some invalid)
      × (create_adjacency_matrix true nodes addresses invalid ≡ some m)
      × IsSymmetric m
      × (get_index_from_address 1 addresses ≡ some src)
      × ((v : ℕ)
          → v < n
          → (r : Route) × Walk m n src v (get_or distances v 0) r
            × ((l : ℕ) (q : Route) → Walk m n src v l q → get_or distances v 0 ≤ l)
            × ((i k : ℕ)
                → i + suc k < length r
                → HasRow tables (get_or r i 0) (get_or addresses (get_or r (i + suc k) 0) 0)))
unfolding serve compute_tables
serve-HasRow nodes distances tables ran =
    let addresses = map (λ (x : Node). x.address) nodes in
    let n = length nodes in
    let before : EdgeArray = record { array = []; max_edges = max_edges_of n } in
    let (found, computed, more) = bind-eq-some (compute_tables nodes) _ (distances, tables) ran in
    let (sent, translated, result) =
      bind-eq-some (translate_tables addresses found.1) (λ us. some (found.0, us))
        (distances, tables) more in
    let (invalid, checked, ran1) =
      bind-eq-some (check_all_nodes_received true nodes before) _ found computed in
    let (m, made, ran2) =
      bind-eq-some (create_adjacency_matrix true nodes addresses invalid) _ found ran1 in
    let (src, at_src, routed) = bind-eq-some (get_index_from_address 1 addresses) _ found ran2 in
    let same_distances = ap (λ o. elim o [ none ↦ [] | some x ↦ x.0 ]) result in
    let same_tables = ap (λ o. elim o [ none ↦ [] | some x ↦ x.1 ]) result in
    let symmetric =
      create_adjacency_matrix-IsSymmetric nodes (max_edges_of n) invalid m checked made in
    let src_lt =
      subst (λ k. src < k) (length-map (λ (x : Node). x.address) nodes)
        (get_index_from_address_lem 1 addresses src at_src).0 in
    (
      invalid,
      m,
      src,
      checked,
      made,
      symmetric,
      at_src,
      λ v v_lt.
          let (r, walk, shortest, rows) =
            route_tables-HasRow m n src found.0 found.1 src_lt symmetric routed v v_lt in
          (
            r,
            subst (λ d. Walk m n src v (get_or d v 0) r) same_distances walk,
            λ l q w. subst (λ d. get_or d v 0 ≤ l) same_distances (shortest l q w),
            λ i k below.
                subst (λ ts. HasRow ts (get_or r i 0) (get_or addresses (get_or r (i + suc k) 0) 0))
                  same_tables
                  (translate_tables-HasRow addresses found.1 sent (get_or r i 0)
                    (get_or r (i + suc k) 0) translated (rows i k below)),
          ),
    )
