-- ===== src/RoutingServer/RoutingTables.antt =====
-- home_exam/routing_server/src/route.c, and the translation of the tables in
-- home_exam/routing_server/src/routing_server_communication.c: the definitions. A route has a node
-- at least, as those that `dijkstra` delivers.
pub mod Rows
pub mod Complete
pub mod Unique
pub mod Edges
mod Tests
use in_lib.Base.{
  ℕ, zero, suc, ◌+◌, ◌-◌, Bool, true, false, not, Option, none, some, List, [], ◌∷◌, ◌++◌, map,
  ◌==◌, if◌then◌else◌, get_or, set, replicate, length,
}
use in_lib.RoutingServer.Network.{RoutingTable, RoutingTableRow, IndexToAddress}
use in_lib.RoutingServer.Dijkstra.{Matrix, Route, row, weight}

-- `visited`, and the tables with their rows below nRows.
pub record Tables : Type 0 where
  pub visited : Matrix
  pub tables : List RoutingTable

abbrev pub table : Tables → ℕ → RoutingTable
table t i = get_or t.tables i []

-- The body of the loop over the destinations.
unfoldable pub add_row : ℕ → ℕ → ℕ → Tables → Tables
add_row source_node destination_node next_hop_node t =
    if weight t.visited source_node destination_node == 1 then t else record {
      visited = set t.visited source_node (set (row t.visited source_node) destination_node 1);
      tables = set t.tables source_node (
          table t source_node
          ++ record { destination = destination_node; next_hop = next_hop_node } ∷ []);
    }

-- The loop over the destinations: `k` is destinationIdx - sourceIdx.
unfoldable pub for_destinations : Route → ℕ → ℕ → Tables → Tables
unfolding add_row
for_destinations route source_idx zero t = t
for_destinations route source_idx (suc k) t = for_destinations route source_idx k (
    add_row (get_or route source_idx 0) (get_or route (source_idx + suc k) 0)
      (get_or route (suc source_idx) 0) t)

-- The loop over the sources: sourceIdx + 1 of them are left, and nextHopIdx is sourceIdx + 1.
unfoldable pub for_sources : Route → ℕ → Tables → Tables
unfolding for_destinations
for_sources route zero t = t
for_sources route (suc source_idx) t =
    for_sources route source_idx
      (for_destinations route source_idx (length route - 1 - source_idx) t)

unfoldable pub for_routes : List Route → Tables → Tables
unfolding for_sources
for_routes [] t = t
for_routes (route ∷ routes) t = for_routes routes (for_sources route (length route - 1) t)

-- The two arguments say whether there was memory for `visited` and for the tables.
unfoldable pub create_routing_table_array : Bool → Bool → List Route → Option (List RoutingTable)
unfolding for_routes
create_routing_table_array visited_allocated tables_allocated routes =
    let n = length routes in
    if not visited_allocated
    then none
    else if not tables_allocated
    then none
    else some
        (for_routes routes
          (record { visited = replicate n (replicate n 0); tables = replicate n [] })).tables

-- `reallocated` says whether there was memory for the rows.
unfoldable pub translate_table_from_idx_to_address :
    Bool → IndexToAddress → RoutingTable → Option RoutingTable
translate_table_from_idx_to_address reallocated index_to_address [] = some []
translate_table_from_idx_to_address reallocated index_to_address (r ∷ rows) =
    if not reallocated
    then none
    else some (
        map
          (λ (x : RoutingTableRow). record {
            destination = get_or index_to_address x.destination 0;
            next_hop = get_or index_to_address x.next_hop 0;
          })
          (r ∷ rows))
