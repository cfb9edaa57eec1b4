-- ===== src/RoutingServer/RoutingTables/Tests.antt =====
-- Runs of `createRoutingTableArray` and of the translation of a table.
use in_lib.Base.{
  ℕ, zero, suc, get_or, ◌<◌, ◌≡◌, refl, subst, some, List, [], ◌∷◌, arith, length, inl, inr, true,
  Listed, none, ◌⊎◌,
}
use in_lib.RoutingServer.Network.{RoutingTable, RoutingTableRow}
use in_lib.RoutingServer.Dijkstra.{Route}
use in_lib.RoutingServer.RoutingTables.{
  create_routing_table_array, translate_table_from_idx_to_address,
}
use in_lib.RoutingServer.RoutingTables.Complete.{HasRow, create_routing_table_array-HasRow}
use in_lib.RoutingServer.RoutingTables.Unique.{create_routing_table_array-rows_for}
use in_lib.RoutingServer.Network.{rows_for}
use in_lib.RoutingServer.RoutingTables.Edges.{
  WeightedEdge, print_row, print_edges, print_row-Listed,
}
use in_lib.RoutingServer.RoutingTables.Rows.{
  LeadsFrom, NonEmpty, create_routing_table_array-LeadsFrom,
}

abbrev table_row : ℕ → ℕ → RoutingTableRow
table_row d h = record { destination = d; next_hop = h }

-- The source, the route over 1 to 2, and the route to 1.
abbrev routes : List Route
routes = (0 ∷ []) ∷ (0 ∷ 1 ∷ []) ∷ (0 ∷ 1 ∷ 2 ∷ []) ∷ []

abbrev tables : List RoutingTable
tables = (table_row 1 1 ∷ table_row 2 1 ∷ []) ∷ (table_row 2 2 ∷ []) ∷ [] ∷ []

routes_run : create_routing_table_array true true routes ≡ some tables
unfolding create_routing_table_array
routes_run = refl

routes-NonEmpty : NonEmpty routes
routes-NonEmpty route (inl e) = subst (λ r. 0 < length r) e (omega arith)
routes-NonEmpty route (inr (inl e)) = subst (λ r. 0 < length r) e (omega arith)
routes-NonEmpty route (inr (inr (inl e))) = subst (λ r. 0 < length r) e (omega arith)
routes-NonEmpty route (inr (inr (inr n))) = elim n [ ]

create_routing_table_array-LeadsFrom_example :
    (route : Route) × Listed route routes × LeadsFrom route 0 (table_row 2 1)
create_routing_table_array-LeadsFrom_example =
    create_routing_table_array-LeadsFrom routes tables routes-NonEmpty routes_run 0 (table_row 2 1)
      (inr (inl refl))

translated :
    translate_table_from_idx_to_address true (7 ∷ 1 ∷ 9 ∷ []) (table_row 2 1 ∷ [])
    ≡ some (table_row 9 1 ∷ [])
unfolding translate_table_from_idx_to_address
translated = refl

one_node : (i : ℕ) → i < 1 → get_or (0 ∷ []) i 0 < 3
one_node zero h = omega arith
one_node (suc i) h = absurd (omega arith)

two_nodes : (i : ℕ) → i < 2 → get_or (0 ∷ 1 ∷ []) i 0 < 3
two_nodes zero h = omega arith
two_nodes (suc zero) h = omega arith
two_nodes (suc (suc i)) h = absurd (omega arith)

three_nodes : (i : ℕ) → i < 3 → get_or (0 ∷ 1 ∷ 2 ∷ []) i 0 < 3
three_nodes zero h = omega arith
three_nodes (suc zero) h = omega arith
three_nodes (suc (suc zero)) h = omega arith
three_nodes (suc (suc (suc i))) h = absurd (omega arith)

routes-nodes :
    (route : Route)
    → Listed route routes
    → (0 < length route) × ((i : ℕ) → i < length route → get_or route i 0 < length routes)
routes-nodes route (inl e) =
    subst (λ r. (0 < length r) × ((i : ℕ) → i < length r → get_or r i 0 < 3)) e
      (omega arith, one_node)
routes-nodes route (inr (inl e)) =
    subst (λ r. (0 < length r) × ((i : ℕ) → i < length r → get_or r i 0 < 3)) e
      (omega arith, two_nodes)
routes-nodes route (inr (inr (inl e))) =
    subst (λ r. (0 < length r) × ((i : ℕ) → i < length r → get_or r i 0 < 3)) e
      (omega arith, three_nodes)
routes-nodes route (inr (inr (inr n))) = elim n [ ]

create_routing_table_array-HasRow_example : HasRow tables 0 2
create_routing_table_array-HasRow_example =
    create_routing_table_array-HasRow routes tables routes-nodes routes_run (0 ∷ 1 ∷ 2 ∷ []) 0 1
      (inr (inr (inl refl))) (omega arith)

create_routing_table_array-rows_for_example : rows_for 2 (get_or tables 0 []) < 2
create_routing_table_array-rows_for_example =
    create_routing_table_array-rows_for routes tables routes-nodes routes_run 0 2

abbrev no_line : WeightedEdge
no_line = record { from_address = 0; to_address = 0; path_len = none }

-- Node 1, with the distance 4, is on the route to node 2.
print_row-Listed_example :
    let line = get_or (print_row (0 ∷ 4 ∷ 6 ∷ []) (1 ∷ 7 ∷ 9 ∷ []) 1 0 routes) 2 no_line in
    (line.from_address ≡ 7)
    × (line.to_address ≡ 9)
    × ((Listed {A = ℕ} 1 (0 ∷ 1 ∷ 2 ∷ []) × (line.path_len ≡ some 4))
        ⊎ ((Listed {A = ℕ} 1 (0 ∷ 1 ∷ 2 ∷ []) → ⊥) × (line.path_len ≡ none)))
print_row-Listed_example =
    print_row-Listed (0 ∷ 4 ∷ 6 ∷ []) (1 ∷ 7 ∷ 9 ∷ []) 1 routes 2 no_line (omega arith)

edges_printed : length (print_edges (0 ∷ 4 ∷ 6 ∷ []) routes (1 ∷ 7 ∷ 9 ∷ [])) ≡ 9
unfolding print_edges
edges_printed = refl
