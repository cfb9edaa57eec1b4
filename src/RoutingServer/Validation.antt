-- ===== src/RoutingServer/Validation.antt =====
-- home_exam/routing_server/src/validation.c: the definitions. A function that returns EXIT_FAILURE
-- is `none`: its caller gives up, and reads the arrays no more.
pub mod Reports
pub mod Counters
pub mod Invalid
pub mod Invariant
pub mod Correct
mod Tests
use in_lib.Base.{
  ℕ, zero, suc, ◌+◌, ◌-◌, ◌*◌, ◌/◌, Bool, true, false, not, ◌&&◌, ◌||◌, Option, none, some, List,
  [], ◌∷◌, ◌++◌, ◌==◌, ltb, if◌then◌else◌, length, get_or, set, ◌>>=◌,
}
use in_lib.RoutingServer.Network.{Edge, EdgeArray, Node, Neighbor}

-- The test on `lowNodeAddress` and `highNodeAddress`.
unfoldable pub same_edge : Edge → Edge → Bool
same_edge e f =
    (e.low_node_address == f.low_node_address) && (e.high_node_address == f.high_node_address)

pub record EdgeCounter : Type 0 where
  pub edge : Edge
  pub encounters : ℕ
  pub address_of_first_index : ℕ
  pub reported_weight : ℕ

-- `array` holds the counters below firstAvailablePosition.
pub record EdgeCounterArray : Type 0 where
  pub array : List EdgeCounter
  pub max_edges : ℕ

unfoldable pub is_edge_present : Edge → List Edge → Bool
unfolding same_edge
is_edge_present edge [] = false
is_edge_present edge (e ∷ es) = same_edge e edge || is_edge_present edge es

unfoldable pub add_invalid_edge : Edge → EdgeArray → Option EdgeArray
unfolding is_edge_present
add_invalid_edge edge invalid =
    if is_edge_present edge invalid.array
    then some invalid
    else if length invalid.array == invalid.max_edges
    then none
    else some (record invalid { array = invalid.array ++ edge ∷ [] })

unfoldable pub check_if_edge_is_valid : Edge → ℕ → ℕ → EdgeCounter → EdgeArray → Option EdgeArray
unfolding add_invalid_edge
check_if_edge_is_valid edge address_of_first_index edge_weight counter invalid =
    if ltb 2 counter.encounters
    then add_invalid_edge edge invalid
    else if counter.address_of_first_index == address_of_first_index
    then add_invalid_edge edge invalid
    else if not (counter.reported_weight == edge_weight)
    then add_invalid_edge edge invalid
    else some invalid

unfoldable pub add_edge_to_edge_counter_array :
    Edge → ℕ → ℕ → EdgeCounterArray → Option EdgeCounterArray
add_edge_to_edge_counter_array edge address_of_first_index edge_weight counters =
    if length counters.array == counters.max_edges
    then none
    else some (record counters {
      array =
          counters.array
          ++ record {
            edge = edge;
            encounters = 1;
            address_of_first_index = address_of_first_index;
            reported_weight = edge_weight;
          }
            ∷ [];
    })

-- How the loop over the counters ends: with a match, without one, or at the test for the bounds.
pub data Search : Type 0 where
  found : ℕ → Search
  not_found : Search
  out_of_bounds : Search

-- The loop over the counters from `counter_idx` on.
unfoldable pub find_counter : ℕ → ℕ → Edge → List EdgeCounter → Search
unfolding same_edge
find_counter max_edges counter_idx edge [] = not_found
find_counter max_edges counter_idx edge (c ∷ cs) =
    let rest = find_counter max_edges (suc counter_idx) edge cs in
    if suc counter_idx == max_edges
    then out_of_bounds
    else if same_edge c.edge edge
    then found counter_idx
    else rest

pub record State : Type 0 where
  pub counters : EdgeCounterArray
  pub invalid : EdgeArray

-- `searchLowAddress` and `searchHighAddress`.
unfoldable pub edge_of : ℕ → ℕ → Edge
edge_of a b = record {
  low_node_address = if ltb a b then a else b;
  high_node_address = if ltb b a then a else b;
}

abbrev no_counter : EdgeCounter
no_counter = record {
  edge = record { low_node_address = 0; high_node_address = 0 };
  encounters = 0;
  address_of_first_index = 0;
  reported_weight = 0;
}

-- The match at `counter_idx`: one encounter more, and the checks.
unfoldable pub encounter : Edge → ℕ → ℕ → ℕ → State → Option State
unfolding check_if_edge_is_valid
encounter edge address edge_weight counter_idx s =
    let c = get_or s.counters.array counter_idx no_counter in
    let c' = record c { encounters = suc c.encounters } in
    check_if_edge_is_valid edge address edge_weight c' s.invalid >>= λ invalid. some (record {
      counters = record s.counters { array = set s.counters.array counter_idx c' };
      invalid = invalid;
    })

-- The body of the loop over the neighbors.
unfoldable pub report : ℕ → Neighbor → State → Option State
unfolding find_counter encounter add_edge_to_edge_counter_array edge_of
report address neighbor s =
    let edge = edge_of address neighbor.address in
    elim (find_counter s.counters.max_edges 0 edge s.counters.array) [
      | out_of_bounds ↦ none
      | found counter_idx ↦ encounter edge address neighbor.weight counter_idx s
      | not_found ↦
          add_edge_to_edge_counter_array edge address neighbor.weight s.counters >>= λ counters.
          some (record s { counters = counters })
    ]

unfoldable pub report_neighbors : ℕ → List Neighbor → State → Option State
unfolding report
report_neighbors address [] s = some s
report_neighbors address (nb ∷ nbs) s = report address nb s >>= report_neighbors address nbs

unfoldable pub report_nodes : List Node → State → Option State
unfolding report_neighbors
report_nodes [] s = some s
report_nodes (node ∷ nodes) s =
    report_neighbors node.address node.neighbors s >>= report_nodes nodes

unfoldable pub check_dual_report : List EdgeCounter → EdgeArray → Option EdgeArray
unfolding add_invalid_edge
check_dual_report [] invalid = some invalid
check_dual_report (c ∷ cs) invalid =
    (if ltb c.encounters 2 then add_invalid_edge c.edge invalid else some invalid)
    >>= check_dual_report cs

abbrev pub max_edges_of : ℕ → ℕ
max_edges_of n = n * (n - 1) / 2

-- `allocated` says whether the memory for the counters was given.
unfoldable pub check_all_nodes_received : Bool → List Node → EdgeArray → Option EdgeArray
unfolding report_nodes check_dual_report
check_all_nodes_received allocated node_array invalid =
    if not allocated
    then none
    else report_nodes node_array (record {
      counters = record { array = []; max_edges = max_edges_of (length node_array) };
      invalid = invalid;
    })
      >>= λ s. check_dual_report s.counters.array s.invalid
