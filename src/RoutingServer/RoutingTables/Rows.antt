-- ===== src/RoutingServer/RoutingTables/Rows.antt =====
-- route.c: which rows the routing tables have.
use in_lib.Base.{
  ℕ, zero, suc, ◌+◌, ◌-◌, ◌<◌, ◌≡◌, refl, sym, ap, subst, true, none, some, List, [], ◌∷◌, ◌++◌,
  arith, ◌==◌, get_or, set, replicate, length, get_or-replicate_same, Bool-cases, inl, inr, ◌⊎◌,
  Listed,
}
use in_lib.RoutingServer.Network.{RoutingTable, RoutingTableRow}
use in_lib.RoutingServer.Dijkstra.{Route, weight}
use in_lib.RoutingServer.RoutingTables.{
  Tables, table, add_row, for_destinations, for_sources, for_routes, create_routing_table_array,
}

-- On the route, `source` is followed by `next_hop`, and `destination` stands there or behind it.
abbrev pub LeadsFrom : Route → ℕ → RoutingTableRow → Type 0
LeadsFrom route source r =
    (i : ℕ) × (k : ℕ) × (i + suc k < length route)
    × (get_or route i 0 ≡ source)
    × (get_or route (suc i) 0 ≡ r.next_hop)
    × (get_or route (i + suc k) 0 ≡ r.destination)

-- Each row follows one of the routes.
abbrev pub IsSound : List Route → Tables → Type 0
IsSound routes t =
    (source : ℕ) (r : RoutingTableRow)
    → Listed r (table t source)
    → (route : Route) × Listed route routes × LeadsFrom route source r

Listed-concat :
    (r q : RoutingTableRow) (rows : RoutingTable)
    → Listed r (rows ++ q ∷ [])
    → Listed r rows ⊎ (q ≡ r)
Listed-concat r q [] h = elim h [ inl e ↦ inr e | inr h' ↦ inl h' ]
Listed-concat r q (p ∷ rows) h = elim h [
  | inl e ↦ inl (inl e)
  | inr h' ↦ elim (Listed-concat r q rows h') [ inl l ↦ inl (inr l) | inr e ↦ inr e ]
]

table-set :
    (ts : List RoutingTable) (a i : ℕ) (v : RoutingTable) (r : RoutingTableRow)
    → Listed r (get_or (set ts a v) i [])
    → Listed r (get_or ts i []) ⊎ ((a ≡ i) × Listed r v)
table-set [] a i v r h = inl h
table-set (x ∷ ts) zero zero v r h = inr (refl, h)
table-set (x ∷ ts) zero (suc i) v r h = inl h
table-set (x ∷ ts) (suc a) zero v r h = inl h
table-set (x ∷ ts) (suc a) (suc i) v r h = elim (table-set ts a i v r h) [
  | inl l ↦ inl l
  | inr (e, l) ↦ inr (ap suc e, l)
]

add_row-IsSound :
    (routes : List Route) (route : Route) (s d h : ℕ) (t : Tables)
    → Listed route routes
    → LeadsFrom route s (record { destination = d; next_hop = h })
    → IsSound routes t
    → IsSound routes (add_row s d h t)
unfolding add_row
add_row-IsSound routes route s d h t on leads sound source r l =
    elim (Bool-cases (weight t.visited s d == 1)) [
      | inl seen ↦ sound source r (rw (add_row, seen) at l)
      | inr fresh ↦ elim (table-set t.tables s source _ r (rw (add_row, fresh) at l)) [
        | inl old ↦ sound source r old
        | inr (at, written) ↦ elim (Listed-concat r _ (table t s) written) [
          | inl old ↦ sound source r (subst (λ i. Listed r (table t i)) at old)
          | inr new ↦ (
            route,
            on,
            subst (LeadsFrom route source) new (
                subst (λ i. LeadsFrom route i (record { destination = d; next_hop = h })) at leads),
          )
        ]
      ]
    ]

for_destinations-IsSound :
    (routes : List Route) (route : Route) (i k : ℕ) (t : Tables)
    → Listed route routes
    → i + k < length route
    → IsSound routes t
    → IsSound routes (for_destinations route i k t)
unfolding for_destinations
for_destinations-IsSound routes route i zero t on inside sound = sound
for_destinations-IsSound routes route i (suc k) t on inside sound =
    for_destinations-IsSound routes route i k _ on (omega (arith, inside)) (
      add_row-IsSound routes route (get_or route i 0) (get_or route (i + suc k) 0)
        (get_or route (suc i) 0) t on (i, k, inside, refl, refl, refl) sound)

for_sources-IsSound :
    (routes : List Route) (route : Route) (n : ℕ) (t : Tables)
    → Listed route routes
    → n < length route
    → IsSound routes t
    → IsSound routes (for_sources route n t)
unfolding for_sources
for_sources-IsSound routes route zero t on inside sound = sound
for_sources-IsSound routes route (suc i) t on inside sound =
    for_sources-IsSound routes route i _ on (omega (arith, inside)) (
      for_destinations-IsSound routes route i (length route - 1 - i) t on (omega (arith, inside))
        sound)

-- Every route starts at a node at least.
abbrev pub NonEmpty : List Route → Type 0
NonEmpty routes = (route : Route) → Listed route routes → 0 < length route

for_routes-IsSound :
    (all routes : List Route) (t : Tables)
    → ((route : Route) → Listed route routes → Listed route all × (0 < length route))
    → IsSound all t
    → IsSound all (for_routes routes t)
unfolding for_routes
for_routes-IsSound all [] t on sound = sound
for_routes-IsSound all (route ∷ routes) t on sound =
    let (here, some_node) = on route (inl refl) in
    for_routes-IsSound all routes _ (λ r l. on r (inr l))
      (for_sources-IsSound all route (length route - 1) t here (omega (arith, some_node)) sound)

-- When the routes have a node each, every row of the routing tables follows one of them: the node
-- of the table stands on the route, the next hop is the node behind it, and the destination is
-- that node or a later one.
pub create_routing_table_array-LeadsFrom :
    (routes : List Route) (tables : List RoutingTable)
    → NonEmpty routes
    → create_routing_table_array true true routes ≡ some tables
    → (source : ℕ) (r : RoutingTableRow) → Listed r (get_or tables source [])
    → (route : Route) × Listed route routes × LeadsFrom route source r
unfolding create_routing_table_array
create_routing_table_array-LeadsFrom routes tables nodes ran source r l =
    let n = length routes in
    let start : Tables = record {
      visited = replicate n (replicate n 0);
      tables = replicate n [];
    } in
    let same = ap (λ o. elim o [ none ↦ [] | some x ↦ x ]) ran in
    for_routes-IsSound routes routes start (λ route on. (on, nodes route on))
      (λ s q none_yet. absurd (elim (subst (Listed q) (get_or-replicate_same n s []) none_yet) [ ]))
      source r (subst (λ ts. Listed r (get_or ts source [])) (sym same) l)
