-- ===== src/RoutingServer/RoutingTables/Unique.antt =====
-- route.c: that no routing table has two rows for a destination.
use in_lib.Base.{
  ℕ, zero, suc, ◌+◌, ◌-◌, ◌<◌, ◌≤◌, ◌≡◌, refl, sym, ap, ◌∙◌, subst, Bool, true, false, ◌&&◌, none,
  some, List, [], ◌∷◌, ◌++◌, arith, ◌==◌, ==_iff, one_if, if◌then◌else◌, get_or, replicate, length,
  get_or-replicate_same, Bool-cases, inl, inr, Listed,
}
use in_lib.RoutingServer.Network.{RoutingTable, RoutingTableRow, rows_for}
use in_lib.RoutingServer.Dijkstra.{Route, weight}
use in_lib.RoutingServer.AdjacencyMatrix.{set_weight}
use in_lib.RoutingServer.AdjacencyMatrix.Correct.{
  IsSquare, set_weight-IsSquare, weight-set_weight, zeros-IsSquare,
}
use in_lib.RoutingServer.RoutingTables.{
  Tables, table, add_row, for_destinations, for_sources, for_routes, create_routing_table_array,
}
use in_lib.RoutingServer.RoutingTables.Complete.{set-cases}

-- A table has at most one row for what is marked as visited, and none for the rest.
record IsUnique (n : ℕ) (t : Tables) : Type 0 where
  single : (s d : ℕ) → rows_for d (table t s) ≤ one_if (weight t.visited s d == 1)
  square : IsSquare n t.visited

rows_for-concat :
    (d : ℕ) (rows : RoutingTable) (q : RoutingTableRow)
    → rows_for d (rows ++ q ∷ []) ≡ rows_for d rows + one_if (q.destination == d)
rows_for-concat d [] q = ground arith
rows_for-concat d (r ∷ rows) q = elim (Bool-cases (r.destination == d)) [
  | inl same ↦ rw same (omega (arith, rows_for-concat d rows q))
  | inr other ↦ rw other (rows_for-concat d rows q)
]

at_most_one : (rows : ℕ) (b : Bool) → rows ≤ one_if b → rows < 2
at_most_one rows true h = omega (arith, h)
at_most_one rows false h = omega (arith, h)

-- The mark of a place after another mark was set, or this one.
keep_le :
    (rows new old : ℕ) (p : Bool)
    → new ≡ (if p then 1 else old)
    → rows ≤ one_if (old == 1)
    → rows ≤ one_if (new == 1)
keep_le rows new old true w le = ground arith
keep_le rows new old false w le = ground arith

grow_le :
    (rows rows' new old : ℕ) (p : Bool)
    → rows' ≡ rows + one_if p
    → new ≡ (if p then 1 else old)
    → (p ≡ true → (old == 1) ≡ false)
    → rows ≤ one_if (old == 1)
    → rows' ≤ one_if (new == 1)
grow_le rows rows' new old true g w fresh le = ground (arith, fresh refl)
grow_le rows rows' new old false g w fresh le = ground arith

-- The place (s, d) was written, and `a` is `s`.
at_row :
    (s a d b : ℕ) (x y z : ℕ)
    → s ≡ a
    → z ≡ (if (s == a) && (d == b) then x else y)
    → z ≡ (if d == b then x else y)
at_row s a d b x y z at w = ground (arith, at, w)

add_row-IsUnique :
    (n s d h : ℕ) (t : Tables) → s < n → d < n → IsUnique n t → IsUnique n (add_row s d h t)
unfolding add_row set_weight
add_row-IsUnique n s d h t s_in d_in inv = elim (Bool-cases (weight t.visited s d == 1)) [
  | inl seen ↦ rw (add_row, seen) inv
  | inr fresh ↦
      let q : RoutingTableRow = record { destination = d; next_hop = h } in
      rw (add_row, fresh)
        (record {
          single = λ a b.
              let w = weight-set_weight n t.visited s d 1 a b inv.square s_in d_in in
              let old = inv.single a b in
              elim (set-cases t.tables s a (table t s ++ q ∷ []) []) [
                | inl same ↦ keep_le (rows_for b _) _ _ ((s == a) && (d == b)) w (
                    subst (λ rows. rows_for b rows ≤ one_if (weight t.visited a b == 1)) (sym same)
                      old)
                | inr (at, new) ↦
                    grow_le (rows_for b (table t a)) _ _ (weight t.visited a b) (d == b)
                      (ap (rows_for b) new
                        ∙ rows_for-concat b (table t s) q
                        ∙ ap (λ k. rows_for b (table t k) + one_if (d == b)) at)
                      (at_row s a d b 1 (weight t.visited a b) _ at w)
                      (λ same.
                        subst (λ k. (weight t.visited a k == 1) ≡ false) ((==_iff d b).0 same)
                          (subst (λ k. (weight t.visited k d == 1) ≡ false) at fresh))
                      old
              ];
          square = set_weight-IsSquare n t.visited s d 1 inv.square s_in;
        })
]

for_destinations-IsUnique :
    (n : ℕ) (route : Route) (i k : ℕ) (t : Tables)
    → ((j : ℕ) → j < length route → get_or route j 0 < n)
    → i + k < length route
    → IsUnique n t
    → IsUnique n (for_destinations route i k t)
unfolding for_destinations
for_destinations-IsUnique n route i zero t inside below inv = inv
for_destinations-IsUnique n route i (suc k) t inside below inv =
    for_destinations-IsUnique n route i k _ inside (omega (arith, below)) (
      add_row-IsUnique n (get_or route i 0) (get_or route (i + suc k) 0) (get_or route (suc i) 0) t
        (inside i (omega (arith, below))) (inside (i + suc k) below) inv)

for_sources-IsUnique :
    (n : ℕ) (route : Route) (m : ℕ) (t : Tables)
    → ((j : ℕ) → j < length route → get_or route j 0 < n)
    → m < length route
    → IsUnique n t
    → IsUnique n (for_sources route m t)
unfolding for_sources
for_sources-IsUnique n route zero t inside below inv = inv
for_sources-IsUnique n route (suc m) t inside below inv =
    for_sources-IsUnique n route m _ inside (omega (arith, below)) (
      for_destinations-IsUnique n route m (length route - 1 - m) t inside (omega (arith, below))
        inv)

for_routes-IsUnique :
    (n : ℕ) (routes : List Route) (t : Tables)
    → ((route : Route)
        → Listed route routes
        → (0 < length route) × ((i : ℕ) → i < length route → get_or route i 0 < n))
    → IsUnique n t
    → IsUnique n (for_routes routes t)
unfolding for_routes
for_routes-IsUnique n [] t on inv = inv
for_routes-IsUnique n (route ∷ routes) t on inv =
    let (some_node, inside) = on route (inl refl) in
    for_routes-IsUnique n routes _ (λ r l. on r (inr l))
      (for_sources-IsUnique n route (length route - 1) t inside (omega (arith, some_node)) inv)

-- When the routes have a node each and only nodes below their number, no routing table has two
-- rows for one destination.
pub create_routing_table_array-rows_for :
    (routes : List Route) (tables : List RoutingTable)
    → ((route : Route)
        → Listed route routes
        → (0 < length route) × ((i : ℕ) → i < length route → get_or route i 0 < length routes))
    → create_routing_table_array true true routes ≡ some tables
    → (s d : ℕ) → rows_for d (get_or tables s []) < 2
unfolding create_routing_table_array
create_routing_table_array-rows_for routes tables nodes ran s d =
    let n = length routes in
    let start : Tables = record {
      visited = replicate n (replicate n 0);
      tables = replicate n [];
    } in
    let same = ap (λ o. elim o [ none ↦ [] | some x ↦ x ]) ran in
    let done = for_routes-IsUnique n routes start nodes (record {
      single = λ a b.
          subst (λ rows. rows_for b rows ≤ one_if (weight start.visited a b == 1))
            (sym (get_or-replicate_same n a [])) (omega arith);
      square = zeros-IsSquare n;
    }) in
    subst (λ ts. rows_for d (get_or ts s []) < 2) same (at_most_one _ _ (done.single s d))
