-- ===== src/RoutingServer/RoutingTables/Complete.antt =====
-- route.c: that the routing tables have a row for every later node of a route.
use in_lib.Base.{
  ℕ, zero, suc, ◌+◌, ◌-◌, ◌<◌, ◌≡◌, refl, sym, ap, ◌∙◌, subst, true, none, some, List, [], ◌∷◌,
  ◌++◌, arith, ◌==◌, ==_iff, get_or, set, replicate, length, length-set, length-replicate,
  get_or-set_self, get_or-replicate_same, Bool-cases, inl, inr, ◌⊎◌, Listed,
}
use in_lib.RoutingServer.Network.{RoutingTable, RoutingTableRow}
use in_lib.RoutingServer.Dijkstra.{Matrix, Route, row, weight}
use in_lib.RoutingServer.RoutingTables.{
  Tables, table, add_row, for_destinations, for_sources, for_routes, create_routing_table_array,
}

-- The table of `source` has a row for `destination`.
abbrev pub HasRow : List RoutingTable → ℕ → ℕ → Type 0
HasRow ts source destination =
    (r : RoutingTableRow) × Listed r (get_or ts source []) × (r.destination ≡ destination)

-- What is marked as visited has a row, and there are n tables.
record IsMarked (n : ℕ) (t : Tables) : Type 0 where
  marked : (s d : ℕ) → weight t.visited s d ≡ 1 → HasRow t.tables s d
  size : length t.tables ≡ n

move : (ts : List RoutingTable) (s s' d d' : ℕ) → s ≡ s' → d ≡ d' → HasRow ts s d → HasRow ts s' d'
move ts s s' d d' at to r = subst (HasRow ts s') to (subst (λ x. HasRow ts x d) at r)

pub set-cases {ℓ} :
    {A : Type ℓ} (xs : List A) (a i : ℕ) (v d : A)
    → (get_or (set xs a v) i d ≡ get_or xs i d) ⊎ ((a ≡ i) × (get_or (set xs a v) i d ≡ v))
set-cases [] a i v d = inl refl
set-cases (x ∷ xs) zero zero v d = inr (refl, refl)
set-cases (x ∷ xs) zero (suc i) v d = inl refl
set-cases (x ∷ xs) (suc a) zero v d = inl refl
set-cases (x ∷ xs) (suc a) (suc i) v d = elim (set-cases xs a i v d) [
  | inl same ↦ inl same
  | inr (at, new) ↦ inr (ap suc at, new)
]

weight-set-cases :
    (m : Matrix) (a b i j : ℕ)
    → weight (set m a (set (row m a) b 1)) i j ≡ 1
    → ((a ≡ i) × (b ≡ j)) ⊎ (weight m i j ≡ 1)
weight-set-cases m a b i j h = elim (set-cases m a i (set (row m a) b 1) []) [
  | inl same ↦ inr (ap (λ r. get_or r j 0) (sym same) ∙ h)
  | inr (at, new) ↦
      let in_row = ap (λ r. get_or r j 0) (sym new) ∙ h in
      elim (set-cases (row m a) b j 1 0) [
        | inl same ↦ inr (ap (λ k. weight m k j) (sym at) ∙ sym same ∙ in_row)
        | inr (at_col, one) ↦ inl (at, at_col)
      ]
]

Listed-front : (r : RoutingTableRow) (xs ys : RoutingTable) → Listed r xs → Listed r (xs ++ ys)
Listed-front r [] ys h = elim h [ ]
Listed-front r (x ∷ xs) ys (inl e) = inl e
Listed-front r (x ∷ xs) ys (inr h) = inr (Listed-front r xs ys h)

Listed-last : (r : RoutingTableRow) (xs : RoutingTable) → Listed r (xs ++ r ∷ [])
Listed-last r [] = inl refl
Listed-last r (x ∷ xs) = inr (Listed-last r xs)

-- Rows stay when one is appended to a table.
HasRow-append :
    (ts : List RoutingTable) (a s d : ℕ) (rows : RoutingTable)
    → HasRow ts s d
    → HasRow (set ts a (get_or ts a [] ++ rows)) s d
HasRow-append ts a s d rows (r, l, e) = elim (set-cases ts a s (get_or ts a [] ++ rows) []) [
  | inl same ↦ (r, subst (Listed r) (sym same) l, e)
  | inr (at, new) ↦ (
    r,
    subst (Listed r) (sym new)
        (Listed-front r (get_or ts a []) rows (subst (λ k. Listed r (get_or ts k [])) (sym at) l)),
    e,
  )
]

-- What a part of the loops has done: the marks, the rows of before, and new rows.
abbrev Extends : Tables → Tables → Type 0
Extends t u = (s d : ℕ) → HasRow t.tables s d → HasRow u.tables s d

unmarked : (n k i j : ℕ) → weight (replicate k (replicate n 0)) i j ≡ 1 → ⊥
unmarked n zero i j h = omega (arith, h)
unmarked n (suc k) zero j h = omega (arith, h, get_or-replicate_same {A = ℕ} n j 0)
unmarked n (suc k) (suc i) j h = unmarked n k i j h

add_row-HasRow :
    (n s d h : ℕ) (t : Tables)
    → s < n
    → IsMarked n t
    → IsMarked n (add_row s d h t)
      × Extends t (add_row s d h t)
      × HasRow (add_row s d h t).tables s d
unfolding add_row
add_row-HasRow n s d h t inside inv = elim (Bool-cases (weight t.visited s d == 1)) [
  | inl seen ↦ rw (add_row, seen) (inv, λ a b r. r, inv.marked s d ((==_iff _ _).0 seen))
  | inr fresh ↦
      let q : RoutingTableRow = record { destination = d; next_hop = h } in
      let grown = get_or-set_self t.tables s (table t s ++ q ∷ []) [] (omega (arith, inv.size)) in
      let here : HasRow (set t.tables s (table t s ++ q ∷ [])) s d =
        (q, subst (Listed q) (sym grown) (Listed-last q (table t s)), refl) in
      rw (add_row, fresh)
        (
          record {
            marked = λ a b one. elim (weight-set-cases t.visited s d a b one) [
              | inl (at, at_col) ↦
                  move (set t.tables s (table t s ++ q ∷ [])) s a d b at at_col here
              | inr old ↦ HasRow-append t.tables s a b (q ∷ []) (inv.marked a b old)
            ];
            size = length-set t.tables s (table t s ++ q ∷ []) ∙ inv.size;
          },
          λ a b r. HasRow-append t.tables s a b (q ∷ []) r,
          here,
        )
]

for_destinations-HasRow :
    (n : ℕ) (route : Route) (i k : ℕ) (t : Tables)
    → get_or route i 0 < n
    → IsMarked n t
    → IsMarked n (for_destinations route i k t)
      × Extends t (for_destinations route i k t)
      × ((j : ℕ)
          → j < k
          → HasRow
              (for_destinations route i k t).tables
              (get_or route i 0)
              (get_or route (i + suc j) 0))
unfolding for_destinations
for_destinations-HasRow n route i zero t inside inv =
    (inv, λ s d r. r, λ j lt. absurd (omega (arith, lt)))
for_destinations-HasRow n route i (suc k) t inside inv =
    let (inv1, ext1, here) =
      add_row-HasRow n (get_or route i 0) (get_or route (i + suc k) 0) (get_or route (suc i) 0) t
        inside inv in
    let (inv2, ext2, rest) = for_destinations-HasRow n route i k _ inside inv1 in
    (
      inv2,
      λ s d r. ext2 s d (ext1 s d r),
      λ j lt. elim (Bool-cases (j == k)) [
        | inl last ↦
            move (for_destinations route i (suc k) t).tables (get_or route i 0) (get_or route i 0)
              (get_or route (i + suc k) 0) (get_or route (i + suc j) 0) refl
              (ap (λ x. get_or route (i + suc x) 0) (sym ((==_iff j k).0 last)))
              (ext2 (get_or route i 0) (get_or route (i + suc k) 0) here)
        | inr before ↦ rest j (ground (arith, before))
      ],
    )

for_sources-HasRow :
    (n : ℕ) (route : Route) (m : ℕ) (t : Tables)
    → ((i : ℕ) → i < length route → get_or route i 0 < n)
    → m < length route
    → IsMarked n t
    → IsMarked n (for_sources route m t)
      × Extends t (for_sources route m t)
      × ((i k : ℕ)
          → i < m
          → i + suc k < length route
          → HasRow (for_sources route m t).tables (get_or route i 0) (get_or route (i + suc k) 0))
unfolding for_sources
for_sources-HasRow n route zero t inside below inv =
    (inv, λ s d r. r, λ i k lt _. absurd (omega (arith, lt)))
for_sources-HasRow n route (suc m) t inside below inv =
    let (inv1, ext1, here) =
      for_destinations-HasRow n route m (length route - 1 - m) t (inside m (omega (arith, below)))
        inv in
    let (inv2, ext2, rest) = for_sources-HasRow n route m _ inside (omega (arith, below)) inv1 in
    (
      inv2,
      λ s d r. ext2 s d (ext1 s d r),
      λ i k lt on. elim (Bool-cases (i == m)) [
        | inl last ↦
            let at = (==_iff i m).0 last in
            move (for_sources route (suc m) t).tables (get_or route m 0) (get_or route i 0)
              (get_or route (m + suc k) 0) (get_or route (i + suc k) 0)
              (ap (λ x. get_or route x 0) (sym at)) (ap (λ x. get_or route (x + suc k) 0) (sym at))
              (ext2 (get_or route m 0) (get_or route (m + suc k) 0)
                (here k (omega (arith, at, on, below))))
        | inr before ↦ rest i k (ground (arith, before)) on
      ],
    )

for_routes-HasRow :
    (n : ℕ) (routes : List Route) (t : Tables)
    → ((route : Route)
        → Listed route routes
        → (0 < length route) × ((i : ℕ) → i < length route → get_or route i 0 < n))
    → IsMarked n t
    → Extends t (for_routes routes t)
      × ((route : Route) (i k : ℕ)
          → Listed route routes
          → i + suc k < length route
          → HasRow (for_routes routes t).tables (get_or route i 0) (get_or route (i + suc k) 0))
unfolding for_routes
for_routes-HasRow n [] t on inv = (λ s d r. r, λ route i k l _. absurd (elim l [ ]))
for_routes-HasRow n (route ∷ routes) t on inv =
    let (some_node, inside) = on route (inl refl) in
    let (inv1, ext1, here) =
      for_sources-HasRow n route (length route - 1) t inside (omega (arith, some_node)) inv in
    let (ext2, rest) = for_routes-HasRow n routes _ (λ r l. on r (inr l)) inv1 in
    (
      λ s d r. ext2 s d (ext1 s d r),
      λ r i k l below. elim l [
        | inl at ↦
            let below' = subst (λ x. i + suc k < length x) (sym at) below in
            move (for_routes (route ∷ routes) t).tables (get_or route i 0) (get_or r i 0)
              (get_or route (i + suc k) 0) (get_or r (i + suc k) 0) (ap (λ x. get_or x i 0) at)
              (ap (λ x. get_or x (i + suc k) 0) at)
              (ext2 (get_or route i 0) (get_or route (i + suc k) 0)
                (here i k (omega (arith, below')) below'))
        | inr l' ↦ rest r i k l' below
      ],
    )

-- When the routes have a node each and only nodes below their number, the routing table of each
-- node on a route has a row for every later node of that route.
pub create_routing_table_array-HasRow :
    (routes : List Route) (tables : List RoutingTable)
    → ((route : Route)
        → Listed route routes
        → (0 < length route) × ((i : ℕ) → i < length route → get_or route i 0 < length routes))
    → create_routing_table_array true true routes ≡ some tables
    → (route : Route) (i k : ℕ) → Listed route routes
    → i + suc k < length route
    → HasRow tables (get_or route i 0) (get_or route (i + suc k) 0)
unfolding create_routing_table_array
create_routing_table_array-HasRow routes tables nodes ran route i k l below =
    let n = length routes in
    let start : Tables = record {
      visited = replicate n (replicate n 0);
      tables = replicate n [];
    } in
    let same = ap (λ o. elim o [ none ↦ [] | some x ↦ x ]) ran in
    subst (λ ts. HasRow ts (get_or route i 0) (get_or route (i + suc k) 0)) same
      ((for_routes-HasRow n routes start nodes (record {
        marked = λ s d one. absurd (unmarked n n s d one);
        size = length-replicate n [];
      })).1
        route i k l below)
