-- ===== src/RoutingServer/Memory/Release.antt =====
-- What `freeRoutingServer` releases.
use in_lib.Base.{
  ℕ, ◌+◌, ◌-◌, ◌≡◌, refl, ap, ◌>>=◌, Option, some, List, [], ◌∷◌, arith, All, bind-some,
}
use in_lib.RoutingServer.Memory.{
  Pointer, null, block, uninitialised, Heap, release, Nested, release_rows, free_nested, Server,
  free_node_array, free_routing_server,
}

abbrev pub IsInitialised : Pointer → Type 0
IsInitialised null = Unit
IsInitialised block = Unit
IsInitialised uninitialised = ⊥

-- How many blocks hang on pointers.
abbrev pub blocks : Pointer → ℕ
blocks null = 0
blocks block = 1
blocks uninitialised = 0

abbrev pub all_blocks : List Pointer → ℕ
all_blocks [] = 0
all_blocks (p ∷ rows) = blocks p + all_blocks rows

-- The blocks behind an array of which the pointer is NULL are not reached.
abbrev pub blocks_behind : Pointer → List Pointer → ℕ
blocks_behind null rows = 0
blocks_behind block rows = all_blocks rows
blocks_behind uninitialised rows = 0

abbrev pub nested_blocks : Nested → ℕ
nested_blocks a = blocks a.outer + blocks_behind a.outer a.rows

-- The blocks of the server but the array of nodes itself.
abbrev pub owned : Server → ℕ
owned s =
    blocks_behind s.node_array s.nodes
    + blocks s.invalid_edges
    + blocks s.index_to_address
    + nested_blocks s.adjacency_matrix
    + blocks s.distance_array
    + nested_blocks s.route_array
    + nested_blocks s.routing_tables

abbrev pub IsNested : Nested → Type 0
IsNested a = IsInitialised a.outer × All IsInitialised a.rows

-- All pointers are NULL or to a block.
pub record IsTidy (s : Server) : Type 0 where
  pub node_array : IsInitialised s.node_array
  pub nodes : All IsInitialised s.nodes
  pub invalid_edges : IsInitialised s.invalid_edges
  pub index_to_address : IsInitialised s.index_to_address
  pub adjacency_matrix : IsNested s.adjacency_matrix
  pub distance_array : IsInitialised s.distance_array
  pub route_array : IsNested s.route_array
  pub routing_tables : IsNested s.routing_tables

-- A call releases `n` of the blocks.
abbrev Releases : ℕ → Heap → Option Heap → Type 0
Releases n h r = (k : ℕ) → h.live ≡ n + k → (h' : Heap) × (r ≡ some h') × (h'.live ≡ k)

release-Releases : (p : Pointer) (h : Heap) → IsInitialised p → Releases (blocks p) h (release p h)
unfolding release
release-Releases null h ok k e = (h, refl, omega (arith, e))
release-Releases block h ok k e = (record h { live = h.live - 1 }, refl, omega (arith, e))
release-Releases uninitialised h ok k e = absurd ok

release_rows-Releases :
    (rows : List Pointer) (h : Heap)
    → All IsInitialised rows
    → Releases (all_blocks rows) h (release_rows rows h)
unfolding release_rows
release_rows-Releases [] h ok k e = (h, refl, omega (arith, e))
release_rows-Releases (p ∷ rows) h ok k e =
    let (h1, ran, e1) = release-Releases p h ok.0 (all_blocks rows + k) (omega (arith, e)) in
    let (h2, ran2, e2) = release_rows-Releases rows h1 ok.1 k e1 in
    (h2, bind-some _ _ _ _ ran ran2, e2)

free_nested-Releases :
    (outer : Pointer) (rows : List Pointer) (h : Heap) (k : ℕ)
    → IsNested (record { outer = outer; rows = rows })
    → h.live ≡ nested_blocks (record { outer = outer; rows = rows }) + k
    → (a : Nested) × (h' : Heap) × (free_nested (record { outer = outer; rows = rows }) h
        ≡ some (a, h'))
      × (h'.live ≡ k)
unfolding free_nested
free_nested-Releases null rows h k ok e = (_, h, refl, omega (arith, e))
free_nested-Releases block rows h k ok e =
    let (h1, ran, e1) = release_rows-Releases rows h ok.1 (1 + k) (omega (arith, e)) in
    let (h2, ran2, e2) = release-Releases block h1 tt k e1 in
    (
      record { outer = null; rows = [] },
      h2,
      bind-some _ _ _ _ ran
          (ap (λ o. o >>= λ h'. some (record { outer = null; rows = [] }, h')) ran2),
      e2,
    )
free_nested-Releases uninitialised rows h k ok e = absurd ok.0

free_node_array-Releases :
    (node_array : Pointer) (nodes : List Pointer) (h : Heap)
    → IsInitialised node_array
    → All IsInitialised nodes
    → Releases (blocks_behind node_array nodes) h (free_node_array node_array nodes h)
unfolding free_node_array
free_node_array-Releases null nodes h ok oks k e = (h, refl, omega (arith, e))
free_node_array-Releases block nodes h ok oks k e = release_rows-Releases nodes h oks k e
free_node_array-Releases uninitialised nodes h ok oks k e = absurd ok

-- When all pointers are NULL or to a block, `freeRoutingServer` releases each block of the server once,
-- but for the array of nodes, which stays allocated.
pub free_routing_server-owned :
    (s : Server) (h : Heap) (k : ℕ)
    → IsTidy s
    → h.live ≡ owned s + k
    → (freed : Server) × (h' : Heap) × (free_routing_server s h ≡ some (freed, h')) × (h'.live ≡ k)
unfolding free_routing_server
free_routing_server-owned s h k t e =
    let m = nested_blocks s.adjacency_matrix in
    let d = blocks s.distance_array in
    let r = nested_blocks s.route_array in
    let b = nested_blocks s.routing_tables in
    let i = blocks s.index_to_address in
    let (h1, ran1, e1) =
      free_node_array-Releases s.node_array s.nodes h t.node_array t.nodes
        (blocks s.invalid_edges + i + m + d + r + b + k) (omega (arith, e)) in
    let (h2, ran2, e2) =
      release-Releases s.invalid_edges h1 t.invalid_edges (i + m + d + r + b + k)
        (omega (arith, e1)) in
    let (h3, ran3, e3) =
      release-Releases s.index_to_address h2 t.index_to_address (m + d + r + b + k)
        (omega (arith, e2)) in
    let (a4, h4, ran4, e4) =
      free_nested-Releases s.adjacency_matrix.outer s.adjacency_matrix.rows h3 (d + r + b + k)
        t.adjacency_matrix (omega (arith, e3)) in
    let (h5, ran5, e5) =
      release-Releases s.distance_array h4 t.distance_array (r + b + k) (omega (arith, e4)) in
    let (a6, h6, ran6, e6) =
      free_nested-Releases s.route_array.outer s.route_array.rows h5 (b + k) t.route_array
        (omega (arith, e5)) in
    let (a7, h7, ran7, e7) =
      free_nested-Releases s.routing_tables.outer s.routing_tables.rows h6 k t.routing_tables e6 in
    (
      _,
      h7,
      bind-some _ _ _ _ ran1 (
          bind-some _ _ _ _ ran2 (
            bind-some _ _ _ _ ran3 (
              bind-some _ _ _ _ ran4
                (bind-some _ _ _ _ ran5 (bind-some _ _ _ _ ran6 (bind-some _ _ _ _ ran7 refl)))))),
      e7,
    )
