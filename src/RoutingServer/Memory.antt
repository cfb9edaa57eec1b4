-- ===== src/RoutingServer/Memory.antt =====
-- home_exam/utils/src/dynamic_memory.c: the memory of the routing server, as the pointers to its blocks
-- and the number of blocks that are allocated.
pub mod Release
pub mod Granted
mod Tests
use in_lib.Base.{
  ℕ, zero, suc, ◌+◌, ◌-◌, Bool, true, false, Option, none, some, List, [], ◌∷◌, if◌then◌else◌,
  replicate, Status, success, failure, ◌>>=◌,
}

-- A pointer: NULL, to a block, or not initialised.
pub data Pointer : Type 0 where
  null : Pointer
  block : Pointer
  uninitialised : Pointer

-- How many blocks are allocated, and how many calls for memory were made.
pub record Heap : Type 0 where
  pub live : ℕ
  pub calls : ℕ

-- One call of `malloc` or `calloc`, as `allocateIntArray` makes it and the functions for the nodes, the
-- edges and the addresses: `ok call` says whether that call delivers memory.
unfoldable pub allocate : (ℕ → Bool) → Heap → Pointer × Heap
allocate ok h =
    if ok h.calls
    then (block, record { live = suc h.live; calls = suc h.calls })
    else (null, record { live = h.live; calls = suc h.calls })

-- `free`, behind the test for NULL, as `freeIntArray` makes it and the functions for the edges and the
-- addresses; `none` where C does not say what happens.
unfoldable pub release : Pointer → Heap → Option Heap
release null h = some h
release block h = some (record h { live = h.live - 1 })
release uninitialised h = none

abbrev pub status_of : Pointer → Status
status_of null = failure
status_of block = success
status_of uninitialised = failure

-- An array of pointers to arrays: the matrix, the routes and the routing tables.
pub record Nested : Type 0 where
  pub outer : Pointer
  pub rows : List Pointer

-- The loop that allocates `n` rows. It stops at the first that gets no memory; `calloc` has made this one
-- and the others NULL.
unfoldable pub allocate_rows : (ℕ → Bool) → ℕ → Heap → Status × (List Pointer × Heap)
unfolding allocate
allocate_rows ok zero h = (success, ([], h))
allocate_rows ok (suc n) h =
    let (row, h1) = allocate ok h in
    let (status, (rows, h2)) = allocate_rows ok n h1 in
    elim row [
      | null ↦ (failure, (replicate (suc n) null, h1))
      | block ↦ (status, (block ∷ rows, h2))
      | uninitialised ↦ (failure, (replicate (suc n) null, h1))
    ]

unfoldable pub release_rows : List Pointer → Heap → Option Heap
unfolding release
release_rows [] h = some h
release_rows (p ∷ rows) h = release p h >>= λ h1. release_rows rows h1

-- `freeIntMatrix`, `freeRouteArray` and `freeRoutingTableArray`.
unfoldable pub free_nested : Nested → Heap → Option (Nested × Heap)
unfolding release_rows
free_nested a h = elim a.outer [
  | null ↦ some (a, h)
  | block ↦ release_rows a.rows h >>= λ h1.
      release block h1 >>= λ h2. some (record { outer = null; rows = [] }, h2)
  | uninitialised ↦ none
]

-- `allocateIntMatrix`, and `allocateRouteArray` and `allocateRoutingTableArray`, which free the array
-- again when a row gets no memory.
unfoldable pub allocate_nested : (ℕ → Bool) → Bool → ℕ → Heap → Option (Status × (Nested × Heap))
unfolding allocate allocate_rows free_nested
allocate_nested ok frees n h =
    let (outer, h1) = allocate ok h in
    let (status, (rows, h2)) = allocate_rows ok n h1 in
    elim outer [
      | null ↦ some (failure, (record { outer = null; rows = [] }, h1))
      | uninitialised ↦ some (failure, (record { outer = null; rows = [] }, h1))
      | block ↦ elim status [
        | success ↦ some (success, (record { outer = block; rows = rows }, h2))
        | failure ↦
            if frees
            then (free_nested (record { outer = block; rows = rows }) h2 >>= λ freed.
                some (failure, freed))
            else some (failure, (record { outer = block; rows = rows }, h2))
      ]
    ]

-- What `main` of the routing server holds. The arrays of the nodes stand in `nodes`, two for each.
pub record Server : Type 0 where
  pub node_array : Pointer
  pub nodes : List Pointer
  pub invalid_edges : Pointer
  pub index_to_address : Pointer
  pub adjacency_matrix : Nested
  pub distance_array : Pointer
  pub route_array : Nested
  pub routing_tables : Nested

abbrev pub no_array : Nested
no_array = record { outer = null; rows = [] }

-- The variables of `main`: three of the structs are not initialised.
abbrev pub declared : Server
declared = record {
  node_array = null;
  nodes = [];
  invalid_edges = uninitialised;
  index_to_address = uninitialised;
  adjacency_matrix = no_array;
  distance_array = null;
  route_array = no_array;
  routing_tables = record { outer = uninitialised; rows = [] };
}

-- `freeNodeArray`, but for its sockets: the arrays of the nodes are released, the array of nodes itself is not.
unfoldable pub free_node_array : Pointer → List Pointer → Heap → Option Heap
unfolding release_rows
free_node_array null nodes h = some h
free_node_array block nodes h = release_rows nodes h
free_node_array uninitialised nodes h = none

-- `freeRoutingServer`: what is released is NULL behind it.
unfoldable pub free_routing_server : Server → Heap → Option (Server × Heap)
unfolding free_node_array release free_nested
free_routing_server s h = do
  h1 ← free_node_array s.node_array s.nodes h
  h2 ← release s.invalid_edges h1
  h3 ← release s.index_to_address h2
  (matrix, h4) ← free_nested s.adjacency_matrix h3
  h5 ← release s.distance_array h4
  (routes, h6) ← free_nested s.route_array h5
  (tables, h7) ← free_nested s.routing_tables h6
  some (
    record {
      node_array = null;
      nodes = [];
      invalid_edges = null;
      index_to_address = null;
      adjacency_matrix = matrix;
      distance_array = null;
      route_array = routes;
      routing_tables = tables;
    },
    h7,
  )

-- What an allocation of the server comes to; `none` where C does not say what happens.
abbrev pub Allocation : Type 0
Allocation = Option (Status × (Server × Heap))

-- Behind a failure everything is freed; otherwise the next array is allocated.
unfoldable pub go_on : Status → Server → Heap → (Server → Heap → Allocation) → Allocation
unfolding free_routing_server
go_on success s h next = next s h
go_on failure s h next = free_routing_server s h >>= λ freed. some (failure, freed)

-- `allocateRoutingServer` on the variables of `main`. The array of nodes is zeroed, so the two arrays of
-- each node are NULL.
unfoldable pub allocate_routing_server : (ℕ → Bool) → ℕ → Heap → Allocation
unfolding allocate allocate_nested go_on
allocate_routing_server ok n h =
    let (node_array, h1) = allocate ok h in
    elim (status_of node_array) [
      | failure ↦ some (failure, (declared, h1))
      | success ↦
          let s1 = record declared { node_array = node_array; nodes = replicate (n + n) null } in
          let (edges, h2) = allocate ok h1 in
          go_on (status_of edges) (record s1 { invalid_edges = edges }) h2
            (λ s2 h3.
              let (index, h4) = allocate ok h3 in
              go_on (status_of index) (record s2 { index_to_address = index }) h4
                (λ s3 h5. allocate_nested ok false n h5 >>= λ (made, (matrix, h6)).
                  go_on made (record s3 { adjacency_matrix = matrix }) h6
                    (λ s4 h7.
                      let (distances, h8) = allocate ok h7 in
                      go_on (status_of distances) (record s4 { distance_array = distances }) h8
                        (λ s5 h9. allocate_nested ok true n h9 >>= λ (routed, (routes, h10)).
                          go_on routed (record s5 { route_array = routes }) h10
                            (λ s6 h11. allocate_nested ok true n h11 >>= λ (tabled, (tables, h12)).
                              go_on tabled (record s6 { routing_tables = tables }) h12
                                (λ s7 h13. some (success, (s7, h13))))))))
    ]
