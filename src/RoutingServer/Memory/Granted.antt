-- ===== src/RoutingServer/Memory/Granted.antt =====
-- `allocateRoutingServer` when every call gets memory, and `freeRoutingServer` behind it.
use in_lib.Base.{
  ℕ, zero, suc, ◌+◌, ◌≡◌, refl, Bool, true, false, some, List, [], ◌∷◌, arith, All, bind-some,
  replicate, success,
}
use in_lib.RoutingServer.Memory.{
  Pointer, null, block, Heap, allocate, allocate_rows, allocate_nested, Server, free_routing_server,
  go_on, allocate_routing_server,
}
use in_lib.RoutingServer.Memory.Release.{
  IsInitialised, IsTidy, all_blocks, owned, free_routing_server-owned,
}

nulls-IsInitialised : (n : ℕ) → All IsInitialised (replicate n null)
nulls-IsInitialised zero = tt
nulls-IsInitialised (suc n) = (tt, nulls-IsInitialised n)

all_blocks-nulls : (n : ℕ) → all_blocks (replicate n null) ≡ 0
all_blocks-nulls zero = refl
all_blocks-nulls (suc n) = omega (arith, all_blocks-nulls n)

module _ (ok : ℕ → Bool) (granted : (call : ℕ) → ok call ≡ true) where
  allocate-block :
      (h : Heap) → allocate ok h ≡ (block, record { live = suc h.live; calls = suc h.calls })
  unfolding allocate
  allocate-block h = rw (allocate, granted h.calls) refl

  allocate_rows-blocks :
      (n : ℕ) (h : Heap)
      → (rows : List Pointer) × (h' : Heap) × (allocate_rows ok n h ≡ (success, (rows, h')))
        × All IsInitialised rows
        × (h'.live ≡ all_blocks rows + h.live)
  unfolding allocate_rows
  allocate_rows-blocks zero h = ([], h, refl, tt, omega arith)
  allocate_rows-blocks (suc n) h =
      let h1 : Heap = record { live = suc h.live; calls = suc h.calls } in
      let (rows, h2, ran, ok_rows, size) = allocate_rows-blocks n h1 in
      (
        block ∷ rows,
        h2,
        rw (allocate_rows, allocate-block h, allocate-block h, ran) refl,
        (tt, ok_rows),
        omega (arith, size),
      )

  allocate_nested-blocks :
      (frees : Bool) (n : ℕ) (h : Heap)
      → (rows : List Pointer) × (h' : Heap) × (allocate_nested ok frees n h
          ≡ some (success, (record { outer = block; rows = rows }, h')))
        × All IsInitialised rows
        × (h'.live ≡ suc (all_blocks rows) + h.live)
  unfolding allocate_nested
  allocate_nested-blocks frees n h =
      let h1 : Heap = record { live = suc h.live; calls = suc h.calls } in
      let (rows, h2, ran, ok_rows, size) = allocate_rows-blocks n h1 in
      (
        rows,
        h2,
        rw (allocate_nested, allocate-block h, allocate-block h, ran, allocate-block h, ran) refl,
        ok_rows,
        omega (arith, size),
      )

  -- When every call gets memory, `allocateRoutingServer` succeeds, all pointers are set, and the blocks
  -- that were added are those of the server and the array of nodes.
  pub allocate_routing_server-owned :
      (n : ℕ) (h : Heap)
      → (s : Server) × (h' : Heap) × (allocate_routing_server ok n h ≡ some (success, (s, h')))
        × IsTidy s
        × (h'.live ≡ owned s + suc h.live)
  unfolding allocate_routing_server go_on
  allocate_routing_server-owned n h =
      let h1 : Heap = record { live = suc h.live; calls = suc h.calls } in
      let h2 : Heap = record { live = suc h1.live; calls = suc h1.calls } in
      let h3 : Heap = record { live = suc h2.live; calls = suc h2.calls } in
      let (matrix, h4, ran4, ok4, size4) = allocate_nested-blocks false n h3 in
      let h5 : Heap = record { live = suc h4.live; calls = suc h4.calls } in
      let (routes, h6, ran6, ok6, size6) = allocate_nested-blocks true n h5 in
      let (tables, h7, ran7, ok7, size7) = allocate_nested-blocks true n h6 in
      (
        record {
          node_array = block;
          nodes = replicate (n + n) null;
          invalid_edges = block;
          index_to_address = block;
          adjacency_matrix = record { outer = block; rows = matrix };
          distance_array = block;
          route_array = record { outer = block; rows = routes };
          routing_tables = record { outer = block; rows = tables };
        },
        h7,
        rw
            (
              allocate_routing_server,
              allocate-block h,
              allocate-block h,
              allocate-block h1,
              go_on,
              allocate-block h2,
            )
            (bind-some _ _ _ _ ran4 (
              rw (go_on, allocate-block h4)
                (bind-some _ _ _ _ ran6 (bind-some _ _ _ _ ran7 refl)))),
        record {
          node_array = tt;
          nodes = nulls-IsInitialised (n + n);
          invalid_edges = tt;
          index_to_address = tt;
          adjacency_matrix = (tt, ok4);
          distance_array = tt;
          route_array = (tt, ok6);
          routing_tables = (tt, ok7);
        },
        omega (arith, size4, size6, size7, all_blocks-nulls (n + n)),
      )

  -- When every call gets memory, the server's allocation succeeds, and `freeRoutingServer` behind it
  -- leaves one block more than there were: the array of nodes.
  pub free_routing_server-allocate_routing_server :
      (n : ℕ) (h : Heap)
      → (s : Server) × (h1 : Heap) × (freed : Server) × (h2 : Heap) × (allocate_routing_server ok n
            h
          ≡ some (success, (s, h1)))
        × (free_routing_server s h1 ≡ some (freed, h2))
        × (h2.live ≡ suc h.live)
  free_routing_server-allocate_routing_server n h =
      let (s, h1, made, tidy, size) = allocate_routing_server-owned n h in
      let (freed, h2, ran, left) = free_routing_server-owned s h1 (suc h.live) tidy size in
      (s, h1, freed, h2, made, ran, left)
