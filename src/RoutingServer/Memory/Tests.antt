-- ===== src/RoutingServer/Memory/Tests.antt =====
-- The memory of a server for two nodes.
use in_lib.Base.{◌≡◌, refl, true, none, some, ltb, success, failure}
use in_lib.RoutingServer.Memory.{
  Heap, Server, allocate_routing_server, free_routing_server, declared,
}
use in_lib.RoutingServer.Memory.Granted.{free_routing_server-allocate_routing_server}

abbrev empty_heap : Heap
empty_heap = record { live = 0; calls = 0 }

free_routing_server-allocate_routing_server_example :
    (s : Server) × (h1 : Heap) × (freed : Server) × (h2 : Heap) × (allocate_routing_server
        (λ call. true)
        2
        empty_heap
      ≡ some (success, (s, h1)))
    × (free_routing_server s h1 ≡ some (freed, h2))
    × (h2.live ≡ 1)
free_routing_server-allocate_routing_server_example =
    free_routing_server-allocate_routing_server (λ call. true) (λ call. refl) 2 empty_heap

-- Without memory for the second array, pointers that were never set are freed; without memory for the
-- first, `main` frees them.
memory_missing :
    (allocate_routing_server (λ call. ltb call 1) 2 empty_heap ≡ none)
    × (allocate_routing_server (λ call. ltb call 0) 2 empty_heap
        ≡ some (failure, (declared, record { live = 0; calls = 1 })))
    × (free_routing_server declared (record { live = 0; calls = 1 }) ≡ none)
unfolding allocate_routing_server free_routing_server
memory_missing = (refl, refl, refl)
