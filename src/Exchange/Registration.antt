-- ===== src/Exchange/Registration.antt =====
-- `sendEdgeInformation` against `populateNodeArray`.
use in_lib.Base.{
  ℕ, ◌*◌, ◌<◌, ◌≡◌, refl, sym, ap, subst, Bool, true, Option, some, List, [], ◌∷◌, ◌++◌, map,
  length, length-map, All, arith, bind-some,
}
use in_lib.Base.Int.{ℤ}
use in_lib.Base.Words.{
  write_u32, write_u32s, u32s_at, u32_at-write_u32, u32s_at-write_u32s, length-write_u32s,
}
use in_lib.Sockets.{
  Received, WaitsForAll, SendsAll, receive_n_bytes_message-append, send_message-all,
}
use in_lib.RoutingServer.Network.{Node, Neighbor}
use in_lib.RoutingServer.Communication.{
  receive_neighbors, with_weights, populate_node, populate_node_array,
  allocate_neighbor_addresses_and_edge_weights, allocate_int_array,
}
use in_lib.Node.Messages.{addresses_of, weights_of, send_edge_information}
use mathlib.Core.List.{append_assoc, append-nil}

-- The numbers of a node fit in an `int`.
pub record IsNodeOfInts (node : Node) : Type 0 where
  pub address : node.address < 2147483648
  pub few : length node.neighbors < 2147483648
  pub addresses : All (λ a. a < 2147483648) (addresses_of node.neighbors)
  pub weights : All (λ w. w < 2147483648) (weights_of node.neighbors)

abbrev pub edge_bytes : Node → List ℕ
edge_bytes node =
    write_u32 node.address
    ++ (write_u32 (length node.neighbors)
        ++ (write_u32s (addresses_of node.neighbors) ++ write_u32s (weights_of node.neighbors)))

pub send_edge_information_lem :
    (send : List ℕ → ℤ) (node : Node)
    → SendsAll send
    → send_edge_information send node ≡ some (edge_bytes node)
unfolding send_edge_information
send_edge_information_lem send node sends = bind-some _ _ _ _ (send_message-all send _ sends) (
    bind-some _ _ _ _ (send_message-all send _ sends) (
      bind-some _ _ _ _ (send_message-all send _ sends)
        (bind-some _ _ _ _ (send_message-all send _ sends) refl)))

with_weights_lem : (ns : List Neighbor) → with_weights (addresses_of ns) (weights_of ns) ≡ ns
with_weights_lem [] = refl
with_weights_lem (x ∷ ns) = ap (λ ys. x ∷ ys) (with_weights_lem ns)

wide : (xs : List ℕ) → All (λ x. x < 2147483648) xs → All (λ x. x < 4294967296) xs
wide [] h = tt
wide (x ∷ xs) h = (omega (arith, h.0), wide xs h.1)

-- The integers of an array are read from the bytes of the array.
u32s_at-length :
    (n : ℕ) (xs : List ℕ)
    → n ≡ length xs
    → All (λ x. x < 2147483648) xs
    → u32s_at n (write_u32s xs) ≡ xs
u32s_at-length n xs size ints = rw size (u32s_at-write_u32s xs (wide xs ints))

receive_neighbors-write_u32s :
    (malloc_ok : ℕ → Bool) (recv : ℕ → List ℕ → Received) (ns : List Neighbor) (rest : List ℕ)
    → WaitsForAll recv
    → All (λ a. a < 2147483648) (addresses_of ns)
    → All (λ w. w < 2147483648) (weights_of ns)
    → malloc_ok (length ns) ≡ true
    → receive_neighbors malloc_ok recv
        (length ns)
        ((write_u32s (addresses_of ns) ++ write_u32s (weights_of ns)) ++ rest)
      ≡ some (ns, rest)
unfolding receive_neighbors allocate_neighbor_addresses_and_edge_weights
receive_neighbors-write_u32s malloc_ok recv ns rest waits as_int ws_int memory =
    let as_length = length-map (λ (x : Neighbor). x.address) ns in
    let ws_length = length-map (λ (x : Neighbor). x.weight) ns in
    rw
      (
        receive_neighbors,
        allocate_neighbor_addresses_and_edge_weights,
        allocate_int_array,
        memory,
        memory,
        append_assoc (write_u32s (addresses_of ns)) (write_u32s (weights_of ns)) rest,
      )
      (bind-some _ _ _ _
        (receive_n_bytes_message-append recv (4 * length ns) (write_u32s (addresses_of ns)) _ waits
          (omega (arith, length-write_u32s (addresses_of ns), as_length)))
        (bind-some _ _ _ _
          (receive_n_bytes_message-append recv (4 * length ns) (write_u32s (weights_of ns)) rest
            waits (omega (arith, length-write_u32s (weights_of ns), ws_length)))
          (rw
            (
              u32s_at-length (length ns) (addresses_of ns) (sym as_length) as_int,
              u32s_at-length (length ns) (weights_of ns) (sym ws_length) ws_int,
              with_weights_lem ns,
            )
            refl)))

-- What a node sends is received as that node.
populate_node-edge_bytes :
    (malloc_ok : ℕ → Bool) (recv : ℕ → List ℕ → Received) (node : Node) (rest : List ℕ)
    → WaitsForAll recv
    → IsNodeOfInts node
    → malloc_ok (length node.neighbors) ≡ true
    → populate_node malloc_ok recv (edge_bytes node ++ rest) ≡ some (node, rest)
unfolding populate_node
populate_node-edge_bytes malloc_ok recv node rest waits ints memory =
    let n = length node.neighbors in
    bind-some _ _ _ _ (receive_n_bytes_message-append recv 4 (write_u32 node.address) _ waits refl)
      (bind-some _ _ _ _ (receive_n_bytes_message-append recv 4 (write_u32 n) _ waits refl) (
        rw (u32_at-write_u32 n [] (omega (arith, ints.few))) (
          bind-some _ _ _ _
            (receive_neighbors-write_u32s malloc_ok recv node.neighbors rest waits ints.addresses
              ints.weights memory)
            (rw (u32_at-write_u32 node.address [] (omega (arith, ints.address))) refl))))

-- The nodes' connections, in the order in which the server accepts them.
abbrev pub registrations : List Node → List (Option (List ℕ))
registrations nodes = map (λ n. some (edge_bytes n)) nodes

pub populate_node_array-registrations :
    (malloc_ok : ℕ → Bool) (recv : ℕ → List ℕ → Received) (nodes : List Node)
    → WaitsForAll recv
    → All IsNodeOfInts nodes
    → All (λ (x : Node). malloc_ok (length x.neighbors) ≡ true) nodes
    → populate_node_array malloc_ok recv (registrations nodes) ≡ some nodes
unfolding populate_node_array
populate_node_array-registrations malloc_ok recv [] waits ints memory = refl
populate_node_array-registrations malloc_ok recv (node ∷ nodes) waits ints memory =
    bind-some _ _ _ _
      (subst (λ bs. populate_node malloc_ok recv bs ≡ some (node, []))
        (append-nil (edge_bytes node))
        (populate_node-edge_bytes malloc_ok recv node [] waits ints.0 memory.0))
      (bind-some _ _ _ _
        (populate_node_array-registrations malloc_ok recv nodes waits ints.1 memory.1) refl)

-- What the nodes send of themselves, when their messages are sent and received whole, there is memory
-- and all numbers fit in an `int`, is what the server has in its array of nodes, in the order in which
-- it accepts their connections.
pub populate_node_array-send_edge_information :
    (malloc_ok : ℕ → Bool) (recv : ℕ → List ℕ → Received) (send : List ℕ → ℤ) (nodes : List Node)
    → WaitsForAll recv
    → SendsAll send
    → All IsNodeOfInts nodes
    → All (λ (x : Node). malloc_ok (length x.neighbors) ≡ true) nodes
    → populate_node_array malloc_ok recv (map (send_edge_information send) nodes) ≡ some nodes
populate_node_array-send_edge_information malloc_ok recv send nodes waits sends ints memory =
    subst (λ cs. populate_node_array malloc_ok recv cs ≡ some nodes) (sym (all_sent nodes))
      (populate_node_array-registrations malloc_ok recv nodes waits ints memory)
  where
    all_sent : (ns : List Node) → map (send_edge_information send) ns ≡ registrations ns
    all_sent [] = refl
    all_sent (n ∷ ns) =
        rw (send_edge_information_lem send n sends)
          (ap (λ cs. some (edge_bytes n) ∷ cs) (all_sent ns))
