-- ===== src/Node/Packet/Hops.antt =====
-- node_communication.c: where a packet goes.
use in_lib.Base.{
  ℕ, ◌+◌, ◌%◌, ◌<◌, ◌≡◌, refl, Option, none, some, List, [], ◌∷◌, arith, ◌==◌, take, drop,
  Bool-cases, inl, inr, failure,
}
use in_lib.Base.Int.{ℤ}
use in_lib.RoutingServer.Network.{RoutingTable, rows_for}
use in_lib.Node.Packet.{
  last_hop, first_hop, send_udp_packet, sent_all, Datagram, short_at, with_source,
}

last_hop-none :
    (destination : ℕ) (table : RoutingTable) (h : Option ℕ)
    → rows_for destination table ≡ 0
    → last_hop destination table h ≡ h
unfolding last_hop
last_hop-none destination [] h none_for = refl
last_hop-none destination (r ∷ rows) h none_for = elim (Bool-cases (r.destination == destination)) [
  | inl same ↦ absurd (let clash = rw same at none_for in omega (arith, clash))
  | inr other ↦ rw other (last_hop-none destination rows h (rw other at none_for))
]

-- With at most one row for the destination, the two searches find the same hop.
pub last_hop-first_hop :
    (destination : ℕ) (table : RoutingTable)
    → rows_for destination table < 2
    → last_hop destination table none ≡ first_hop destination table
unfolding last_hop first_hop
last_hop-first_hop destination [] one = refl
last_hop-first_hop destination (r ∷ rows) one = elim (Bool-cases (r.destination == destination)) [
  | inl same ↦ rw same (
      last_hop-none destination rows (some r.next_hop)
        (let left = rw same at one in omega (arith, left)))
  | inr other ↦ rw other (last_hop-first_hop destination rows (rw other at one))
]

-- With at most one row for the destination, a packet that a node sends goes to the port of the
-- next hop in its routing table, and the status says whether all bytes were sent; without a row
-- for the destination nothing is sent and the function fails.
pub send_udp_packet-first_hop :
    (sendto : Datagram → ℤ) (packet : List ℕ) (size destination base_port : ℕ)
    (table : RoutingTable)
    → rows_for destination table < 2
    → send_udp_packet sendto packet size destination base_port table
      ≡ elim (first_hop destination table) [
        | none ↦ (failure, none)
        | some h ↦
            let d : Datagram = record {
              port = (base_port + h) % 65536;
              bytes = take size packet;
            } in
            (sent_all sendto d size, some d)
      ]
unfolding send_udp_packet
send_udp_packet-first_hop sendto packet size destination base_port table one =
    rw (send_udp_packet, last_hop-first_hop destination table one) refl

-- A table with other hops.
abbrev pub with_hops : (ℕ → ℕ) → RoutingTable → RoutingTable
with_hops f [] = []
with_hops f (r ∷ rows) = record r { next_hop = f r.next_hop } ∷ with_hops f rows

-- The packet that is forwarded keeps its length, its destination and its message and has the
-- forwarding node as its source, when it has a header and the address fits in 16 bits.
pub with_source_lem :
    (source a b c d e f : ℕ) (msg : List ℕ)
    → source < 65536
    → (short_at (with_source source (a ∷ b ∷ c ∷ d ∷ e ∷ f ∷ msg)) 0 ≡ short_at (a ∷ b ∷ []) 0)
      × (short_at (with_source source (a ∷ b ∷ c ∷ d ∷ e ∷ f ∷ msg)) 2 ≡ short_at (c ∷ d ∷ []) 0)
      × (short_at (with_source source (a ∷ b ∷ c ∷ d ∷ e ∷ f ∷ msg)) 4 ≡ source)
      × (drop 6 (with_source source (a ∷ b ∷ c ∷ d ∷ e ∷ f ∷ msg)) ≡ msg)
with_source_lem source a b c d e f msg h = (refl, refl, omega arith, refl)
