-- ===== src/Node/Packet/Tests.antt =====
-- Packets and lines at concrete values.
use in_lib.Base.{ℕ, ◌-◌, ◌≡◌, refl, true, some, List, [], ◌∷◌, ◌++◌, arith, length, drop}
use in_lib.Base.Int.{ℤ, pos}
use in_lib.Base.Outcomes.{done, undefined}
use in_lib.RoutingServer.Network.{RoutingTable}
use in_lib.Node.Packet.{
  create_packet, short_at, string_at, Datagram, with_source, send_udp_packet, first_hop, sent_all,
  space, new_line, extract_length_destination_and_message,
}
use in_lib.Node.Packet.RoundTrip.{create_packet_read, extract_length_destination_and_message_reads}
use in_lib.Node.Packet.Hops.{with_source_lem, send_udp_packet-first_hop}

-- All bytes are sent.
abbrev sendto : Datagram → ℤ
sendto d = pos (length d.bytes)

-- A reader of one digit.
abbrev digit : List ℕ → ℤ
digit [] = pos 0
digit (d ∷ ds) = pos (d - 48)

abbrev table : RoutingTable
table = record { destination = 300; next_hop = 2 } ∷ []

create_packet_read_example :
    (packet : List ℕ) × (create_packet true 9 300 1 (72 ∷ 105 ∷ []) ≡ done packet)
    × (length packet ≡ 9)
    × (short_at packet 0 ≡ 9)
    × (short_at packet 2 ≡ 300)
    × (short_at packet 4 ≡ 1)
    × (string_at (drop 6 packet) ≡ 72 ∷ 105 ∷ [])
create_packet_read_example =
    create_packet_read 9 300 1 (72 ∷ 105 ∷ []) (omega arith) (omega arith) (omega arith) refl
      (omega arith)

-- The length of a message of 65530 characters wraps to 1: what it is copied to has room for 1 byte.
beyond_the_block : create_packet true 1 300 1 (72 ∷ 105 ∷ []) ≡ undefined
unfolding create_packet
beyond_the_block = refl

extract_length_destination_and_message_reads_example :
    extract_length_destination_and_message digit true true
      ((53 ∷ []) ++ space ∷ ((72 ∷ 105 ∷ []) ++ new_line ∷ []))
    ≡ some (record { length = 9; destination = 5; msg = 72 ∷ 105 ∷ [] })
extract_length_destination_and_message_reads_example =
    extract_length_destination_and_message_reads digit (53 ∷ []) (72 ∷ 105 ∷ []) [] refl refl

send_udp_packet-first_hop_example : send_udp_packet sendto (1 ∷ 2 ∷ []) 2 300 5000 table ≡ (
  sent_all sendto (record { port = 5002; bytes = 1 ∷ 2 ∷ [] }) 2,
  some (record { port = 5002; bytes = 1 ∷ 2 ∷ [] }),
)
unfolding first_hop
send_udp_packet-first_hop_example =
    send_udp_packet-first_hop sendto (1 ∷ 2 ∷ []) 2 300 5000 table (omega arith)

abbrev received_packet : List ℕ
received_packet = 0 ∷ 9 ∷ 1 ∷ 44 ∷ 0 ∷ 1 ∷ 72 ∷ 105 ∷ 0 ∷ []

abbrev forwarded_packet : Datagram
forwarded_packet = record { port = 5300; bytes = 0 ∷ 9 ∷ 1 ∷ 44 ∷ 0 ∷ 8 ∷ 72 ∷ 105 ∷ 0 ∷ [] }

with_source_runs :
    (short_at (with_source 7 (0 ∷ 9 ∷ 1 ∷ 44 ∷ 0 ∷ 1 ∷ 72 ∷ 0 ∷ [])) 0 ≡ 9)
    × (short_at (with_source 7 (0 ∷ 9 ∷ 1 ∷ 44 ∷ 0 ∷ 1 ∷ 72 ∷ 0 ∷ [])) 2 ≡ 300)
    × (short_at (with_source 7 (0 ∷ 9 ∷ 1 ∷ 44 ∷ 0 ∷ 1 ∷ 72 ∷ 0 ∷ [])) 4 ≡ 7)
    × (drop 6 (with_source 7 (0 ∷ 9 ∷ 1 ∷ 44 ∷ 0 ∷ 1 ∷ 72 ∷ 0 ∷ [])) ≡ 72 ∷ 0 ∷ [])
with_source_runs = with_source_lem 7 0 9 1 44 0 1 (72 ∷ 0 ∷ []) (omega arith)
