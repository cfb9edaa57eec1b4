-- ===== src/Node/Packet.antt =====
-- home_exam/node/src/node_communication.c: the packets, and where they are sent. Bytes and
-- characters are numbers below 256, a C string is what stands before its NUL.
pub mod RoundTrip
pub mod Hops
mod Tests
use in_lib.Base.{
  ℕ, zero, suc, ◌+◌, ◌-◌, ◌*◌, ◌/◌, ◌%◌, Bool, true, false, not, ◌&&◌, Option, none, some, List, [],
  ◌∷◌, ◌++◌, ◌==◌, ltb, leb, if◌then◌else◌, length, get_or, take, drop, Status, success, failure,
  ◌>>=◌,
}
use in_lib.Base.Int.{ℤ, pos, negsuc, eq_ℤ}
use in_lib.Base.Text.{same_string}
use in_lib.Base.Outcomes.{Outcome, done, failed, undefined}
use in_lib.RoutingServer.Network.{RoutingTable, RoutingTableRow}

-- `htons` and `ntohs` of an unsigned short: the more significant byte stands first.
abbrev pub htons : ℕ → List ℕ
htons x = x / 256 % 256 ∷ x % 256 ∷ []

-- The unsigned short at an offset of a packet.
abbrev pub short_at : List ℕ → ℕ → ℕ
short_at packet i = get_or packet i 0 * 256 + get_or packet (i + 1) 0

-- `(unsigned short)` of an `int`.
abbrev pub to_ushort : ℤ → ℕ
to_ushort (pos n) = n % 65536
to_ushort (negsuc n) = 65535 - n % 65536

-- What stands before the first `c`, and what stands behind it.
unfoldable pub break_at : ℕ → List ℕ → Option (List ℕ × List ℕ)
break_at c [] = none
break_at c (x ∷ xs) =
    let rest = break_at c xs in
    if x == c then some ([], xs) else rest >>= λ (before, behind). some (x ∷ before, behind)

abbrev pub space : ℕ
space = 32

abbrev pub new_line : ℕ
new_line = 10

-- The C string at the start of some bytes.
abbrev pub string_at : List ℕ → List ℕ
string_at [] = []
string_at (x ∷ xs) = if x == 0 then [] else x ∷ string_at xs

pub record Extracted : Type 0 where
  pub length : ℕ
  pub destination : ℕ
  pub msg : List ℕ

-- `duplicated` and `copied` say whether the two calls of `strdup` got memory.
unfoldable pub extract_length_destination_and_message :
    (List ℕ → ℤ) → Bool → Bool → List ℕ → Option Extracted
unfolding break_at
extract_length_destination_and_message atoi duplicated copied line =
    if not duplicated
    then none
    else break_at space line >>= λ (number, behind). break_at new_line behind >>= λ (msg, rest).
        if not copied
        then none
        else some (record {
          length = (7 + length msg) % 65536;
          destination = to_ushort (atoi number);
          msg = msg;
        })

-- `allocated` says whether there was memory for the packet, a block of `size` bytes. The message is
-- copied with its NUL behind the header: what goes beyond the block is undefined. Delivered are the
-- bytes that are written.
unfoldable pub create_packet : Bool → ℕ → ℕ → ℕ → List ℕ → Outcome (List ℕ)
create_packet allocated size destination source msg =
    if not allocated
    then failed
    else if ltb size (7 + length msg)
    then undefined
    else done (htons size ++ htons destination ++ htons source ++ msg ++ 0 ∷ [])

-- The loop of `sendUDPPacket`, which goes on after a match; `none` is -1.
unfoldable pub last_hop : ℕ → RoutingTable → Option ℕ → Option ℕ
last_hop destination [] next_hop = next_hop
last_hop destination (r ∷ rows) next_hop =
    last_hop destination rows (if r.destination == destination then some r.next_hop else next_hop)

-- The loop of `receiveAndForwardPackets`, which breaks at a match.
unfoldable pub first_hop : ℕ → RoutingTable → Option ℕ
first_hop destination [] = none
first_hop destination (r ∷ rows) =
    let rest = first_hop destination rows in
    if r.destination == destination then some r.next_hop else rest

-- What is handed to `sendto`.
pub record Datagram : Type 0 where
  pub port : ℕ
  pub bytes : List ℕ

-- The tests on the number of bytes that `sendto` returns.
abbrev pub sent_all : (Datagram → ℤ) → Datagram → ℕ → Status
sent_all sendto d length = if eq_ℤ (sendto d) (pos length) then success else failure

-- The status and the datagram that was handed to `sendto`, if any.
unfoldable pub send_udp_packet :
    (Datagram → ℤ) → List ℕ → ℕ → ℕ → ℕ → RoutingTable → Status × Option Datagram
unfolding last_hop
send_udp_packet sendto packet length destination base_port table =
    elim (last_hop destination table none) [
      | none ↦ (failure, none)
      | some next_hop ↦
          let d : Datagram = record {
            port = (base_port + next_hop) % 65536;
            bytes = take length packet;
          } in
          (sent_all sendto d length, some d)
    ]

-- What one round of the loop of `receiveAndForwardPackets` does.
pub data Round : Type 0 where
  quit : Round
  delivered : Round
  forwarded : Datagram → Status → Round
  no_hop : Round

-- "QUIT".
abbrev pub quit_msg : List ℕ
quit_msg = 81 ∷ 85 ∷ 73 ∷ 84 ∷ []

-- The packet with the new source.
abbrev pub with_source : ℕ → List ℕ → List ℕ
with_source source packet = take 4 packet ++ htons source ++ drop 6 packet

unfoldable pub handle_packet : (Datagram → ℤ) → ℕ → ℕ → RoutingTable → List ℕ → Round
unfolding first_hop
handle_packet sendto own_address base_port table packet =
    let destination = short_at packet 2 in
    if (destination == own_address) && same_string (string_at (drop 6 packet)) quit_msg
    then quit
    else if destination == own_address
    then delivered
    else elim (first_hop destination table) [
      | none ↦ no_hop
      | some next_hop ↦
          let length = short_at packet 0 in
          let d : Datagram = record {
            port = (destination + base_port) % 65536;
            bytes = take length (with_source own_address packet);
          } in
          forwarded d (sent_all sendto d length)
    ]

-- The loop over the packets that are received; `none` is a failure of `recv`. It ends with the
-- packets: the code waits for the next one then.
unfoldable pub receive_and_forward_packets :
    (Datagram → ℤ) → ℕ → ℕ → RoutingTable → List (Option (List ℕ)) → Option Status × List Datagram
unfolding handle_packet
receive_and_forward_packets sendto own_address base_port table [] = (none, [])
receive_and_forward_packets sendto own_address base_port table (none ∷ packets) = (some failure, [])
receive_and_forward_packets sendto own_address base_port table (some packet ∷ packets) =
    let (status, sent) = receive_and_forward_packets sendto own_address base_port table packets in
    elim (handle_packet sendto own_address base_port table packet) [
      | quit ↦ (some success, [])
      | delivered ↦ (status, sent)
      | no_hop ↦ (some failure, [])
      | forwarded d success ↦ (status, d ∷ sent)
      | forwarded d failure ↦ (some failure, d ∷ [])
    ]
