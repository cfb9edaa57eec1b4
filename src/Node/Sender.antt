-- ===== src/Node/Sender.antt =====
-- `prepareAndSendPackets` of home_exam/node/src/node_communication.c: the messages of a file, sent as
-- packets.
pub mod Lines
pub mod Sends
use in_lib.Base.{
  ℕ, zero, suc, ◌+◌, Bool, Option, none, some, List, [], ◌∷◌, ◌++◌, if◌then◌else◌, not, Status,
  success, failure,
}
use in_lib.Base.Int.{ℤ}
use in_lib.Base.Text.{codes, same_string, complete_lines, decimal}
use in_lib.Base.Outcomes.{Outcome, done, failed, undefined, ◌>>=◌}
use in_lib.BinaryFile.{c_string}
use in_lib.RoutingServer.Network.{RoutingTable}
use in_lib.Node.Packet.{
  Datagram, Extracted, extract_length_destination_and_message, create_packet, send_udp_packet,
}

-- What the calls for memory deliver in one round: the two of `strdup` and that of `malloc`.
pub record RoundMemory : Type 0 where
  pub duplicated : Bool
  pub copied : Bool
  pub allocated : Bool

-- The text of the line that ends the sending.
abbrev pub quit_line : ℕ → List ℕ
quit_line own_address = decimal own_address ++ codes " QUIT\n"

-- What one round of the loop does: the sending ends there, it fails, perhaps behind a call of `sendto`,
-- it goes on behind one, or it writes beyond the block of the packet, which is undefined.
pub data SendRound : Type 0 where
  ends : SendRound
  fails : List Datagram → SendRound
  goes_on : List Datagram → SendRound
  overruns : SendRound

abbrev listed_datagram : Option Datagram → List Datagram
listed_datagram none = []
listed_datagram (some d) = d ∷ []

abbrev pub after_sending : Status × Option Datagram → SendRound
after_sending (success, d) = goes_on (listed_datagram d)
after_sending (failure, d) = fails (listed_datagram d)

-- The body of the loop, behind `getline`. The source of every packet is 1.
unfoldable pub send_round :
    (List ℕ → ℤ) → (Datagram → ℤ) → RoundMemory → ℕ → ℕ → RoutingTable → List ℕ → SendRound
unfolding extract_length_destination_and_message create_packet send_udp_packet
send_round atoi sendto memory own_address base_port table line =
    elim (extract_length_destination_and_message atoi memory.duplicated memory.copied line) [
      | none ↦ fails []
      | some e ↦
          if same_string line (quit_line own_address)
          then ends
          else elim (create_packet memory.allocated e.length e.destination 1 e.msg) [
            | undefined ↦ overruns
            | failed ↦ fails []
            | done packet ↦
                after_sending (send_udp_packet sendto packet e.length e.destination base_port table)
          ]
    ]

-- What the loop comes to by a round and the rounds behind it.
abbrev pub after_round :
    SendRound → Outcome (Status × List Datagram) → Outcome (Status × List Datagram)
after_round ends later = done (success, [])
after_round (fails ds) later = done (failure, ds)
after_round (goes_on ds) later = later >>= λ (status, sent). done (status, ds ++ sent)
after_round overruns later = undefined

-- The loop over the lines, from round `i` on: the status, and what was handed to `sendto`.
unfoldable pub send_lines :
    (List ℕ → ℤ)
    → (Datagram → ℤ)
    → (ℕ → RoundMemory)
    → ℕ
    → ℕ
    → ℕ
    → RoutingTable
    → List (List ℕ)
    → Outcome (Status × List Datagram)
unfolding send_round
send_lines atoi sendto memory i own_address base_port table [] = done (success, [])
send_lines atoi sendto memory i own_address base_port table (line ∷ lines) =
    after_round (send_round atoi sendto (memory i) own_address base_port table (c_string line))
      (send_lines atoi sendto memory (suc i) own_address base_port table lines)

-- `prepareAndSendPackets`. The content of the file is `none` where it cannot be opened, `quit_ok` says
-- whether there is memory for the quit line.
unfoldable pub prepare_and_send_packets :
    (List ℕ → ℤ)
    → (Datagram → ℤ)
    → Bool
    → (ℕ → RoundMemory)
    → Option (List ℕ)
    → ℕ
    → ℕ
    → RoutingTable
    → Outcome (Status × List Datagram)
unfolding send_lines complete_lines
prepare_and_send_packets atoi sendto quit_ok memory none own_address base_port table =
    done (failure, [])
prepare_and_send_packets atoi sendto quit_ok memory (some content) own_address base_port table =
    if not quit_ok
    then done (failure, [])
    else send_lines atoi sendto memory 0 own_address base_port table (complete_lines content)
