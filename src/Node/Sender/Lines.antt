-- ===== src/Node/Sender/Lines.antt =====
-- The messages that `prepareAndSendPackets` can send: their lines in the file, and their datagrams.
use in_lib.Base.{
  ℕ, zero, ◌+◌, ◌%◌, ◌<◌, ◌≡◌, refl, ap, true, false, none, some, List, [], ◌∷◌, ◌++◌, length, map,
  suc,
}
use in_lib.Base.Int.{ℤ, pos, eq_ℤ}
use in_lib.Base.Text.{same_string, has_char, has_char-cons, complete_lines}
use in_lib.BinaryFile.{c_string}
use in_lib.RoutingServer.Network.{RoutingTable}
use in_lib.Node.Packet.{Datagram, htons, to_ushort, space, new_line, last_hop}
use in_lib.Node.Sender.{RoundMemory, quit_line}

-- A line of the file: the destination as a text, and the message.
pub record Message : Type 0 where
  pub number : List ℕ
  pub msg : List ℕ

-- The line without its newline.
abbrev pub text_of : Message → List ℕ
text_of m = m.number ++ space ∷ m.msg

abbrev pub line_of : Message → List ℕ
line_of m = text_of m ++ new_line ∷ []

abbrev pub lines_of : List Message → List ℕ
lines_of [] = []
lines_of (m ∷ ms) = line_of m ++ lines_of ms

-- The packet of a message, as the node with the address 1 makes it.
abbrev pub packet_of : (List ℕ → ℤ) → Message → List ℕ
packet_of atoi m =
    htons (7 + length m.msg) ++ htons (to_ushort (atoi m.number)) ++ htons 1 ++ m.msg ++ 0 ∷ []

-- The next hop for a destination; 0 where the table has none.
unfoldable pub hop_for : RoutingTable → ℕ → ℕ
unfolding last_hop
hop_for table destination = elim (last_hop destination table none) [ none ↦ 0 | some hop ↦ hop ]

-- A message that can be sent: its texts have none of the characters that end them, its packet's length
-- is a short, its line is not the quit line, and the table has a row for its destination.
pub record IsSendable (atoi : List ℕ → ℤ) (own_address : ℕ) (table : RoutingTable) (m : Message)
    : Type 0 where
  pub hop : ℕ
  pub has_hop : last_hop (to_ushort (atoi m.number)) table none ≡ some hop
  pub no_space : has_char space m.number ≡ false
  pub no_line : has_char new_line (text_of m) ≡ false
  pub no_line_msg : has_char new_line m.msg ≡ false
  pub no_nul : has_char 0 (line_of m) ≡ false
  pub short : 7 + length m.msg < 65536
  pub no_quit : same_string (line_of m) (quit_line own_address) ≡ false

-- All bytes are sent.
abbrev pub SendsDatagrams : (Datagram → ℤ) → Type 0
SendsDatagrams sendto = (d : Datagram) → sendto d ≡ pos (length d.bytes)

-- There is memory.
abbrev pub enough : RoundMemory
enough = record { duplicated = true; copied = true; allocated = true }

pub c_string-no_nul : (text : List ℕ) → has_char 0 text ≡ false → c_string text ≡ text
c_string-no_nul [] h = refl
c_string-no_nul (zero ∷ text) h = cc
c_string-no_nul (suc c ∷ text) h =
    ap (λ t. suc c ∷ t) (c_string-no_nul text (has_char-cons 0 (suc c) text h).1)

pub complete_lines-line :
    (text rest : List ℕ)
    → has_char new_line text ≡ false
    → complete_lines ((text ++ new_line ∷ []) ++ rest)
      ≡ (text ++ new_line ∷ []) ∷ complete_lines rest
unfolding complete_lines
complete_lines-line [] rest h = refl
complete_lines-line (c ∷ text) rest h =
    let (other, later) = has_char-cons new_line c text h in
    rw (complete_lines, other, complete_lines-line text rest later) refl

module _ (atoi : List ℕ → ℤ) (base_port : ℕ) (table : RoutingTable) where
  abbrev pub datagram_of : Message → Datagram
  datagram_of m = record {
    port = (base_port + hop_for table (to_ushort (atoi m.number))) % 65536;
    bytes = packet_of atoi m;
  }

  -- What is to be handed to `sendto` for the messages.
  abbrev pub datagrams : List Message → List Datagram
  datagrams ms = map datagram_of ms

-- The call of `sendto` delivers the number of the bytes, or another number.
abbrev pub IsSentWhole : (Datagram → ℤ) → Datagram → Type 0
IsSentWhole sendto d = sendto d ≡ pos (length d.bytes)

abbrev pub IsNotSentWhole : (Datagram → ℤ) → Datagram → Type 0
IsNotSentWhole sendto d = eq_ℤ (sendto d) (pos (length d.bytes)) ≡ false
