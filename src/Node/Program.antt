-- ===== src/Node/Program.antt =====
-- home_exam/node/src/node.c: the main program of a node, from the node that its arguments describe on,
-- when its sockets are open.
use in_lib.Base.{
  ℕ, ◌≡◌, refl, ◌∙◌, Bool, true, Option, none, some, List, [], ◌∷◌, ◌==◌, if◌then◌else◌, Status,
  success, failure, All, ◌++◌,
}
use in_lib.Base.Int.{ℤ}
use in_lib.Base.Outcomes.{Outcome, done, ◌>>=◌}
use in_lib.Sockets.{Received, SendsAll}
use in_lib.RoutingServer.Network.{Node, RoutingTable}
use in_lib.Exchange.Registration.{edge_bytes, send_edge_information_lem}
use in_lib.Node.Messages.{send_edge_information, receive_routing_table}
use in_lib.Node.Packet.{Datagram, receive_and_forward_packets}
use in_lib.Node.Sender.{RoundMemory, prepare_and_send_packets, quit_line}
use in_lib.Node.Sender.Lines.{
  Message, IsSendable, SendsDatagrams, IsSentWhole, IsNotSentWhole, enough, line_of, lines_of,
  datagram_of, datagrams,
}
use in_lib.Node.Sender.Sends.{prepare_and_send_packets-datagrams, prepare_and_send_packets_stuck}

-- The world of a node: the calls of the operating system and of the library, what the server sends,
-- the content of `data.txt` (messages) and the packets that arrive.
pub record World : Type 0 where
  pub send : List ℕ → ℤ
  pub recv : ℕ → List ℕ → Received
  pub sendto : Datagram → ℤ
  pub atoi : List ℕ → ℤ
  pub calloc_ok : ℕ → Bool
  pub quit_ok : Bool
  pub memory : ℕ → RoundMemory
  pub from_server : List ℕ
  pub messages : Option (List ℕ)
  pub packets : List (Option (List ℕ))

-- How the program ends, what it has sent to the server and what to the nodes. The status is `none`
-- while it waits for packets.
pub record NodeRun : Type 0 where
  pub status : Option Status
  pub to_server : List ℕ
  pub to_nodes : List Datagram

-- Behind the routing table: the node with the address 1 sends, and does not return with the failure of
-- that; the others forward.
unfoldable pub run_with_table : World → ℕ → ℕ → List ℕ → RoutingTable → Outcome NodeRun
unfolding prepare_and_send_packets receive_and_forward_packets
run_with_table w own_address base_port to_server table =
    let (forwarding, forwarded) =
      receive_and_forward_packets w.sendto own_address base_port table w.packets in
    if own_address == 1
    then (prepare_and_send_packets w.atoi w.sendto w.quit_ok w.memory w.messages own_address
          base_port table
        >>= λ (sending, datagrams_sent).
            done
              (record { status = some success; to_server = to_server; to_nodes = datagrams_sent }))
    else done (record { status = forwarding; to_server = to_server; to_nodes = forwarded })

-- `main` behind the opening of the sockets.
unfoldable pub run_node : World → ℕ → Node → Outcome NodeRun
unfolding send_edge_information receive_routing_table run_with_table
run_node w base_port node = elim (send_edge_information w.send node) [
  | none ↦ done (record { status = some failure; to_server = []; to_nodes = [] })
  | some to_server ↦ elim (receive_routing_table w.calloc_ok w.recv w.from_server) [
    | none ↦ done (record { status = some failure; to_server = to_server; to_nodes = [] })
    | some (table, rest) ↦ run_with_table w node.address base_port to_server table
  ]
]

-- What the program does when its messages to and from the server pass.
run_node-table :
    (w : World) (base_port : ℕ) (node : Node) (to_server rest : List ℕ) (table : RoutingTable)
    → send_edge_information w.send node ≡ some to_server
    → receive_routing_table w.calloc_ok w.recv w.from_server ≡ some (table, rest)
    → run_node w base_port node ≡ run_with_table w node.address base_port to_server table
unfolding run_node
run_node-table w base_port node to_server rest table registered received =
    rw (run_node, registered, received) refl

-- The node with the address 1 that sends its edges, receives a table and has a file of sendable
-- messages with its quit line ends with EXIT_SUCCESS: the server has been sent its edges, and one packet
-- for each message before the quit line was handed to `sendto`, to the port of the next hop in that
-- table.
pub run_node-datagrams :
    (w : World) (base_port : ℕ) (node : Node) (table : RoutingTable) (rest behind : List ℕ)
    (ms : List Message)
    → All (IsSendable w.atoi 1 table) ms
    → node.address ≡ 1
    → SendsAll w.send
    → SendsDatagrams w.sendto
    → w.quit_ok ≡ true
    → w.memory ≡ (λ i. enough)
    → w.messages ≡ some (lines_of ms ++ (quit_line 1 ++ behind))
    → receive_routing_table w.calloc_ok w.recv w.from_server ≡ some (table, rest)
    → run_node w base_port node
      ≡ done (record {
        status = some success;
        to_server = edge_bytes node;
        to_nodes = datagrams w.atoi base_port table ms;
      })
unfolding run_with_table
run_node-datagrams w base_port node table rest behind ms hs first sends_all sends quit memory file
      received =
    let sent =
      prepare_and_send_packets-datagrams w.atoi w.sendto base_port table sends ms hs behind in
    run_node-table w base_port node (edge_bytes node) rest table
      (send_edge_information_lem w.send node sends_all) received
    ∙ rw (run_with_table, first, quit, memory, file, sent) refl

-- The node with the address 1 that sends its edges, receives a table and has a file of sendable
-- messages, of which the packet of one is not sent whole and those before it are: it stops behind that
-- packet, so that nothing of the rest of the file is sent, and ends with EXIT_SUCCESS all the same.
pub run_node_hides_failure :
    (w : World) (base_port : ℕ) (node : Node) (table : RoutingTable) (rest behind : List ℕ)
    (ms : List Message) (lost : Message)
    → All (IsSendable w.atoi 1 table) ms
    → IsSendable w.atoi 1 table lost
    → node.address ≡ 1
    → SendsAll w.send
    → All (λ m. IsSentWhole w.sendto (datagram_of w.atoi base_port table m)) ms
    → IsNotSentWhole w.sendto (datagram_of w.atoi base_port table lost)
    → w.quit_ok ≡ true
    → w.memory ≡ (λ i. enough)
    → w.messages ≡ some (lines_of ms ++ (line_of lost ++ behind))
    → receive_routing_table w.calloc_ok w.recv w.from_server ≡ some (table, rest)
    → run_node w base_port node
      ≡ done (record {
        status = some success;
        to_server = edge_bytes node;
        to_nodes = datagrams w.atoi base_port table (ms ++ lost ∷ []);
      })
unfolding run_with_table
run_node_hides_failure w base_port node table rest behind ms lost hs h first sends_all sends fails
      quit memory file received =
    let sent =
      prepare_and_send_packets_stuck w.atoi w.sendto base_port table ms hs lost h sends fails
        behind in
    run_node-table w base_port node (edge_bytes node) rest table
      (send_edge_information_lem w.send node sends_all) received
    ∙ rw (run_with_table, first, quit, memory, file, sent) refl
