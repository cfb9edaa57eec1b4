-- ===== src/Node/Tests.antt =====
-- The node with the address 1 and one neighbor, which sends one message.
use in_lib.Base.{ℕ, ◌≡◌, refl, true, some, List, [], ◌∷◌, ◌++◌, arith, length, take, drop, success}
use in_lib.Base.Int.{ℤ, pos, negsuc}
use in_lib.Base.Text.{codes, atoi, decimal, strtok_r}
use in_lib.Base.Outcomes.{done, failed, undefined}
use in_lib.Sockets.{Received}
use in_lib.RoutingServer.Network.{Node, RoutingTable}
use in_lib.Node.Packet.{Datagram, last_hop}
use in_lib.Node.Messages.{receive_routing_table}
use in_lib.Node.Sender.Lines.{Message, IsSendable, enough, packet_of, hop_for}
use in_lib.Node.Parser.{
  parse_neighbor, parse_nodes, NeighborText, IsNeighborText, parse_nodes-argument_of,
}
use in_lib.Node.Program.{World, run_node, run_node-datagrams, run_node_hides_failure}
use in_lib.Exchange.Registration.{edge_bytes}

abbrev to_seven : NeighborText
to_seven = record { number = codes "7"; weight = codes "12" }

to_seven-IsNeighborText : IsNeighborText to_seven
to_seven-IsNeighborText = record {
  some_digit = omega arith;
  no_colon = refl;
  some_weight = omega arith;
  no_space = refl;
}

parse_nodes-argument_of_example :
    parse_nodes (λ i call. true) 0 (codes "7:12" ∷ []) ≡ done ((pos 7, pos 12) ∷ [])
unfolding atoi
parse_nodes-argument_of_example =
    parse_nodes-argument_of (λ i call. true) 0 (to_seven ∷ []) (λ i call. refl)
      (to_seven-IsNeighborText, tt)

-- A text without the weight leads to the length of a token that is NULL; one that begins with the
-- delimiter is refused.
parse_neighbor_runs :
    (parse_neighbor (λ call. true) (codes "7") ≡ undefined)
    × (parse_neighbor (λ call. true) (codes ":7:1") ≡ failed)
unfolding parse_neighbor strtok_r
parse_neighbor_runs = (refl, refl)

abbrev node : Node
node = record { address = 1; neighbors = record { address = 7; weight = 12 } ∷ [] }

abbrev table : RoutingTable
table = record { destination = 9; next_hop = 7 } ∷ []

abbrev recv : ℕ → List ℕ → Received
recv n connection = record {
  count = pos (length (take n connection));
  bytes = take n connection;
  rest = drop n connection;
}

abbrev hello : Message
hello = record { number = codes "9"; msg = codes "Hi there" }

abbrev world : (Datagram → ℤ) → World
world sendto = record {
  send = λ bytes. pos (length bytes);
  recv = recv;
  sendto = sendto;
  atoi = atoi;
  calloc_ok = λ n. true;
  quit_ok = true;
  memory = λ i. enough;
  from_server = 1 ∷ 0 ∷ 0 ∷ 0 ∷ 9 ∷ 0 ∷ 0 ∷ 0 ∷ 7 ∷ 0 ∷ 0 ∷ 0 ∷ [];
  messages = some (codes "9 Hi there\n1 QUIT\n9 too late\n");
  packets = [];
}

hello-IsSendable : IsSendable atoi 1 table hello
unfolding atoi last_hop decimal
hello-IsSendable = record {
  hop = 7;
  has_hop = refl;
  no_space = refl;
  no_line = refl;
  no_line_msg = refl;
  no_nul = refl;
  short = omega arith;
  no_quit = refl;
}

table_received :
    receive_routing_table (λ n. true) recv (world (λ d. pos 0)).from_server ≡ some (table, [])
unfolding receive_routing_table
table_received = refl

run_node-datagrams_example :
    run_node (world (λ d. pos (length d.bytes))) 5000 node
    ≡ done (record {
      status = some success;
      to_server = edge_bytes node;
      to_nodes =
          record { port = 5007; bytes = 0 ∷ 15 ∷ 0 ∷ 9 ∷ 0 ∷ 1 ∷ codes "Hi there" ++ 0 ∷ [] } ∷ [];
    })
unfolding decimal atoi hop_for
run_node-datagrams_example =
    run_node-datagrams (world (λ d. pos (length d.bytes))) 5000 node table [] (codes "9 too late\n")
      (hello ∷ []) (hello-IsSendable, tt) refl (λ bytes. refl) (λ d. refl) refl refl refl
      table_received

-- No datagram can be sent: the node gives up behind the first of the two messages.
run_node_hides_failure_example :
    run_node (world (λ d. negsuc 0)) 5000 node
    ≡ done (record {
      status = some success;
      to_server = edge_bytes node;
      to_nodes = record { port = 5007; bytes = packet_of atoi hello } ∷ [];
    })
unfolding hop_for atoi
run_node_hides_failure_example =
    run_node_hides_failure (world (λ d. negsuc 0)) 5000 node table [] (codes "1 QUIT\n9 too late\n")
      [] hello tt hello-IsSendable refl (λ bytes. refl) tt refl refl refl refl table_received
