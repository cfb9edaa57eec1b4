-- ===== src/Node/Sender/Sends.antt =====
-- A file of messages that ends with the quit line: all of them are sent, in their order.
use in_lib.Base.{
  ℕ, ◌+◌, ◌%◌, ◌≡◌, refl, ap, ◌∙◌, sym, true, none, some, List, [], ◌∷◌, ◌++◌, arith, length,
  length-append, take-length, All, Status, success, failure, suc,
}
use in_lib.Base.Int.{ℤ}
use in_lib.Base.Outcomes.{Outcome, done}
use in_lib.Base.Text.{complete_lines, decimal}
use in_lib.RoutingServer.Network.{RoutingTable}
use in_lib.Node.Packet.{
  Datagram, break_at, to_ushort, space, new_line, last_hop, extract_length_destination_and_message,
  create_packet, send_udp_packet, sent_all,
}
use in_lib.Node.Packet.RoundTrip.{extract_length_destination_and_message_reads}
use mathlib.Core.List.{append_assoc, append-nil, map-append}
use in_lib.Node.Sender.{
  ends, after_round, quit_line, send_round, send_lines, prepare_and_send_packets, after_sending,
}
use in_lib.Node.Sender.Lines.{
  Message, text_of, line_of, lines_of, packet_of, hop_for, IsSendable, SendsDatagrams, IsSentWhole,
  IsNotSentWhole, enough, c_string-no_nul, complete_lines-line, datagram_of, datagrams,
}

sent_all-whole :
    (sendto : Datagram → ℤ) (d : Datagram)
    → IsSentWhole sendto d
    → sent_all sendto d (length d.bytes) ≡ success
sent_all-whole sendto d whole = rw whole (ground arith)

module _ (atoi : List ℕ → ℤ) (sendto : Datagram → ℤ) (base_port : ℕ) (table : RoutingTable) where
  send_udp_packet_hop :
      (packet : List ℕ) (size destination hop : ℕ)
      → length packet ≡ size
      → last_hop destination table none ≡ some hop
      → let d : Datagram = record { port = (base_port + hop) % 65536; bytes = packet } in
        send_udp_packet sendto packet size destination base_port table
        ≡ (sent_all sendto d (length packet), some d)
  unfolding send_udp_packet
  send_udp_packet_hop packet size destination hop whole found =
      rw (send_udp_packet, found, ← whole, take-length packet) refl

  length-packet_of : (m : Message) → length (packet_of atoi m) ≡ 7 + length m.msg
  length-packet_of m = omega (arith, length-append m.msg (0 ∷ []))

  create_packet-message :
      (m : Message)
      → create_packet true (7 + length m.msg) (to_ushort (atoi m.number)) 1 m.msg
        ≡ done (packet_of atoi m)
  unfolding create_packet
  create_packet-message m = ground arith

  -- A round with a sendable message hands its datagram to `sendto`.
  send_round-message :
      (m : Message) (h : IsSendable atoi 1 table m)
      → let d = datagram_of atoi base_port table m in
        send_round atoi sendto enough 1 base_port table (line_of m)
        ≡ after_sending (sent_all sendto d (length d.bytes), some d)
  unfolding send_round hop_for
  send_round-message m h =
      let small : (7 + length m.msg) % 65536 ≡ 7 + length m.msg = omega (arith, h.short) in
      let read =
        extract_length_destination_and_message_reads atoi m.number m.msg [] h.no_space
          h.no_line_msg in
      rw (send_round, append_assoc m.number (space ∷ m.msg) (new_line ∷ []), read)
        (rw (h.no_quit, small, create_packet-message m)
          (rw (small, hop_for, h.has_hop)
            (ap after_sending (
              send_udp_packet_hop (packet_of atoi m) (7 + length m.msg) (to_ushort (atoi m.number))
                h.hop (length-packet_of m) h.has_hop))))

  send_round-quit_line : send_round atoi sendto enough 1 base_port table (quit_line 1) ≡ ends
  unfolding send_round decimal extract_length_destination_and_message break_at
  send_round-quit_line = refl

  abbrev all_lines : ℕ → List (List ℕ) → Outcome (Status × List Datagram)
  all_lines i lines = send_lines atoi sendto (λ j. enough) i 1 base_port table lines

  -- The loop on a file that begins with the line of a sendable message.
  send_lines-line :
      (m : Message) (h : IsSendable atoi 1 table m) (behind : List ℕ) (i : ℕ)
      → let d = datagram_of atoi base_port table m in
        all_lines i (complete_lines (line_of m ++ behind))
        ≡ after_round
            (after_sending (sent_all sendto d (length d.bytes), some d))
            (all_lines (suc i) (complete_lines behind))
  unfolding send_lines
  send_lines-line m h behind i =
      ap (all_lines i) (complete_lines-line (text_of m) behind h.no_line)
      ∙ ap
          (λ text.
            after_round (send_round atoi sendto enough 1 base_port table text)
              (all_lines (suc i) (complete_lines behind)))
          (c_string-no_nul (line_of m) h.no_nul)
      ∙ ap (λ r. after_round r (all_lines (suc i) (complete_lines behind))) (send_round-message m h)

  -- Messages whose datagrams are sent whole, and the lines behind them.
  send_lines-messages :
      (ms : List Message) (hs : All (IsSendable atoi 1 table) ms)
      (sends : All (λ m. IsSentWhole sendto (datagram_of atoi base_port table m)) ms)
      (behind : List ℕ) (status : Status) (later : List Datagram)
      → ((i : ℕ) → all_lines i (complete_lines behind) ≡ done (status, later))
      → (i : ℕ)
      → all_lines i (complete_lines (lines_of ms ++ behind))
        ≡ done (status, datagrams atoi base_port table ms ++ later)
  send_lines-messages [] hs sends behind status later ran i = ran i
  send_lines-messages (m ∷ ms) hs sends behind status later ran i =
      let rest = send_lines-messages ms hs.1 sends.1 behind status later ran (suc i) in
      ap (λ text. all_lines i (complete_lines text)) (append_assoc (line_of m) (lines_of ms) behind)
      ∙ send_lines-line m hs.0 (lines_of ms ++ behind) i
      ∙ rw (sent_all-whole sendto (datagram_of atoi base_port table m) sends.0) (rw rest refl)

  all_sent :
      (ms : List Message)
      → SendsDatagrams sendto
      → All (λ m. IsSentWhole sendto (datagram_of atoi base_port table m)) ms
  all_sent [] sends = tt
  all_sent (m ∷ ms) sends = (sends (datagram_of atoi base_port table m), all_sent ms sends)

  send_lines-quit_line :
      (rest : List ℕ) (i : ℕ)
      → all_lines i (complete_lines (quit_line 1 ++ rest)) ≡ done (success, [])
  unfolding send_lines complete_lines decimal
  send_lines-quit_line rest i =
      ap (λ r. after_round r (all_lines (suc i) (complete_lines rest))) send_round-quit_line

  send_lines-lost :
      (m : Message) (h : IsSendable atoi 1 table m)
      → IsNotSentWhole sendto (datagram_of atoi base_port table m)
      → (behind : List ℕ) (i : ℕ)
      → all_lines i (complete_lines (line_of m ++ behind))
        ≡ done (failure, datagram_of atoi base_port table m ∷ [])
  send_lines-lost m h fails behind i = send_lines-line m h behind i ∙ rw fails refl

  -- The file with these messages, the quit line of the node with the address 1 and anything behind it:
  -- the messages before the quit line are sent, one packet for each to the port of its next hop, in
  -- their order, nothing behind it is sent, and the sending succeeds.
  pub prepare_and_send_packets-datagrams :
      SendsDatagrams sendto
      → (ms : List Message) (hs : All (IsSendable atoi 1 table) ms) (rest : List ℕ)
      → prepare_and_send_packets atoi sendto true
          (λ i. enough)
          (some (lines_of ms ++ (quit_line 1 ++ rest)))
          1
          base_port
          table
        ≡ done (success, datagrams atoi base_port table ms)
  unfolding prepare_and_send_packets
  prepare_and_send_packets-datagrams sends ms hs rest =
      send_lines-messages ms hs (all_sent ms sends) (quit_line 1 ++ rest) success []
        (send_lines-quit_line rest) 0
      ∙ ap (λ ds. done (success, ds)) (append-nil (datagrams atoi base_port table ms))

  -- Messages that are sent whole, and one that is not: the sending fails behind that one.
  pub prepare_and_send_packets_stuck :
      (ms : List Message) (hs : All (IsSendable atoi 1 table) ms) (lost : Message)
      → IsSendable atoi 1 table lost
      → All (λ m. IsSentWhole sendto (datagram_of atoi base_port table m)) ms
      → IsNotSentWhole sendto (datagram_of atoi base_port table lost)
      → (behind : List ℕ)
      → prepare_and_send_packets atoi sendto true
          (λ i. enough)
          (some (lines_of ms ++ (line_of lost ++ behind)))
          1
          base_port
          table
        ≡ done (failure, datagrams atoi base_port table (ms ++ lost ∷ []))
  unfolding prepare_and_send_packets
  prepare_and_send_packets_stuck ms hs lost h sends fails behind =
      send_lines-messages ms hs sends (line_of lost ++ behind) failure
        (datagram_of atoi base_port table lost ∷ []) (send_lines-lost lost h fails behind) 0
      ∙ ap (λ ds. done (failure, ds))
          (sym (map-append (datagram_of atoi base_port table) ms (lost ∷ [])))
