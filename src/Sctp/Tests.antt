-- ===== src/Sctp/Tests.antt =====
-- Small associations, and the theorems on transport/sctp applied to them.
use symphony_media_bridge.Common.{
  ℕ, ◌+◌, ◌^◌, ◌≤◌, ◌<◌, ◌≡◌, refl, Bool, true, false, none, some, List, [], ◌∷◌, ltb, length,
  sub32, arith,
}
use symphony_media_bridge.Common.Maps.{find_entry, update_entry}
use symphony_media_bridge.Sctp.{DataChunk, closed, established}
use symphony_media_bridge.Sctp.Inbound.{Inbound, fragment_received}
use symphony_media_bridge.Sctp.Inbound.Sent.{AreAllSent, receive_packets}
use symphony_media_bridge.Sctp.Inbound.Delivery.{receive_packets_in_order}
use symphony_media_bridge.Sctp.Outbound.{
  Outbound, SentDataChunk, Heading, data_chunk, packet_count, payload_size, write_chunks,
  queue_message,
}
use symphony_media_bridge.Sctp.Outbound.Messages.{Message}
use symphony_media_bridge.Sctp.Outbound.EndToEnd.{messages_arrive}
use symphony_media_bridge.Sctp.Outbound.Full.{queue_message_full}
use symphony_media_bridge.Sctp.Sack.{SelectiveAck, prepare_sack, is_acknowledged}
use symphony_media_bridge.Sctp.Acked.{Sender, on_sack, get_flight_size}
use symphony_media_bridge.Sctp.Acked.Remaining.{chunks_of, on_sack_lem}
use symphony_media_bridge.Sctp.Acked.Flight.{get_flight_size_just_sent}
use symphony_media_bridge.Sctp.Sack.Gaps.{prepare_sack_lem}
use symphony_media_bridge.Sctp.Flow.{CongestionControl, reset, grow, on_sack_received}
use symphony_media_bridge.Sctp.Flow.Window.{
  Occasion, idle, sack, loss, timeout, recovery, probed, happen, window_of_a_packet,
  wrapped_count_grows_again,
}
use symphony_media_bridge.Sctp.Handshake.{Association, Cookie, new_association, connect}
use symphony_media_bridge.Sctp.Handshake.Setup.{Course, handshake, handshake_establishes}
use symphony_media_bridge.Sctp.Handshake.Timeouts.{expire, connect_gives_up}

-- Two messages in packets that carry two bytes of a message, around the wrap-around of the numbers.
abbrev three_bytes : Message
three_bytes = record { stream_id = 0; payload_protocol = 51; payload = 1 ∷ 2 ∷ 3 ∷ [] }

abbrev one_byte : Message
one_byte = record { stream_id = 2; payload_protocol = 53; payload = 4 ∷ [] }

abbrev sender : Outbound
sender = record {
  state = established;
  tsn = 4294967295;
  mtu = 30;
  streams = (0, 65535) ∷ (2, 7) ∷ [];
  chunks = [];
}

abbrev receiver : Inbound
receiver = record {
  cumulative_ack = 4294967294;
  advertised_receive_window = 65536;
  peer_tsn = 0;
  chunks = [];
  streams = [];
}

abbrev first_stream : Heading
first_stream = record { stream_id = 0; stream_sequence_number = 65535; payload_protocol = 51 }

abbrev first : DataChunk
first = data_chunk first_stream 4294967295 true false (1 ∷ 2 ∷ [])

abbrev second : DataChunk
second = data_chunk first_stream 0 false true (3 ∷ [])

abbrev third : DataChunk
third =
    data_chunk (record { stream_id = 2; stream_sequence_number = 7; payload_protocol = 53 }) 1 true
      true (4 ∷ [])

-- Out of order, and two of the chunks twice.
abbrev packets : List (List (DataChunk × Bool))
packets =
    ((third, true) ∷ [])
    ∷ ((second, true) ∷ (third, true) ∷ [])
    ∷ ((first, true) ∷ [])
    ∷ ((first, true) ∷ [])
    ∷ []

abbrev with_room : ℕ → Bool
with_room j = true

packets-AreAllSent : AreAllSent (first ∷ second ∷ third ∷ []) packets
packets-AreAllSent = (
  ((2, refl, omega arith, refl), tt),
  (
    ((1, refl, omega arith, refl), ((2, refl, omega arith, refl), tt)),
    (((0, refl, omega arith, refl), tt), (((0, refl, omega arith, refl), tt), tt)),
  ),
)

messages_arrive_example :
    (receive_packets receiver packets).1
    ≡ fragment_received 0 65535 51 (1 ∷ 2 ∷ 3 ∷ []) ∷ fragment_received 2 7 53 (4 ∷ []) ∷ []
unfolding queue_message write_chunks packet_count payload_size find_entry update_entry
messages_arrive_example =
    messages_arrive 1000 with_room sender (three_bytes ∷ one_byte ∷ []) receiver packets
      (λ (j : ℕ). refl) refl (omega arith) (omega arith) refl
      (omega arith, omega arith, (65535, refl), (omega arith, omega arith, (7, refl), tt)) refl refl
      (omega arith) (omega arith) packets-AreAllSent refl

-- The second chunk never arrives.
abbrev gap_packets : List (List (DataChunk × Bool))
gap_packets = ((third, true) ∷ []) ∷ ((first, true) ∷ (first, true) ∷ []) ∷ []

receive_packets_in_order_example : (receive_packets receiver gap_packets).1 ≡ []
receive_packets_in_order_example =
    receive_packets_in_order 4294967295 ((first ∷ second ∷ []) ∷ (third ∷ []) ∷ []) receiver
      gap_packets (refl, (refl, (refl, tt))) ((refl, refl, (refl, refl)), ((refl, refl), tt))
      (omega arith) refl refl (omega arith)
      (
        ((2, refl, omega arith, refl), tt),
        (((0, refl, omega arith, refl), ((0, refl, omega arith, refl), tt)), tt),
      )

queue_message_full_example :
    queue_message sender 0 51 (1 ∷ 2 ∷ 3 ∷ []) 1000 (λ (j : ℕ). ltb j 1)
    ≡ (record sender { tsn = 0 }, false, false)
unfolding packet_count find_entry
queue_message_full_example =
    queue_message_full sender three_bytes 1000 1 65535 (λ (j : ℕ). ltb j 1) refl (omega arith)
      (omega arith) (omega arith) refl (omega arith) (λ (l : ℕ) (lt : l < 1). ground (arith, lt))
      refl

-- Chunks with the numbers from 10 on, of which some have arrived.
abbrev numbered : ℕ → DataChunk
numbered tsn = data_chunk first_stream tsn true true (0 ∷ [])

abbrev seen : List ℕ
seen = 10 ∷ 12 ∷ 13 ∷ 15 ∷ []

abbrev gaps : Inbound
gaps = record {
  cumulative_ack = 9;
  advertised_receive_window = 65536;
  peer_tsn = 16;
  chunks = numbered 10 ∷ numbered 12 ∷ numbered 13 ∷ numbered 15 ∷ [];
  streams = [];
}

prepare_sack_lem_example :
    let (t, ack) = prepare_sack gaps 1024 in
    (t.cumulative_ack ≡ 10) × (ack.cumulative_tsn_ack ≡ 10) × (is_acknowledged ack 13 ≡ true)
prepare_sack_lem_example =
    prepare_sack_lem 10 0 0 3 1024 seen
      (numbered 10 ∷ numbered 11 ∷ numbered 12 ∷ numbered 13 ∷ numbered 14 ∷ numbered 15 ∷ []) gaps
      (refl, (refl, (refl, (refl, (refl, (refl, tt)))))) refl refl (omega arith) (omega arith)
      (omega arith) (omega arith) (omega arith) (omega arith) (omega arith)

abbrev window : CongestionControl
window = record {
  congestion_window = 40000;
  slow_start_threshold = 32768;
  in_fast_recovery = false;
  partial_bytes_acked = 39000;
}

abbrev occasions : List Occasion
occasions =
    sack 6000 2000 false
    ∷ loss
    ∷ recovery true
    ∷ idle
    ∷ recovery false
    ∷ timeout
    ∷ probed 1280
    ∷ sack 1024 1024 true
    ∷ []

window_of_a_packet_example :
    let (mtu, d) = happen (1024, reset window 1024 32768) occasions in
    (1024 ≤ mtu) × (1024 ≤ d.congestion_window) × (d.congestion_window ≤ 2 ^ 19 + 2 ^ 15)
window_of_a_packet_example =
    window_of_a_packet 1024 32768 window occasions (omega arith)
      (omega arith, (tt, (tt, (tt, (tt, (tt, (omega arith, (omega arith, tt))))))))

wrapped_count_grows_again_example :
    let d = on_sack_received window 1024 41000 1100 false in
    let e = on_sack_received d 1024 42000 100 false in
    (d.congestion_window ≡ 41024)
    × (d.partial_bytes_acked ≡ 18446744073709550692)
    × (e.congestion_window ≡ d.congestion_window + 1024)
unfolding on_sack_received grow
wrapped_count_grows_again_example =
    wrapped_count_grows_again window 1024 41000 1100 42000 100 refl (omega arith) (omega arith)
      (omega arith) (omega arith) (omega arith) (omega arith)

-- A code that stands for the signature.
abbrev code : ℕ → Cookie → ℕ → ℕ
code key cookie source_port = key + cookie.timestamp + cookie.peer_tsn + source_port

abbrev course : Course
course = record {
  drawn = 0;
  peer_drawn = 4294967295;
  source_port = 5000;
  connected = 1000;
  answered = 2000;
  echoed = 3000;
  verified = 4000;
}

handshake_establishes_example :
    (a : Association) × (b : Association) × (handshake code 77 78 77 course 1024 512
        (some (512, 1024))
      ≡ some (a, b))
    × (a.state ≡ established)
    × (b.state ≡ established)
    × (a.peer.tag ≡ b.local.tag)
    × (b.peer.tag ≡ a.local.tag)
    × (a.local.cumulative_ack ≡ sub32 b.local.tsn 1)
    × (b.local.cumulative_ack ≡ sub32 a.local.tsn 1)
    × (a.peer.advertised_receive_window ≡ b.local.advertised_receive_window)
    × (b.peer.advertised_receive_window ≡ a.local.advertised_receive_window)
handshake_establishes_example =
    handshake_establishes code 77 78 77 course 1024 512 512 1024 refl refl (omega arith)
      (omega arith) (omega arith)

connect_gives_up_example :
    let (a, packet) = connect (new_association 5) 1024 1024 1000 in
    let (b, packets) = expire 9 a in
    (b.state ≡ closed) × (b.init_timer ≡ none) × (b.cookie_timer ≡ none) × (length packets ≡ 8)
connect_gives_up_example = connect_gives_up 5 1024 1024 1000

-- The three chunks above in flight, and an acknowledgement of the first and the third.
abbrev in_flight : DataChunk → SentDataChunk
in_flight c = record { chunk = c; transmit_time = 1000; transmit_count = 1; nack_count = 0 }

abbrev waiting : Sender
waiting = record {
  mtu = 1024;
  peer_cumulative_ack = 4294967294;
  peer_receive_window = 65536;
  flow = window;
  fast_recovery_exit_point = 0;
  chunks = in_flight first ∷ in_flight second ∷ in_flight third ∷ [];
}

abbrev acknowledgement : SelectiveAck
acknowledgement = record {
  cumulative_tsn_ack = 4294967295;
  advertised_receiver_window = 65000;
  gap_ack_blocks = (2, 2) ∷ [];
}

on_sack_lem_example :
    let t = on_sack waiting acknowledgement [] 2000 500000000 1024 in
    (chunks_of t.chunks ≡ second ∷ [])
    × (t.peer_cumulative_ack ≡ 4294967295)
    × (t.peer_receive_window ≡ 64997)
on_sack_lem_example =
    on_sack_lem 4294967295 0 2000 500000000 1024 waiting acknowledgement refl (omega arith)
      (
        0,
        omega arith,
        omega arith,
        refl,
        (1, omega arith, omega arith, refl, (2, omega arith, omega arith, refl, tt)),
      )
      (omega arith, omega arith, omega arith, tt) (omega arith) refl

get_flight_size_just_sent_example :
    get_flight_size 1000 4000000000 (in_flight first ∷ in_flight second ∷ []) ≡ 0
get_flight_size_just_sent_example =
    get_flight_size_just_sent 1000 4000000000 (in_flight first) (in_flight second ∷ []) refl
      (omega arith)
