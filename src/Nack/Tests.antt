-- ===== src/Nack/Tests.antt =====
-- Requests for lost packets, and the theorems on their builder, their reader, the cache and the
-- answer applied to them.
use symphony_media_bridge.Common.{
  ℕ, ◌≤◌, ◌≡◌, ◌⊎◌, refl, true, false, ◌&&◌, ◌||◌, not, none, some, [], ◌∷◌, if◌then◌else◌, leb,
  ◌==◌, length, arith,
}
use symphony_media_bridge.Common.Maps
use symphony_media_bridge.Common.Maps.{find_entry}
use symphony_media_bridge.Nack.Builder.{
  Builder, append_sequence_number, build, get_num_feedback_control_infos, get_feedback_control_info,
  max_pids,
}
use symphony_media_bridge.Nack.Builder.Requests.{any_asks, any_asks-append_sequence_number}
use symphony_media_bridge.Nack.Builder.Wire.{build_read_back}
use symphony_media_bridge.Nack.Cache.{PacketCache, add, get, back, max_packets}
use symphony_media_bridge.Nack.Cache.Eviction
use symphony_media_bridge.Nack.Cache.Eviction.{add-IsConsistent, get-add}
use symphony_media_bridge.Nack.Response.{RtpPacket, RtxContext, Nack}

abbrev two_entries : Builder
two_entries = record {
  header_length = 2;
  reporter_ssrc = 1;
  media_ssrc = 2;
  entries = record { pid = 100; blp = 5 } ∷ record { pid = 300; blp = 0 } ∷ [];
}

any_asks-append_sequence_number_example :
    let (b', taken) = append_sequence_number two_entries 102 in
    ((taken ≡ true) × (any_asks b'.entries 103 ≡ (103 == 102 || any_asks two_entries.entries 103)))
    ⊎ ((taken ≡ false) × (b' ≡ two_entries) × (max_pids ≤ length two_entries.entries))
any_asks-append_sequence_number_example = any_asks-append_sequence_number two_entries 102 103

build_read_back_example :
    let (p, b') = build two_entries in
    (get_num_feedback_control_infos p ≡ 2)
    × (get_feedback_control_info p 1 (get_num_feedback_control_infos p)
        ≡ some (record { pid = 300; blp = 0 }))
build_read_back_example =
    build_read_back two_entries 1 (record { pid = 300; blp = 0 }) refl (omega arith) refl
      (omega arith) (omega arith)

abbrev packet : ℕ → RtpPacket
packet n = record { ssrc = 10; payload_type = 96; sequence_number = n; payload = n ∷ [] }

abbrev two_packets : PacketCache RtpPacket
two_packets = record {
  cache = record { capacity = 1024; entries = (101, packet 101) ∷ (100, packet 100) ∷ [] };
  arrival_queue = 101 ∷ 100 ∷ [];
}

two_packets-IsConsistent : Eviction.IsConsistent two_packets
unfolding find_entry
two_packets-IsConsistent = record {
  distinct = refl;
  queued = λ k. ground arith;
  size = omega arith;
  bound = omega arith;
  room = refl;
}

add-IsConsistent_example :
    Eviction.IsConsistent (let (c', added) = add two_packets (packet 103) 103 true in c')
add-IsConsistent_example =
    add-IsConsistent two_packets (packet 103) 103 true two_packets-IsConsistent

get-add_example :
    let (c', added) = add two_packets (packet 103) 103 true in
    (added ≡ (not (Maps.contains two_packets.cache 103) && true))
    × (get c' 100 ≡ (
        if added && 103 == 100
        then some (packet 103)
        else if not (Maps.contains two_packets.cache 103)
            && leb max_packets (length two_packets.arrival_queue)
            && back two_packets.arrival_queue == 100
        then none
        else get two_packets 100))
get-add_example = get-add two_packets (packet 103) 103 true 100 two_packets-IsConsistent

abbrev rtx : RtxContext
rtx = record {
  ssrc = 11;
  payload_type = 97;
  sequence_counter = 7;
  last_key_frame_sequence_number = 90;
  last_responded_nack_pid = 0;
  last_responded_nack_blp = 0;
  last_responded_nack_timestamp = 0;
}

abbrev request : Nack
request = record { pid = 100; blp = 3; timestamp = 5000; rtt = 10 }

-- The same request within its round trip.
abbrev later_request : Nack
later_request = record { pid = 100; blp = 3; timestamp = 5009; rtt = 10 }
