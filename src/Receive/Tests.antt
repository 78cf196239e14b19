-- ===== src/Receive/Tests.antt =====
-- A stream of video with losses, and the theorems on the receiving and sending jobs of bridge/engine
-- applied to it.
use symphony_media_bridge.Common.{
  ℕ, ◌+◌, ◌<◌, ◌≡◌, ◌≢◌, refl, true, false, not, ◌&&◌, ◌||◌, none, some, List, [], ◌∷◌, ltb, ◌==◌,
  u16_mod, u32_mod, sub16, arith,
}
use symphony_media_bridge.Common.Maps
use symphony_media_bridge.Common.Maps.{Map, find_entry}
use symphony_media_bridge.Missing.{Entry}
use symphony_media_bridge.Nack.Response.{RtpPacket, RtxContext, retransmission}
use symphony_media_bridge.Rewrite.State.{RtpMap, vp8, new_context}
use symphony_media_bridge.Codec.Vp8
use symphony_media_bridge.Receive.{
  Inbound, Srtp, new_inbound, new_pli_scheduler, try_unprotect_rtp_packet,
  should_set_rollover_counter,
}
use symphony_media_bridge.Receive.Video.{Arrival, is_key_frame, receive_video}
use symphony_media_bridge.Receive.Video.Gaps.{receive_video_gap}
use symphony_media_bridge.Receive.Retransmitted.{
  receive_retransmitted, receive_retransmitted-retransmission,
}
use symphony_media_bridge.Receive.Counters.{
  RtpArrival, new_rtp_receive_state, stop, on_rtp_received, count_packet, count_sequence_number,
  get_cumulative_counters,
}
use symphony_media_bridge.Receive.Counters.Losses.{receive_all, receive_all_reports}
use symphony_media_bridge.Receive.Send.{VideoPacket, Outbound, Outgoing, rewrite_and_send, send_all}
use symphony_media_bridge.Receive.Send.KeyFrames.{IsWaiting, switch_waits_for_key_frame}

abbrev format : RtpMap
format = record {
  format = vp8;
  payload_type = 100;
  audio_level_ext_id = none;
  abs_send_time_ext_id = some 3;
}

abbrev missing : ℕ → Entry
missing n = record {
  timestamp = 1000;
  last_sent_nack_timestamp = 1000;
  nacks_sent = 1;
  extended_sequence_number = n;
}

-- Packet 65543 is missing, and 65546 was the last one.
abbrev tracker : Map Entry
tracker = record { capacity = 128; entries = (7, missing 65543) ∷ [] }

abbrev inbound : Inbound
inbound = record (new_inbound 5 format) {
  last_received_extended_sequence_number = 65546;
  has_decrypted_packets = true;
  last_unprotected_extended_sequence_number = 65546;
  tracker = some tracker;
}

abbrev opened : Srtp
opened = record { first_opened = true; roc_offset = 0; counter_set = true; opened = true }

abbrev arrival : Arrival
arrival = record {
  sequence_number = 14;
  extended = 65550;
  payload = 0x10 ∷ 1 ∷ [];
  timestamp = 2000;
  rtt = 1000000;
  connected = true;
}

receive_video_gap_example :
    let (d, pli, forwarded) = receive_video inbound opened arrival in
    (forwarded ≡ some 65550)
    × (d.last_received_extended_sequence_number ≡ 65550)
    × (m' : Map Entry) × (d.tracker ≡ some m')
    × ((j : ℕ)
        → j < u16_mod
        → Maps.contains m' j ≡ (
            (not (is_key_frame vp8 arrival.payload) && Maps.contains tracker j)
            || (not (10 == j) && ltb (sub16 j 10) 4)))
unfolding try_unprotect_rtp_packet should_set_rollover_counter
receive_video_gap_example =
    receive_video_gap inbound opened arrival refl refl refl (omega arith) (omega arith)
      (omega arith)

abbrev packet : RtpPacket
packet = record { ssrc = 5; payload_type = 100; sequence_number = 7; payload = 0x10 ∷ 9 ∷ [] }

abbrev answering : RtxContext
answering = record {
  ssrc = 6;
  payload_type = 101;
  sequence_counter = 40;
  last_key_frame_sequence_number = 0;
  last_responded_nack_pid = 0;
  last_responded_nack_blp = 0;
  last_responded_nack_timestamp = 0;
}

receive_retransmitted-retransmission_example :
    let first =
      receive_retransmitted
        (new_inbound 6 format)
        inbound
        5
        41
        false
        opened
        (retransmission answering packet) in
    (first.forwarded ≡ some (packet, 65543))
    × (first.main ≡ record inbound { tracker = some (Maps.erase tracker 7) })
    × ((extended' : ℕ) (srtp' : Srtp)
        → (receive_retransmitted first.rtx first.main 5 extended' false srtp'
            (retransmission answering packet)).forwarded
          ≡ none)
unfolding find_entry try_unprotect_rtp_packet
receive_retransmitted-retransmission_example =
    receive_retransmitted-retransmission (new_inbound 6 format) inbound 41 opened answering packet
      (omega arith) refl refl refl refl

abbrev outgoing : ℕ → List ℕ → Outgoing
outgoing ssrc payload = record {
  packet = record {
    header = record {
      payload_type = 100;
      marker = 0;
      sequence_number = 14;
      timestamp = 3000;
      ssrc = ssrc;
      extensions = none;
    };
    payload = payload;
  };
  extended = 65550;
  sender = format;
  now = 2000;
  connected = true;
  allocated = true;
}

-- The stream has carried source 5.
abbrev outbound : Outbound
outbound = record {
  context = record (new_context 50 format format) { original_ssrc = 5 };
  needs_keyframe = false;
  packet_cache = none;
}

abbrev delta : Outgoing
delta = outgoing 8 (0x10 ∷ 1 ∷ [])

switch_waits_for_key_frame_example :
    let (o', s', sent) = send_all outbound new_pli_scheduler (delta ∷ delta ∷ []) in
    (sent ≡ [])
    × IsWaiting outbound.context o' s'
    × ((q : Outgoing)
        → is_key_frame vp8 q.packet.payload ≡ true
        → q.connected ≡ true
        → q.packet.header.ssrc < u32_mod
        → q.packet.header.ssrc ≢ 5
        → (v : VideoPacket) × ((rewrite_and_send o' s' q).packet ≡ some v))
unfolding Vp8.is_key_frame Vp8.get_payload_descriptor_size Vp8.is_start_of_partition
    Vp8.get_partition_id Vp8.get_x
switch_waits_for_key_frame_example =
    switch_waits_for_key_frame outbound new_pli_scheduler delta (delta ∷ []) refl
      (λ e. omega (arith, e)) (refl, (refl, tt))

abbrev rtp_arrival : ℕ → RtpArrival
rtp_arrival n = record {
  sequence_number = n;
  payload_type = 100;
  header_length = 12;
  length = 1000;
}

-- The numbers wrap around, two of them are lost and one comes late.
receive_all_reports_example :
    let s = receive_all (new_rtp_receive_state 5) (
      (rtp_arrival 65534, 10)
      ∷ (rtp_arrival 1, 20)
      ∷ (rtp_arrival 3, 30)
      ∷ (rtp_arrival 0, 40)
      ∷ []) in
    let r = get_cumulative_counters (stop s) in
    (s.receive_counters.packets ≡ 4) × (65534 + r.packets ≡ 65539) × (r.lost_packets ≡ 2)
unfolding get_cumulative_counters stop on_rtp_received count_packet count_sequence_number
receive_all_reports_example =
    receive_all_reports 5 10 (rtp_arrival 65534)
      ((65537, rtp_arrival 1, 20) ∷ (65539, rtp_arrival 3, 30) ∷ (65536, rtp_arrival 0, 40) ∷ [])
      (omega arith)
      (
        refl,
        omega arith,
        omega arith,
        omega arith,
        omega arith,
        refl,
        (
          refl,
          omega arith,
          omega arith,
          omega arith,
          omega arith,
          refl,
          (refl, omega arith, omega arith, omega arith, omega arith, refl, tt),
        ),
      )
      (omega arith)
