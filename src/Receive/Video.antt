-- ===== src/Receive/Video.antt =====
-- bridge/engine/VideoForwarderReceiveJob.cpp and ProcessMissingVideoPacketsJob.cpp.
pub mod Gaps
use symphony_media_bridge.Common.{
  ℕ, zero, suc, ◌+◌, ◌-◌, ◌*◌, ◌/◌, ◌%◌, ◌^◌, Bool, true, false, not, ◌&&◌, ◌||◌, Option, none,
  some, List, [], ◌∷◌, if◌then◌else◌, ltb, leb, ◌==◌, length, u32_mod, add32, sub32, sle32,
}
use symphony_media_bridge.Common.Maps.{Map}
use symphony_media_bridge.Missing.{
  Entry, ms, max_missing_packets, new_tracker, reset, on_missing_packet, on_packet_arrived,
}
use symphony_media_bridge.Missing
use symphony_media_bridge.Nack.Builder.{Builder, new_builder, append_sequence_number, build}
use symphony_media_bridge.Rewrite.State.{Format, h264}
use symphony_media_bridge.Codec.Vp8
use symphony_media_bridge.Codec.H264
use symphony_media_bridge.Receive.{
  Inbound, Srtp, on_pli_sent, on_key_frame_received, should_send_pli, try_unprotect_rtp_packet,
}

abbrev pub is_h264 : Format → Bool
is_h264 h264 = true
is_h264 _ = false

abbrev pub is_key_frame : Format → List ℕ → Bool
is_key_frame format payload =
    if is_h264 format
    then H264.is_key_frame payload
    else Vp8.is_key_frame payload (Vp8.get_payload_descriptor_size payload (length payload))

-- The sequence number of the header is that of 16 bits. `rtt` is in nanoseconds.
pub record Arrival : Type 0 where
  pub sequence_number : ℕ
  pub extended : ℕ
  pub payload : List ℕ
  pub timestamp : ℕ
  pub rtt : ℕ
  pub connected : Bool

-- The context, and whether a request for a key frame is sent: the branch on the tracker.
unfoldable pub look_for_key_frame : Inbound → Arrival → Inbound × Bool
look_for_key_frame c p =
    let key = is_key_frame c.rtp_map.format p.payload in
    elim c.tracker [
      | none ↦
          let d : Inbound = record c {
            last_received_extended_sequence_number = sub32 p.extended 1;
            tracker = some new_tracker;
          } in
          (if key
            then (record d { pli_scheduler = on_key_frame_received d.pli_scheduler }, false)
            else (record d { pli_scheduler = on_pli_sent d.pli_scheduler p.timestamp }, true))
      | some tracker ↦
          if key
          then (
            record c {
              pli_scheduler = on_key_frame_received c.pli_scheduler;
              tracker = some (reset tracker);
            },
            false,
          )
          else if should_send_pli c.pli_scheduler p.timestamp (p.rtt / ms % u32_mod) && p.connected
          then (record c { pli_scheduler = on_pli_sent c.pli_scheduler p.timestamp }, true)
          else (c, false)
    ]

-- The loop over the missing numbers, so many of them from `next` on. It ends early where the tracker
-- is full.
unfoldable pub note_missing : ℕ → Map Entry → ℕ → ℕ → Map Entry
note_missing zero m next timestamp = m
note_missing (suc n) m next timestamp =
    let (m', noted) = on_missing_packet m next timestamp in
    let rest = note_missing n m' (add32 next 1) timestamp in if noted then rest else m'

unfoldable pub track : Inbound → Map Entry → Arrival → Inbound
track c m p =
    let advance = sub32 p.extended c.last_received_extended_sequence_number in
    if advance == 1
    then record c {
      tracker = some (on_packet_arrived m p.sequence_number).0;
      last_received_extended_sequence_number = p.extended;
    }
    else if sle32 advance 0
    then record c { tracker = some (on_packet_arrived m p.sequence_number).0 }
    else record c {
      tracker = some (
          if leb max_missing_packets advance
          then reset m
          else note_missing (advance - 1) m (add32 c.last_received_extended_sequence_number 1)
              p.timestamp);
      last_received_extended_sequence_number = p.extended;
    }

-- The context, whether a request for a key frame is sent, and the extended number under which the
-- packet is handed on.
unfoldable pub receive_video : Inbound → Srtp → Arrival → Inbound × Bool × Option ℕ
receive_video c srtp p =
    let (d, opened, counter) = try_unprotect_rtp_packet c p.extended srtp in
    if not opened
    then (d, false, none)
    else let (e, pli) = look_for_key_frame d p in
      (elim e.tracker [ none ↦ (e, pli, none) | some m ↦ (track e m p, pli, some p.extended) ])

-- The loop that fills the request.
unfoldable pub append_all : Builder → List ℕ → Builder
append_all b [] = b
append_all b (n ∷ ns) =
    let (b', appended) = append_sequence_number b n in
    let rest = append_all b' ns in if appended then rest else b'

-- The bytes of the request that is sent, where there is one and the allocator has a packet for it.
unfoldable pub process_missing_video_packets :
    Inbound → ℕ → ℕ → ℕ → Bool → Inbound × Option (List ℕ)
process_missing_video_packets c reporter_ssrc timestamp rtt allocated = elim c.tracker [
  | none ↦ (c, none)
  | some m ↦
      let (m', numbers) = Missing.process m timestamp rtt in
      let d : Inbound = record c { tracker = some m' } in
      if length numbers == 0
      then (d, none)
      else let (bytes, b) = build (append_all (new_builder reporter_ssrc c.ssrc) numbers) in
        if length bytes == 0 || not allocated then (d, none) else (d, some bytes)
]
