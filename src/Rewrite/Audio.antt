-- ===== src/Rewrite/Audio.antt =====
-- `rewriteAudio` and `dropTelephoneEvent` of bridge/engine/SsrcOutboundContext.cpp. A call returns
-- the context, the header and whether the packet is to be sent.
pub mod Sequence
pub mod Bounds
use symphony_media_bridge.Common.{
  ℕ, ◌+◌, ◌-◌, ◌/◌, ◌%◌, Bool, true, false, not, ◌&&◌, if◌then◌else◌, ltb, ◌==◌, u32_mod, add32,
  sub32, slt32,
}
use symphony_media_bridge.Rewrite.State.{
  Context, RtpMap, RtpHeader, Tracker, Offset, is_empty, tracker_empty, seq_advance,
  is_packet_too_old, projected_timestamp, rewrite_audio_header,
}

abbrev pub max_audio_seq_gap : ℕ
max_audio_seq_gap = 256

abbrev pub max_rewind_audio : ℕ
max_rewind_audio = 512

abbrev pub sample_rate : ℕ
sample_rate = 48000

unfoldable pub drop_telephone_event : Context → ℕ → ℕ → Context
drop_telephone_event c seq origin_ssrc =
    if not (c.original_ssrc == origin_ssrc)
    then c
    else if slt32 max_audio_seq_gap (seq_advance c seq)
    then c
    else if slt32 0 (seq_advance c seq)
    then record c {
      offset = record (c.offset) {
        sequence_number = sub32 c.offset.sequence_number (seq_advance c seq);
      };
      last_dropped_sequence_number = seq;
    }
    else c

-- What the first packet of a stream leaves in the tracker.
abbrev pub start_tracker : Tracker → ℕ → ℕ → ℕ → Tracker
start_tracker t seq timestamp now =
    if tracker_empty t
    then record t {
      wall_clock = now;
      timestamp = timestamp;
      sequence_number = sub32 seq 1;
      last_original_sequence_number = sub32 seq 1;
    }
    else t

-- The offsets that make the packet the next one of the outbound stream.
abbrev pub next_offset : Offset → Tracker → ℕ → ℕ → ℕ → Offset
next_offset o t seq timestamp now = record o {
  timestamp = sub32 (projected_timestamp t now sample_rate) timestamp;
  sequence_number = sub32 (add32 t.sequence_number 1) seq;
}

unfoldable pub switch_source : Context → RtpHeader → ℕ → ℕ → Context
switch_source c h seq now =
    let t = start_tracker c.last_sent seq h.timestamp now in
    record c {
      last_sent = t;
      offset = next_offset c.offset t seq h.timestamp now;
      sequence_number_start = seq;
    }

unfoldable pub hide_gap : Context → RtpHeader → ℕ → ℕ → Context
hide_gap c h seq now = record c { offset = next_offset c.offset c.last_sent seq h.timestamp now }

-- What is recorded of a packet that goes out as the newest one.
abbrev pub sent : Tracker → RtpHeader → ℕ → ℕ → ℕ → Tracker
sent t h new_seq seq now = record t {
  sequence_number = new_seq;
  timestamp = h.timestamp;
  wall_clock = now;
  last_original_sequence_number = seq;
}

abbrev pub projected_advance : Context → RtpHeader → ℕ
projected_advance c h = sub32 h.timestamp c.last_sent.timestamp / 960

-- A packet that is older than the last dropped telephone event.
unfoldable pub send_after_drop :
    Context → RtpMap → RtpHeader → ℕ → ℕ → Bool → Context × RtpHeader × Bool
send_after_drop c sender h seq now is_telephone_event =
    let advance = projected_advance c h in
    let corrected = add32 c.last_sent.sequence_number advance in
    let h' = rewrite_audio_header c sender h corrected is_telephone_event in
    if ltb c.last_sent.last_original_sequence_number seq && ltb 0 advance && ltb advance 60
    then (
      record c {
        last_sent = sent c.last_sent h' corrected seq now;
        offset = record (c.offset) { sequence_number = add32 c.offset.sequence_number advance };
      },
      h',
      true,
    )
    else (c, h, false)

-- The part of `rewriteAudio` after the offsets are settled; `c` has the packet's source.
unfoldable pub send_audio : Context → RtpMap → RtpHeader → ℕ → ℕ → Bool → Context × RtpHeader × Bool
send_audio c sender h seq now is_telephone_event =
    let new_seq = add32 seq c.offset.sequence_number in
    let h' = rewrite_audio_header c sender h new_seq is_telephone_event in
    if slt32 0 (sub32 new_seq c.last_sent.sequence_number)
    then (record c { last_sent = sent c.last_sent h' new_seq seq now }, h', true)
    else if ltb seq c.last_dropped_sequence_number
    then send_after_drop c sender h seq now is_telephone_event
    else (c, h', true)

unfoldable pub rewrite_audio :
    Context → RtpHeader → RtpMap → ℕ → ℕ → Bool → Context × RtpHeader × Bool
rewrite_audio c h sender seq now is_telephone_event =
    let source = h.ssrc in
    if is_telephone_event && is_empty c.telephone_event_rtp_map.format
    then (drop_telephone_event c seq source, h, false)
    else if not (source == c.original_ssrc)
    then send_audio (record (switch_source c h seq now) { original_ssrc = source }) sender
        (record h { marker = 1 }) seq now is_telephone_event
    else if slt32 max_audio_seq_gap (seq_advance c seq)
    then send_audio (hide_gap c h seq now) sender h seq now is_telephone_event
    else if is_packet_too_old c seq max_rewind_audio
    then (c, h, false)
    else send_audio c sender h seq now is_telephone_event
