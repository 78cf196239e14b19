-- ===== src/Rewrite/Video.antt =====
-- `rewriteVideo` of bridge/engine/SsrcOutboundContext.cpp. A call returns the context, the header,
-- the payload and the extended outbound sequence number, or `none` for a packet that is refused.
pub mod Continuity
use symphony_media_bridge.Common.{
  ℕ, ◌+◌, ◌-◌, ◌*◌, ◌/◌, ◌%◌, ◌^◌, Bool, true, false, not, ◌&&◌, Option, none, some, List,
  if◌then◌else◌, ltb, ◌==◌, u16_mod, u32_mod, add16, sub16, add32, sub32, slt32,
}
use symphony_media_bridge.Common.Ring.{ring_difference}
use symphony_media_bridge.Codec.Vp8.{get_pic_id, get_tl0_pic_idx, set_pic_id, set_tl0_pic_idx}
use symphony_media_bridge.Rewrite.State.{
  Context, RtpMap, RtpHeader, Tracker, Offset, is_vp8, tracker_empty, offset_empty, seq_advance,
  is_packet_too_old, projected_timestamp, rewrite_video_header,
}

abbrev pub max_video_seq_gap : ℕ
max_video_seq_gap = 512

abbrev pub max_rewind_video : ℕ
max_rewind_video = 1024 * 3

abbrev pub video_sample_rate : ℕ
video_sample_rate = 90000

-- What is read of a packet: its SSRC and time, and the numbers of its picture.
pub record Packet : Type 0 where
  pub seq : ℕ
  pub timestamp : ℕ
  pub ssrc : ℕ
  pub pic_id : ℕ
  pub tl0_pic_idx : ℕ

abbrev pub read_packet : Context → RtpHeader → List ℕ → ℕ → Packet
read_packet c h payload seq = record {
  seq = seq;
  timestamp = h.timestamp;
  ssrc = h.ssrc;
  pic_id = if is_vp8 c.rtp_map.format then get_pic_id payload else 0;
  tl0_pic_idx = if is_vp8 c.rtp_map.format then get_tl0_pic_idx payload else 0;
}

-- The first packet of the stream sets the tracker as if its predecessor had been sent.
unfoldable pub start_video : Context → Packet → ℕ → Context
start_video c p now =
    if tracker_empty c.last_sent && offset_empty c.offset
    then record c {
      original_ssrc = sub32 p.ssrc 1;
      last_sent = record (c.last_sent) {
        sequence_number = sub32 p.seq 1;
        pic_id = sub16 p.pic_id 1 % 2 ^ 15;
        tl0_pic_idx = sub16 p.tl0_pic_idx 1;
        timestamp = p.timestamp;
        wall_clock = now;
      };
    }
    else c

unfoldable pub switch_video : Context → Packet → ℕ → Context
switch_video c p now =
    let t = c.last_sent in
    let vp8 = is_vp8 c.rtp_map.format in
    record c {
      original_ssrc = p.ssrc;
      sequence_number_start = p.seq;
      offset = record {
        sequence_number = ring_difference 32 32 p.seq (add32 t.sequence_number 1);
        timestamp = ring_difference 32 32 p.timestamp (projected_timestamp t now video_sample_rate);
        pic_id = if vp8 then ring_difference 16 15 p.pic_id (add16 t.pic_id 1) else c.offset.pic_id;
        tl0_pic_idx =
            if vp8
            then ring_difference 16 8 p.tl0_pic_idx (add16 t.tl0_pic_idx 1)
            else c.offset.tl0_pic_idx;
      };
    }

unfoldable pub hide_video_gap : Context → Packet → ℕ → Context
hide_video_gap c p now = record c {
  offset = record (c.offset) {
    sequence_number = ring_difference 32 32 p.seq (add32 c.last_sent.sequence_number 1);
    timestamp =
        ring_difference 32 32 p.timestamp (projected_timestamp c.last_sent now video_sample_rate);
  };
}

abbrev pub new_pic_id : Context → Packet → ℕ
new_pic_id c p = if is_vp8 c.rtp_map.format then add16 p.pic_id c.offset.pic_id else 0xffff

abbrev pub new_tl0_pic_idx : Context → Packet → ℕ
new_tl0_pic_idx c p =
    if is_vp8 c.rtp_map.format then (p.tl0_pic_idx + c.offset.tl0_pic_idx) % 256 else 0xff

unfoldable pub rewrite_payload : Context → Packet → List ℕ → List ℕ
rewrite_payload c p payload =
    if is_vp8 c.rtp_map.format
    then set_tl0_pic_idx (set_pic_id payload (new_pic_id c p)) (new_tl0_pic_idx c p)
    else payload

abbrev pub Rewritten : Type 0
Rewritten = Context × RtpHeader × List ℕ × Option ℕ

-- The part of `rewriteVideo` after the offsets are settled.
unfoldable pub send_video : Context → RtpMap → RtpHeader → List ℕ → Packet → ℕ → Bool → Rewritten
send_video c sender h payload p now is_key_frame =
    let out = add32 p.seq c.offset.sequence_number in
    let h' = rewrite_video_header c sender h out in
    let newest = record (c.last_sent) {
      sequence_number = out;
      timestamp = h'.timestamp;
      wall_clock = now;
      pic_id = new_pic_id c p;
      tl0_pic_idx = new_tl0_pic_idx c p;
    } in
    (
      record c {
        last_sent = if slt32 0 (sub32 out c.last_sent.sequence_number) then newest else c.last_sent;
        last_key_frame_sequence_number =
            if is_key_frame then out else c.last_key_frame_sequence_number;
      },
      h',
      rewrite_payload c p payload,
      some out,
    )

unfoldable pub rewrite_video : Context → RtpHeader → List ℕ → RtpMap → ℕ → ℕ → Bool → Rewritten
rewrite_video c h payload sender seq now is_key_frame =
    let p = read_packet c h payload seq in
    let advance = seq_advance c seq in
    let d = start_video c p now in
    if not (d.original_ssrc == p.ssrc)
    then send_video (switch_video d p now) sender h payload p now is_key_frame
    else if slt32 max_video_seq_gap advance
    then send_video (hide_video_gap d p now) sender h payload p now is_key_frame
    else if is_packet_too_old d seq max_rewind_video
    then (d, h, payload, none)
    else send_video d sender h payload p now is_key_frame
