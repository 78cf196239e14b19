-- ===== src/Rewrite/State.antt =====
-- The state of bridge/engine/SsrcOutboundContext.h, the fields of rtp/RtpHeader.h that it rewrites
-- and the rewriting of header extensions. Words are below their modulus.
use symphony_media_bridge.Common.{
  ℕ, ◌+◌, ◌-◌, ◌*◌, ◌/◌, ◌%◌, ◌^◌, Bool, true, false, ◌&&◌, Option, none, some, List, [], ◌∷◌,
  if◌then◌else◌, ◌==◌, u16_mod, u32_mod, u64_mod, add32, sub32, sub64, slt32, sle32, neg32,
}

-- The formats of bridge/RtpMap.h.
pub data Format : Type 0 where
  empty vp8 rtx h264 opus telephone_event : Format

pub record RtpMap : Type 0 where
  pub format : Format
  pub payload_type : ℕ
  pub audio_level_ext_id : Option ℕ
  pub abs_send_time_ext_id : Option ℕ

abbrev pub is_vp8 : Format → Bool
is_vp8 vp8 = true
is_vp8 _ = false

abbrev pub is_empty : Format → Bool
is_empty empty = true
is_empty _ = false

-- An item of the one-byte extension header: its id and data, or a byte of padding.
pub data Extension : Type 0 where
  item : ℕ → List ℕ → Extension
  padding : Extension

-- The extensions are `none` where the packet has no extension header.
pub record RtpHeader : Type 0 where
  pub payload_type : ℕ
  pub marker : ℕ
  pub sequence_number : ℕ
  pub timestamp : ℕ
  pub ssrc : ℕ
  pub extensions : Option (List Extension)

pub record Tracker : Type 0 where
  pub ssrc : ℕ
  pub sequence_number : ℕ
  pub timestamp : ℕ
  pub wall_clock : ℕ
  pub pic_id : ℕ
  pub tl0_pic_idx : ℕ
  pub last_original_sequence_number : ℕ

-- Signed words, as patterns.
pub record Offset : Type 0 where
  pub sequence_number : ℕ
  pub timestamp : ℕ
  pub pic_id : ℕ
  pub tl0_pic_idx : ℕ

pub record Context : Type 0 where
  pub ssrc : ℕ
  pub rtp_map : RtpMap
  pub telephone_event_rtp_map : RtpMap
  pub last_key_frame_sequence_number : ℕ
  pub sequence_number_start : ℕ
  pub last_sent : Tracker
  pub offset : Offset
  pub last_dropped_sequence_number : ℕ
  pub original_ssrc : ℕ

abbrev pub max_u32 : ℕ
max_u32 = 2 ^ 32 - 1

abbrev pub new_tracker : Tracker
new_tracker = record {
  ssrc = max_u32;
  sequence_number = max_u32;
  timestamp = max_u32;
  wall_clock = max_u32;
  pic_id = 0xffff;
  tl0_pic_idx = 0xffff;
  last_original_sequence_number = max_u32;
}

abbrev pub new_offset : Offset
new_offset = record { sequence_number = 0; timestamp = 0; pic_id = 0; tl0_pic_idx = 0 }

abbrev pub new_context : ℕ → RtpMap → RtpMap → Context
new_context ssrc rtp_map telephone_event_rtp_map = record {
  ssrc = ssrc;
  rtp_map = rtp_map;
  telephone_event_rtp_map = telephone_event_rtp_map;
  last_key_frame_sequence_number = 0;
  sequence_number_start = 0;
  last_sent = new_tracker;
  offset = new_offset;
  last_dropped_sequence_number = 0;
  original_ssrc = max_u32;
}

unfoldable pub tracker_empty : Tracker → Bool
tracker_empty t =
    t.ssrc == max_u32
    && t.sequence_number == max_u32
    && t.pic_id == 0xffff
    && t.tl0_pic_idx == 0xffff
    && t.timestamp == max_u32
    && t.wall_clock == max_u32
    && t.last_original_sequence_number == max_u32

unfoldable pub offset_empty : Offset → Bool
offset_empty o = o.sequence_number == 0 && o.pic_id == 0 && o.timestamp == 0 && o.tl0_pic_idx == 0

-- (sequenceNumber + offset) - lastSent, as a signed word.
abbrev pub seq_advance : Context → ℕ → ℕ
seq_advance c seq = sub32 (add32 seq c.offset.sequence_number) c.last_sent.sequence_number

unfoldable pub is_packet_too_old : Context → ℕ → ℕ → Bool
is_packet_too_old c seq rewind_limit =
    if slt32 (sub32 seq c.sequence_number_start) 1
    then true
    else sle32 (seq_advance c seq) (neg32 rewind_limit)

-- The RTP time that is due by the wall clock.
abbrev pub projected_timestamp : Tracker → ℕ → ℕ → ℕ
projected_timestamp t now rate =
    (t.timestamp + ((sub64 now t.wall_clock * rate) % u64_mod) / 1_000_000_000) % u32_mod

-- `fillWithPadding` of an item with this data, before the rest: its header byte and its data.
unfoldable pub fill_with_padding : List ℕ → List Extension → List Extension
fill_with_padding [] rest = padding ∷ rest
fill_with_padding (b ∷ bs) rest = padding ∷ fill_with_padding bs rest

-- The sender's id of an extension, where it is not to be passed on as it is.
abbrev pub audio_rewrite : Option ℕ → Option ℕ → Option ℕ
audio_rewrite none to = none
audio_rewrite (some a) none = some a
audio_rewrite (some a) (some b) = if a == b then none else some a

abbrev pub matches : Option ℕ → ℕ → Bool
matches none id = false
matches (some a) id = id == a

-- `setId` on a four-bit field, or padding where the receiver has no id.
unfoldable pub renumber_item : Option ℕ → List ℕ → List Extension → List Extension
renumber_item none bytes rest = padding ∷ fill_with_padding bytes rest
renumber_item (some id) bytes rest = item (id % 16) bytes ∷ rest

unfoldable pub rewrite_audio_items :
    Option ℕ → Option ℕ → Option ℕ → Option ℕ → List Extension → List Extension
rewrite_audio_items level level_to time time_to [] = []
rewrite_audio_items level level_to time time_to (padding ∷ es) =
    padding ∷ rewrite_audio_items level level_to time time_to es
rewrite_audio_items level level_to time time_to (item id bytes ∷ es) =
    let rest = rewrite_audio_items level level_to time time_to es in
    if matches level id
    then renumber_item level_to bytes rest
    else if matches time id
    then renumber_item time_to bytes rest
    else item id bytes ∷ rest

-- Only the first item with the sender's id is given the receiver's.
unfoldable pub rewrite_video_items : ℕ → ℕ → List Extension → List Extension
rewrite_video_items time time_to [] = []
rewrite_video_items time time_to (padding ∷ es) = padding ∷ rewrite_video_items time time_to es
rewrite_video_items time time_to (item id bytes ∷ es) =
    if id == time
    then item (time_to % 16) bytes ∷ es
    else item id bytes ∷ rewrite_video_items time time_to es

unfoldable pub rewrite_audio_extensions : Context → RtpMap → RtpHeader → RtpHeader
rewrite_audio_extensions c sender h = elim h.extensions [
  | none ↦ h
  | some es ↦ record h {
    extensions = some (
        rewrite_audio_items (audio_rewrite sender.audio_level_ext_id c.rtp_map.audio_level_ext_id)
          c.rtp_map.audio_level_ext_id
          (audio_rewrite sender.abs_send_time_ext_id c.rtp_map.abs_send_time_ext_id)
          c.rtp_map.abs_send_time_ext_id es);
  }
]

abbrev pub rewrite_time_id : Option ℕ → Option ℕ → List Extension → List Extension
rewrite_time_id (some a) (some b) es = if a == b then es else rewrite_video_items a b es
rewrite_time_id _ _ es = es

unfoldable pub rewrite_video_extensions : Context → RtpMap → RtpHeader → RtpHeader
rewrite_video_extensions c sender h = elim h.extensions [
  | none ↦ h
  | some es ↦ record h {
    extensions =
        some (rewrite_time_id sender.abs_send_time_ext_id c.rtp_map.abs_send_time_ext_id es);
  }
]

unfoldable pub rewrite_audio_header : Context → RtpMap → RtpHeader → ℕ → Bool → RtpHeader
rewrite_audio_header c sender h seq is_telephone_event =
    rewrite_audio_extensions c sender (record h {
      sequence_number = seq % u16_mod;
      ssrc = c.ssrc;
      timestamp = add32 c.offset.timestamp h.timestamp;
      payload_type =
          if is_telephone_event
          then c.telephone_event_rtp_map.payload_type
          else c.rtp_map.payload_type;
    })

unfoldable pub rewrite_video_header : Context → RtpMap → RtpHeader → ℕ → RtpHeader
rewrite_video_header c sender h seq = rewrite_video_extensions c sender (record h {
  sequence_number = seq % u16_mod;
  ssrc = c.ssrc;
  timestamp = add32 c.offset.timestamp h.timestamp;
  payload_type = c.rtp_map.payload_type;
})
