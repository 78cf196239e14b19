-- ===== src/Rewrite/Audio/Sequence.antt =====
-- The outbound sequence numbers of `rewriteAudio` in bridge/engine/SsrcOutboundContext.cpp.
use symphony_media_bridge.Common.{
  ℕ, ◌%◌, ◌<◌, ◌≡◌, ◌≢◌, inl, inr, refl, Bool, true, false, ◌&&◌, if◌then◌else◌, ◌==◌, u16_mod,
  u32_mod, add32, sub32, slt32, lt→ltb, arith, Option-cases, Bool-cases,
}
use symphony_media_bridge.Rewrite.State.{
  Context, RtpMap, RtpHeader, is_empty, tracker_empty, seq_advance, is_packet_too_old,
  rewrite_audio_header, rewrite_audio_extensions,
}
use symphony_media_bridge.Rewrite.Audio.{
  drop_telephone_event, switch_source, hide_gap, send_audio, rewrite_audio, max_audio_seq_gap,
  max_rewind_audio,
}

-- The sequence numbers that the state holds are 32-bit words.
pub record IsWord (c : Context) : Type 0 where
  pub last : c.last_sent.sequence_number < u32_mod
  pub shift : c.offset.sequence_number < u32_mod
  pub start : c.sequence_number_start < u32_mod

-- How far the newest outbound sequence number has moved, on the ring of 32 bits.
abbrev pub moved : Context → Context → ℕ
moved c c' = sub32 c'.last_sent.sequence_number c.last_sent.sequence_number

header_fields :
    (c : Context) (sender : RtpMap) (h : RtpHeader) (seq : ℕ) (event : Bool)
    → ((rewrite_audio_header c sender h seq event).sequence_number ≡ seq % u16_mod)
      × ((rewrite_audio_header c sender h seq event).ssrc ≡ c.ssrc)
      × ((rewrite_audio_header c sender h seq event).marker ≡ h.marker)
unfolding rewrite_audio_header rewrite_audio_extensions
header_fields c sender h seq event = elim (Option-cases h.extensions) [
  | inl e ↦ ground (arith, e)
  | inr (es, e) ↦ ground (arith, e)
]

-- A packet ahead of the newest one is sent with its place in the outbound sequence.
pub send_audio_new :
    (c : Context) (sender : RtpMap) (h : RtpHeader) (seq now : ℕ) (event : Bool)
    → slt32 0 (seq_advance c seq) ≡ true
    → let (c', h', sent) = send_audio c sender h seq now event in
      (sent ≡ true)
      × (c'.last_sent.sequence_number ≡ add32 seq c.offset.sequence_number)
      × (h'.sequence_number ≡ add32 seq c.offset.sequence_number % u16_mod)
      × (h'.ssrc ≡ c.ssrc)
      × (h'.marker ≡ h.marker)
      × (c'.original_ssrc ≡ c.original_ssrc)
unfolding send_audio
send_audio_new c sender h seq now event ahead =
    ground (arith, header_fields c sender h (add32 seq c.offset.sequence_number) event)

abbrev pub switched : Context → RtpHeader → ℕ → ℕ → Context
switched c h seq now = record (switch_source c h seq now) { original_ssrc = h.ssrc }

pub rewrite_audio_new_source :
    (c : Context) (h : RtpHeader) (sender : RtpMap) (seq now : ℕ) (event : Bool)
    → h.ssrc ≢ c.original_ssrc
    → event && is_empty c.telephone_event_rtp_map.format ≡ false
    → rewrite_audio c h sender seq now event
      ≡ send_audio (switched c h seq now) sender (record h { marker = 1 }) seq now event
unfolding rewrite_audio
rewrite_audio_new_source c h sender seq now event other heard =
    let other' : (h.ssrc == c.original_ssrc) ≡ false = ground arith in rw (heard, other') refl

pub switched_fields :
    (c : Context) (h : RtpHeader) (seq now : ℕ)
    → c.last_sent.sequence_number < u32_mod
    → seq < u32_mod
    → tracker_empty c.last_sent ≡ false
    → let c' = switched c h seq now in
      (slt32 0 (seq_advance c' seq) ≡ true)
      × (add32 seq c'.offset.sequence_number ≡ add32 c.last_sent.sequence_number 1)
      × (c'.last_sent.sequence_number ≡ c.last_sent.sequence_number)
      × (c'.ssrc ≡ c.ssrc)
unfolding switch_source
switched_fields c h seq now small small' started =
    rw started (lt→ltb _ _ (omega arith), omega arith, refl, refl)

-- On a stream that has begun the first packet of another source goes out as the packet after the
-- newest one, with the marker bit and the outbound SSRC, whatever its own sequence number is. The
-- packet is no telephone event, or one that the receiver takes.
pub rewrite_audio_switch :
    (c : Context) (h : RtpHeader) (sender : RtpMap) (seq now : ℕ) (event : Bool)
    → c.last_sent.sequence_number < u32_mod
    → seq < u32_mod
    → h.ssrc ≢ c.original_ssrc
    → tracker_empty c.last_sent ≡ false
    → event && is_empty c.telephone_event_rtp_map.format ≡ false
    → let (c', h', sent) = rewrite_audio c h sender seq now event in
      (sent ≡ true)
      × (c'.last_sent.sequence_number ≡ add32 c.last_sent.sequence_number 1)
      × (h'.sequence_number ≡ add32 c.last_sent.sequence_number 1 % u16_mod)
      × (h'.ssrc ≡ c.ssrc)
      × (h'.marker ≡ 1)
      × (c'.original_ssrc ≡ h.ssrc)
rewrite_audio_switch c h sender seq now event small small' other started heard =
    let f = switched_fields c h seq now small small' started in
    rw (rewrite_audio_new_source c h sender seq now event other heard) (
      ground (
        arith,
        f,
        send_audio_new (switched c h seq now) sender (record h { marker = 1 }) seq now event f.0,
      ))

add-seq_advance :
    (c : Context) (seq : ℕ)
    → IsWord c
    → add32 seq c.offset.sequence_number ≡ add32 c.last_sent.sequence_number (seq_advance c seq)
add-seq_advance c seq w = omega arith

not_too_old :
    (c : Context) (seq : ℕ)
    → slt32 0 (sub32 seq c.sequence_number_start) ≡ true
    → slt32 0 (seq_advance c seq) ≡ true
    → is_packet_too_old c seq max_rewind_audio ≡ false
unfolding is_packet_too_old
not_too_old c seq after ahead = ground arith

pub hide_gap_fields :
    (c : Context) (h : RtpHeader) (seq now : ℕ)
    → IsWord c
    → seq < u32_mod
    → (slt32 0 (seq_advance (hide_gap c h seq now) seq) ≡ true)
      × (add32 seq (hide_gap c h seq now).offset.sequence_number
          ≡ add32 c.last_sent.sequence_number 1)
      × ((hide_gap c h seq now).ssrc ≡ c.ssrc)
unfolding hide_gap
hide_gap_fields c h seq now w small = (lt→ltb _ _ (omega arith), omega arith, refl)

module _ (c : Context) (h : RtpHeader) (sender : RtpMap) (seq now : ℕ) (event : Bool) where
  pub rewrite_audio_gap :
      h.ssrc ≡ c.original_ssrc
      → event && is_empty c.telephone_event_rtp_map.format ≡ false
      → slt32 max_audio_seq_gap (seq_advance c seq) ≡ true
      → rewrite_audio c h sender seq now event
        ≡ send_audio (hide_gap c h seq now) sender h seq now event
  unfolding rewrite_audio
  rewrite_audio_gap same heard gap =
      let same' : (h.ssrc == c.original_ssrc) ≡ true = ground arith in rw (heard, same', gap) refl

  pub rewrite_audio_near :
      h.ssrc ≡ c.original_ssrc
      → event && is_empty c.telephone_event_rtp_map.format ≡ false
      → slt32 max_audio_seq_gap (seq_advance c seq) ≡ false
      → is_packet_too_old c seq max_rewind_audio ≡ false
      → rewrite_audio c h sender seq now event ≡ send_audio c sender h seq now event
  unfolding rewrite_audio
  rewrite_audio_near same heard near recent =
      let same' : (h.ssrc == c.original_ssrc) ≡ true = ground arith in
      rw (heard, same', near, recent) refl

  pub rewrite_audio_old :
      h.ssrc ≡ c.original_ssrc
      → event && is_empty c.telephone_event_rtp_map.format ≡ false
      → slt32 max_audio_seq_gap (seq_advance c seq) ≡ false
      → is_packet_too_old c seq max_rewind_audio ≡ true
      → rewrite_audio c h sender seq now event ≡ (c, h, false)
  unfolding rewrite_audio
  rewrite_audio_old same heard near old =
      let same' : (h.ssrc == c.original_ssrc) ≡ true = ground arith in
      rw (heard, same', near, old) refl

  pub rewrite_audio_drop :
      event && is_empty c.telephone_event_rtp_map.format ≡ true
      → rewrite_audio c h sender seq now event ≡ (drop_telephone_event c seq h.ssrc, h, false)
  unfolding rewrite_audio
  rewrite_audio_drop drop = rw drop refl

-- A packet of the current source that is ahead of the newest one and later than the first one of
-- that source goes out as far ahead as it came in, and directly after the newest one if the gap is
-- above 256. The marker bit is as it was. The packet is no telephone event, or one that the
-- receiver takes.
pub rewrite_audio_in_order :
    (c : Context) (h : RtpHeader) (sender : RtpMap) (seq now : ℕ) (event : Bool)
    → IsWord c
    → seq < u32_mod
    → h.ssrc ≡ c.original_ssrc
    → event && is_empty c.telephone_event_rtp_map.format ≡ false
    → slt32 0 (sub32 seq c.sequence_number_start) ≡ true
    → slt32 0 (seq_advance c seq) ≡ true
    → let (c', h', sent) = rewrite_audio c h sender seq now event in
      let step = if slt32 max_audio_seq_gap (seq_advance c seq) then 1 else seq_advance c seq in
      (sent ≡ true)
      × (c'.last_sent.sequence_number ≡ add32 c.last_sent.sequence_number step)
      × (h'.sequence_number ≡ add32 c.last_sent.sequence_number step % u16_mod)
      × (h'.ssrc ≡ c.ssrc)
      × (h'.marker ≡ h.marker)
rewrite_audio_in_order c h sender seq now event w small same heard after ahead =
    elim (Bool-cases (slt32 max_audio_seq_gap (seq_advance c seq))) [
      | inl gap ↦ rw (rewrite_audio_gap c h sender seq now event same heard gap) (
          ground (
            arith,
            gap,
            hidden,
            send_audio_new (hide_gap c h seq now) sender h seq now event hidden.0,
          ))
      | inr near ↦
          rw (rewrite_audio_near c h sender seq now event same heard near recent)
            (ground (arith, near, direct, send_audio_new c sender h seq now event ahead))
    ]
  where
    hidden :
        (slt32 0 (seq_advance (hide_gap c h seq now) seq) ≡ true)
        × (add32 seq (hide_gap c h seq now).offset.sequence_number
            ≡ add32 c.last_sent.sequence_number 1)
        × ((hide_gap c h seq now).ssrc ≡ c.ssrc)
    hidden = hide_gap_fields c h seq now w small

    recent : is_packet_too_old c seq max_rewind_audio ≡ false
    recent = not_too_old c seq after ahead

    direct :
        add32 seq c.offset.sequence_number ≡ add32 c.last_sent.sequence_number (seq_advance c seq)
    direct = add-seq_advance c seq w

pub drop_telephone_event_fields :
    (c : Context) (seq : ℕ) (source : ℕ)
    → source ≡ c.original_ssrc
    → slt32 0 (seq_advance c seq) ≡ true
    → slt32 max_audio_seq_gap (seq_advance c seq) ≡ false
    → let c' = drop_telephone_event c seq source in
      (c'.offset.sequence_number ≡ sub32 c.offset.sequence_number (seq_advance c seq))
      × (c'.last_sent ≡ c.last_sent)
      × (c'.original_ssrc ≡ c.original_ssrc)
      × (c'.sequence_number_start ≡ c.sequence_number_start)
unfolding drop_telephone_event
drop_telephone_event_fields c seq source same ahead near =
    let same' : (c.original_ssrc == source) ≡ true = ground arith in
    rw (same', near, ahead) (refl, refl, refl, refl)

pub last_sent-drop_telephone_event :
    (c : Context) (seq source : ℕ) → (drop_telephone_event c seq source).last_sent ≡ c.last_sent
unfolding drop_telephone_event
last_sent-drop_telephone_event c seq source = ground arith
