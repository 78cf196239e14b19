-- ===== src/Rewrite/Audio/Bounds.antt =====
-- What every call of `rewriteAudio` in bridge/engine/SsrcOutboundContext.cpp keeps, and how a
-- dropped telephone event is hidden.
use symphony_media_bridge.Common.{
  ℕ, ◌+◌, ◌%◌, ◌<◌, ◌≤◌, ◌≡◌, ◌≢◌, ◌⊎◌, inl, inr, refl, Bool, true, false, ◌&&◌, ◌==◌, u16_mod,
  u32_mod, add32, sub32, slt32, arith, Bool-cases, ==_iff,
}
use symphony_media_bridge.Rewrite.State.{
  Context, RtpMap, RtpHeader, is_empty, tracker_empty, seq_advance, is_packet_too_old,
}
use symphony_media_bridge.Rewrite.Audio.{
  drop_telephone_event, hide_gap, send_after_drop, send_audio, rewrite_audio, max_audio_seq_gap,
  max_rewind_audio,
}
use symphony_media_bridge.Rewrite.Audio.Sequence.{
  IsWord, moved, rewrite_audio_in_order, send_audio_new, switched, switched_fields,
  rewrite_audio_new_source, hide_gap_fields, rewrite_audio_gap, rewrite_audio_near,
  rewrite_audio_old, rewrite_audio_drop, drop_telephone_event_fields,
  last_sent-drop_telephone_event,
}

-- What one call may do: the newest outbound number moves by 256 at most and never back, and a
-- refused packet leaves its header and the record of the newest packet as they were.
pub record IsStep (c : Context) (h : RtpHeader) (out : Context × RtpHeader × Bool) : Type 0 where
  pub bounded : moved c out.0 ≤ max_audio_seq_gap
  pub refused : (out.2 ≡ true) ⊎ ((out.1 ≡ h) × (out.0.last_sent ≡ c.last_sent))

module _ (c : Context) (sender : RtpMap) (h : RtpHeader) (seq now : ℕ) (event : Bool) where
  send_after_drop-IsStep :
      c.last_sent.sequence_number < u32_mod → IsStep c h (send_after_drop c sender h seq now event)
  unfolding send_after_drop
  send_after_drop-IsStep small = record { bounded = ground arith; refused = ground arith }

  send_audio-IsStep :
      c.last_sent.sequence_number < u32_mod
      → slt32 max_audio_seq_gap (seq_advance c seq) ≡ false
      → IsStep c h (send_audio c sender h seq now event)
  unfolding send_audio
  send_audio-IsStep small near = record {
    bounded = ground (arith, (send_after_drop-IsStep small).bounded);
    refused = ground (arith, (send_after_drop-IsStep small).refused);
  }

-- A packet that is made the next one of the outbound sequence.
next-IsStep :
    (c d : Context) (sender : RtpMap) (h k : RtpHeader) (seq now : ℕ) (event : Bool)
    → c.last_sent.sequence_number < u32_mod
    → slt32 0 (seq_advance d seq) ≡ true
    → add32 seq d.offset.sequence_number ≡ add32 c.last_sent.sequence_number 1
    → IsStep c h (send_audio d sender k seq now event)
next-IsStep c d sender h k seq now event small ahead e =
    let new = send_audio_new d sender k seq now event ahead in
    record { bounded = omega (arith, new.1, e); refused = inl new.0 }

-- Any call on a stream that has begun moves the newest outbound sequence number by at most 256 and
-- never back, and a packet that it refuses keeps its header and leaves the record of the newest
-- packet as it was.
pub rewrite_audio-IsStep :
    (c : Context) (h : RtpHeader) (sender : RtpMap) (seq now : ℕ) (event : Bool)
    → IsWord c
    → seq < u32_mod
    → tracker_empty c.last_sent ≡ false
    → IsStep c h (rewrite_audio c h sender seq now event)
rewrite_audio-IsStep c h sender seq now event w small started =
    elim (Bool-cases (event && is_empty c.telephone_event_rtp_map.format)) [
      | inl drop ↦ rw (rewrite_audio_drop c h sender seq now event drop) (record {
        bounded = rw (last_sent-drop_telephone_event c seq h.ssrc) (omega (arith, w.last));
        refused = inr (refl, last_sent-drop_telephone_event c seq h.ssrc);
      })
      | inr heard ↦ elim (Bool-cases (h.ssrc == c.original_ssrc)) [
        | inr other ↦
            let ne : h.ssrc ≢ c.original_ssrc = ground arith in
            let f = switched_fields c h seq now w.last small started in
            rw (rewrite_audio_new_source c h sender seq now event ne heard) (
              next-IsStep c (switched c h seq now) sender h (record h { marker = 1 }) seq now event
                w.last f.0 f.1)
        | inl same ↦
            let e = (==_iff h.ssrc c.original_ssrc).0 same in
            elim (Bool-cases (slt32 max_audio_seq_gap (seq_advance c seq))) [
              | inl gap ↦
                  let f = hide_gap_fields c h seq now w small in
                  rw (rewrite_audio_gap c h sender seq now event e heard gap)
                    (next-IsStep c (hide_gap c h seq now) sender h h seq now event w.last f.0 f.1)
              | inr near ↦ elim (Bool-cases (is_packet_too_old c seq max_rewind_audio)) [
                | inl old ↦
                    rw (rewrite_audio_old c h sender seq now event e heard near old)
                      (record { bounded = omega (arith, w.last); refused = inr (refl, refl) })
                | inr recent ↦
                    rw (rewrite_audio_near c h sender seq now event e heard near recent)
                      (send_audio-IsStep c sender h seq now event w.last near)
              ]
            ]
      ]
    ]

-- A telephone event that is dropped, of the current source, after its first packet and at most 256
-- ahead, leaves no gap: the audio packet after it goes out directly after the newest packet.
rewrite_audio-drop_telephone_event :
    (c : Context) (h : RtpHeader) (sender : RtpMap) (seq now : ℕ)
    → IsWord c
    → seq + 1 < u32_mod
    → h.ssrc ≡ c.original_ssrc
    → slt32 0 (sub32 (seq + 1) c.sequence_number_start) ≡ true
    → slt32 0 (seq_advance c seq) ≡ true
    → slt32 max_audio_seq_gap (seq_advance c seq) ≡ false
    → let (c', h', sent) =
        rewrite_audio (drop_telephone_event c seq h.ssrc) h sender (seq + 1) now false in
      (sent ≡ true)
      × (c'.last_sent.sequence_number ≡ add32 c.last_sent.sequence_number 1)
      × (h'.sequence_number ≡ add32 c.last_sent.sequence_number 1 % u16_mod)
rewrite_audio-drop_telephone_event c h sender seq now w small same after ahead near = ground (
  arith,
  f,
  one,
  rewrite_audio_in_order d h sender (seq + 1) now false
      (record {
        last = rw f.1 w.last;
        shift = omega (arith, f.0);
        start = omega (arith, f.3, w.start);
      })
      small (ground (arith, f.2)) refl (rw f.3 after) (rw one refl),
)
  where
    d : Context
    d = drop_telephone_event c seq h.ssrc

    f :
        (d.offset.sequence_number ≡ sub32 c.offset.sequence_number (seq_advance c seq))
        × (d.last_sent ≡ c.last_sent)
        × (d.original_ssrc ≡ c.original_ssrc)
        × (d.sequence_number_start ≡ c.sequence_number_start)
    f = drop_telephone_event_fields c seq h.ssrc same ahead near

    one : seq_advance d (seq + 1) ≡ 1
    one = rw (f.0, f.1) (omega (arith, w.last, w.shift))
