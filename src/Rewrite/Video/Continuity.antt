-- ===== src/Rewrite/Video/Continuity.antt =====
-- The outbound sequence numbers and VP8 picture numbers of `rewriteVideo` in
-- bridge/engine/SsrcOutboundContext.cpp.
use symphony_media_bridge.Common.{
  ℕ, ◌+◌, ◌%◌, ◌^◌, ◌<◌, ◌≤◌, ◌≡◌, ◌≢◌, ◌⊎◌, inl, inr, refl, ap, ◌∙◌, Bool, true, false, ◌&&◌, none,
  some, List, length, if◌then◌else◌, ◌==◌, u16_mod, u32_mod, add16, add32, sub32, slt32, arith,
  Bool-cases, Option-cases, ==_iff,
}
use symphony_media_bridge.Common.Ring.{
  ring_difference32, add-ring_difference15, add-ring_difference8,
}
use symphony_media_bridge.Codec.Vp8.{get_pic_id, get_tl0_pic_idx, is_full}
use symphony_media_bridge.Codec.Vp8.Descriptor.{renumber_lem}
use symphony_media_bridge.Rewrite.State.{
  Context, RtpMap, RtpHeader, is_vp8, vp8, tracker_empty, offset_empty, seq_advance,
  is_packet_too_old, rewrite_video_header, rewrite_video_extensions,
}
use symphony_media_bridge.Rewrite.Video.{
  Packet, read_packet, start_video, switch_video, hide_video_gap, new_pic_id, new_tl0_pic_idx,
  rewrite_payload, Rewritten, send_video, rewrite_video, max_video_seq_gap, max_rewind_video,
}

header_fields :
    (c : Context) (sender : RtpMap) (h : RtpHeader) (seq : ℕ)
    → ((rewrite_video_header c sender h seq).sequence_number ≡ seq % u16_mod)
      × ((rewrite_video_header c sender h seq).ssrc ≡ c.ssrc)
      × ((rewrite_video_header c sender h seq).marker ≡ h.marker)
unfolding rewrite_video_header rewrite_video_extensions
header_fields c sender h seq = elim (Option-cases h.extensions) [
  | inl e ↦ ground (arith, e)
  | inr (es, e) ↦ ground (arith, e)
]

module _ (c : Context) (h : RtpHeader) (payload : List ℕ) (sender : RtpMap) (seq now : ℕ)
    (key : Bool) (begun : tracker_empty c.last_sent && offset_empty c.offset ≡ false) where
  rewrite_video_switched :
      h.ssrc ≢ c.original_ssrc
      → rewrite_video c h payload sender seq now key
        ≡ send_video
            (switch_video c (read_packet c h payload seq) now)
            sender
            h
            payload
            (read_packet c h payload seq)
            now
            key
  unfolding rewrite_video start_video
  rewrite_video_switched other =
      let other' : (c.original_ssrc == h.ssrc) ≡ false = ground arith in rw (begun, other') refl

  rewrite_video_gap :
      h.ssrc ≡ c.original_ssrc
      → slt32 max_video_seq_gap (seq_advance c seq) ≡ true
      → rewrite_video c h payload sender seq now key
        ≡ send_video
            (hide_video_gap c (read_packet c h payload seq) now)
            sender
            h
            payload
            (read_packet c h payload seq)
            now
            key
  unfolding rewrite_video start_video
  rewrite_video_gap same gap =
      let same' : (c.original_ssrc == h.ssrc) ≡ true = ground arith in rw (begun, same', gap) refl

  rewrite_video_old :
      h.ssrc ≡ c.original_ssrc
      → slt32 max_video_seq_gap (seq_advance c seq) ≡ false
      → is_packet_too_old c seq max_rewind_video ≡ true
      → rewrite_video c h payload sender seq now key ≡ (c, h, payload, none)
  unfolding rewrite_video start_video
  rewrite_video_old same near old =
      let same' : (c.original_ssrc == h.ssrc) ≡ true = ground arith in
      rw (begun, same', near, old) refl

  rewrite_video_near :
      h.ssrc ≡ c.original_ssrc
      → slt32 max_video_seq_gap (seq_advance c seq) ≡ false
      → is_packet_too_old c seq max_rewind_video ≡ false
      → rewrite_video c h payload sender seq now key
        ≡ send_video c sender h payload (read_packet c h payload seq) now key
  unfolding rewrite_video start_video
  rewrite_video_near same near recent =
      let same' : (c.original_ssrc == h.ssrc) ≡ true = ground arith in
      rw (begun, same', near, recent) refl

send_video_fields :
    (c : Context) (sender : RtpMap) (h : RtpHeader) (payload : List ℕ) (p : Packet) (now : ℕ)
    (key : Bool)
    → let (c', h', payload', out) = send_video c sender h payload p now key in
      let seq = add32 p.seq c.offset.sequence_number in
      (out ≡ some seq)
      × (h'.sequence_number ≡ seq % u16_mod)
      × (h'.ssrc ≡ c.ssrc)
      × (payload' ≡ rewrite_payload c p payload)
      × (c'.last_sent.sequence_number ≡ (
          if slt32 0 (sub32 seq c.last_sent.sequence_number)
          then seq
          else c.last_sent.sequence_number))
      × (c'.original_ssrc ≡ c.original_ssrc)
unfolding send_video
send_video_fields c sender h payload p now key =
    let f = header_fields c sender h (add32 p.seq c.offset.sequence_number) in
    (refl, f.0, f.1, refl, ground arith, refl)

send_video_next :
    (c : Context) (sender : RtpMap) (h : RtpHeader) (payload : List ℕ) (p : Packet) (now : ℕ)
    (key : Bool) (last : ℕ)
    → add32 p.seq c.offset.sequence_number ≡ add32 last 1
    → c.last_sent.sequence_number ≡ last
    → last < u32_mod
    → (send_video c sender h payload p now key).0.last_sent.sequence_number ≡ add32 last 1
send_video_next c sender h payload p now key last e e' small =
    ground (arith, send_video_fields c sender h payload p now key)

switch_video_fields :
    (c : Context) (p : Packet) (now : ℕ)
    → p.seq < u32_mod
    → c.last_sent.sequence_number < u32_mod
    → (add32 p.seq (switch_video c p now).offset.sequence_number
        ≡ add32 c.last_sent.sequence_number 1)
      × ((switch_video c p now).last_sent ≡ c.last_sent)
      × ((switch_video c p now).ssrc ≡ c.ssrc)
      × ((switch_video c p now).rtp_map ≡ c.rtp_map)
unfolding switch_video
switch_video_fields c p now small small' = (
  omega (arith, ring_difference32 p.seq (add32 c.last_sent.sequence_number 1) small),
  refl,
  refl,
  refl,
)

hide_video_gap_fields :
    (c : Context) (p : Packet) (now : ℕ)
    → p.seq < u32_mod
    → c.last_sent.sequence_number < u32_mod
    → (add32 p.seq (hide_video_gap c p now).offset.sequence_number
        ≡ add32 c.last_sent.sequence_number 1)
      × ((hide_video_gap c p now).last_sent ≡ c.last_sent)
unfolding hide_video_gap
hide_video_gap_fields c p now small small' =
    (omega (arith, ring_difference32 p.seq (add32 c.last_sent.sequence_number 1) small), refl)

-- After a switch the new picture numbers follow those of the last picture sent.
switch_video_pictures :
    (c : Context) (p : Packet) (now : ℕ)
    → is_vp8 c.rtp_map.format ≡ true
    → p.pic_id < 2 ^ 16
    → p.tl0_pic_idx < 2 ^ 16
    → (new_pic_id (switch_video c p now) p % 2 ^ 15 ≡ (c.last_sent.pic_id + 1) % 2 ^ 15)
      × (new_tl0_pic_idx (switch_video c p now) p ≡ (c.last_sent.tl0_pic_idx + 1) % 2 ^ 8)
unfolding switch_video
switch_video_pictures c p now is8 small small' = rw is8 (
  omega (arith, add-ring_difference15 p.pic_id (add16 c.last_sent.pic_id 1) small),
  omega (arith, add-ring_difference8 p.tl0_pic_idx (add16 c.last_sent.tl0_pic_idx 1) small'),
)

rewrite_payload_vp8 :
    (c : Context) (p : Packet) (payload : List ℕ)
    → is_vp8 c.rtp_map.format ≡ true
    → is_full payload ≡ true
    → 6 ≤ length payload
    → (get_pic_id (rewrite_payload c p payload) ≡ new_pic_id c p % 2 ^ 15)
      × (get_tl0_pic_idx (rewrite_payload c p payload) ≡ new_tl0_pic_idx c p)
unfolding rewrite_payload
rewrite_payload_vp8 c p payload is8 full long =
    let r =
      renumber_lem payload (new_pic_id c p) (new_tl0_pic_idx c p) 0 full long (inl (omega arith)) in
    rw is8 (rw is8 at (r.1), rw is8 at (r.2))

-- On a stream that has begun the first VP8 packet of another source goes out as the packet after
-- the newest one: its extended and its 16-bit sequence number, its picture id modulo 2 ^ 15 and
-- its index of level 0 modulo 256 follow those last sent, and it has the outbound SSRC. The
-- payload has a full descriptor.
pub rewrite_video_switch :
    (c : Context) (h : RtpHeader) (payload : List ℕ) (sender : RtpMap) (seq now : ℕ) (key : Bool)
    → tracker_empty c.last_sent && offset_empty c.offset ≡ false
    → c.last_sent.sequence_number < u32_mod
    → seq < u32_mod
    → h.ssrc ≢ c.original_ssrc
    → c.rtp_map.format ≡ vp8
    → is_full payload ≡ true
    → 6 ≤ length payload
    → get_pic_id payload < 2 ^ 16
    → get_tl0_pic_idx payload < 2 ^ 8
    → let (c', h', payload', out) = rewrite_video c h payload sender seq now key in
      let next = add32 c.last_sent.sequence_number 1 in
      (out ≡ some next)
      × (h'.sequence_number ≡ next % u16_mod)
      × (h'.ssrc ≡ c.ssrc)
      × (c'.last_sent.sequence_number ≡ next)
      × (get_pic_id payload' ≡ (c.last_sent.pic_id + 1) % 2 ^ 15)
      × (get_tl0_pic_idx payload' ≡ (c.last_sent.tl0_pic_idx + 1) % 2 ^ 8)
rewrite_video_switch c h payload sender seq now key begun small small' other fmt full long pic tl0 =
    let p = read_packet c h payload seq in
    let d = switch_video c p now in
    let is8 : is_vp8 c.rtp_map.format ≡ true = rw fmt refl in
    let f = send_video_fields d sender h payload p now key in
    let g = switch_video_fields c p now small' small in
    let pictures = switch_video_pictures c p now is8 (rw is8 pic) (rw is8 (omega arith)) in
    let r = rewrite_payload_vp8 d p payload (rw g.3 is8) full long in
    rw (rewrite_video_switched c h payload sender seq now key begun other) (
      rw f.0 (ap some g.0),
      f.1 ∙ ap (λ k. k % u16_mod) g.0,
      f.2 ∙ g.2,
      send_video_next d sender h payload p now key c.last_sent.sequence_number g.0
          (ap (λ t. t.sequence_number) g.1) small,
      ap get_pic_id f.3 ∙ r.0 ∙ pictures.0,
      ap get_tl0_pic_idx f.3 ∙ r.1 ∙ pictures.1,
    )

next_near :
    (c : Context)
    → c.last_sent.sequence_number < u32_mod
    → slt32 max_video_seq_gap
        (sub32 (add32 c.last_sent.sequence_number 1) c.last_sent.sequence_number)
      ≡ false
next_near c small = ground arith

-- What one call may do: the newest outbound number moves by 512 at most and never back, and a
-- refused packet changes neither the state nor the header nor the payload.
pub record IsStep (c : Context) (h : RtpHeader) (payload : List ℕ) (out : Rewritten) : Type 0 where
  pub bounded :
      sub32 out.0.last_sent.sequence_number c.last_sent.sequence_number ≤ max_video_seq_gap
  pub refused : ((n : ℕ) × (out.3 ≡ some n)) ⊎ (out ≡ (c, h, payload, none))

send_video-IsStep :
    (c d : Context) (sender : RtpMap) (h : RtpHeader) (payload : List ℕ) (p : Packet) (now : ℕ)
    (key : Bool)
    → c.last_sent.sequence_number < u32_mod
    → d.last_sent ≡ c.last_sent
    → slt32 max_video_seq_gap
        (sub32 (add32 p.seq d.offset.sequence_number) c.last_sent.sequence_number)
      ≡ false
    → IsStep c h payload (send_video d sender h payload p now key)
send_video-IsStep c d sender h payload p now key small same near =
    let f = send_video_fields d sender h payload p now key in
    let e : d.last_sent.sequence_number ≡ c.last_sent.sequence_number =
      ap (λ t. t.sequence_number) same in
    record { bounded = ground (arith, f, e, small, near); refused = inl (_, f.0) }

-- Any call on a stream that has begun moves the newest outbound sequence number by at most 512 and
-- never back, and a packet that it refuses leaves the state, the header and the payload unchanged.
pub rewrite_video-IsStep :
    (c : Context) (h : RtpHeader) (payload : List ℕ) (sender : RtpMap) (seq now : ℕ) (key : Bool)
    → tracker_empty c.last_sent && offset_empty c.offset ≡ false
    → c.last_sent.sequence_number < u32_mod
    → seq < u32_mod
    → IsStep c h payload (rewrite_video c h payload sender seq now key)
rewrite_video-IsStep c h payload sender seq now key begun small small' =
    let p = read_packet c h payload seq in
    elim (Bool-cases (h.ssrc == c.original_ssrc)) [
      | inr other ↦
          let g = switch_video_fields c p now small' small in
          rw (rewrite_video_switched c h payload sender seq now key begun (ground arith)) (
            send_video-IsStep c (switch_video c p now) sender h payload p now key small g.1
              (rw g.0 (next_near c small)))
      | inl same ↦
          let e = (==_iff h.ssrc c.original_ssrc).0 same in
          elim (Bool-cases (slt32 max_video_seq_gap (seq_advance c seq))) [
            | inl gap ↦
                let g = hide_video_gap_fields c p now small' small in
                rw (rewrite_video_gap c h payload sender seq now key begun e gap) (
                  send_video-IsStep c (hide_video_gap c p now) sender h payload p now key small g.1
                    (rw g.0 (next_near c small)))
            | inr near ↦ elim (Bool-cases (is_packet_too_old c seq max_rewind_video)) [
              | inl old ↦
                  rw (rewrite_video_old c h payload sender seq now key begun e near old)
                    (record { bounded = omega arith; refused = inr refl })
              | inr recent ↦
                  rw (rewrite_video_near c h payload sender seq now key begun e near recent)
                    (send_video-IsStep c c sender h payload p now key small refl near)
            ]
          ]
    ]
