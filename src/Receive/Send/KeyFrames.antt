-- ===== src/Receive/Send/KeyFrames.antt =====
-- What bridge/engine/VideoForwarderRewriteAndSendJob.cpp does between a change of the source and the
-- next key frame.
use symphony_media_bridge.Common.{
  ℕ, ◌<◌, ◌≡◌, ◌≢◌, refl, sym, ◌∙◌, Bool, true, false, ◌&&◌, none, some, List, [], ◌∷◌, ◌==◌,
  ==_iff, u32_mod, sub32, arith, Option-cases, Bool-cases, inl, inr, ◌⊎◌,
}
use symphony_media_bridge.Rewrite.State.{
  Context, Format, RtpMap, RtpHeader, tracker_empty, offset_empty,
}
use symphony_media_bridge.Rewrite.Video.{
  Packet, read_packet, start_video, send_video, rewrite_video,
}
use symphony_media_bridge.Receive.{PliScheduler}
use symphony_media_bridge.Receive.Video.{is_key_frame}
use symphony_media_bridge.Receive.Send.{
  VideoPacket, Outbound, Outgoing, is_rtx, request_cache, wait_for_key_frame, rewrite_and_send,
  send_all,
}

-- No packet is the start of a key frame.
abbrev pub AreDeltas : Format → List Outgoing → Type 0
AreDeltas format [] = Unit
AreDeltas format (p ∷ ps) = (is_key_frame format p.packet.payload ≡ false) × AreDeltas format ps

-- The stream waits, in the same context.
abbrev pub IsWaiting : Context → Outbound → PliScheduler → Type 0
IsWaiting c o s = (o.context ≡ c) × (o.needs_keyframe ≡ true) × (s.key_frame_needed ≡ true)

request_cache_lem :
    (o : Outbound)
    → ((request_cache o).context ≡ o.context)
      × ((request_cache o).needs_keyframe ≡ o.needs_keyframe)
request_cache_lem o = elim (Option-cases o.packet_cache) [
  | inl e ↦ rw e (refl, refl)
  | inr (x, e) ↦ rw e (refl, refl)
]

wait_for_key_frame_lem :
    (o : Outbound) (s : PliScheduler) (p : VideoPacket)
    → is_key_frame o.context.rtp_map.format p.payload ≡ false
    → (p.header.ssrc ≢ o.context.original_ssrc) ⊎ IsWaiting o.context o s
    → let (w, s') = wait_for_key_frame o s p in IsWaiting o.context w s'
unfolding wait_for_key_frame
wait_for_key_frame_lem o s p delta why =
    elim (Bool-cases (p.header.ssrc == o.context.original_ssrc)) [
      | inr other ↦ rw (other, delta) (refl, refl, refl)
      | inl same ↦ elim why [
        | inl other ↦ absurd (other ((==_iff p.header.ssrc o.context.original_ssrc).0 same))
        | inr waits ↦ rw same waits
      ]
    ]

delta_waits :
    (o : Outbound) (s : PliScheduler) (p : Outgoing)
    → is_rtx o.context.rtp_map.format ≡ false
    → is_key_frame o.context.rtp_map.format p.packet.payload ≡ false
    → (p.packet.header.ssrc ≢ o.context.original_ssrc) ⊎ IsWaiting o.context o s
    → let r = rewrite_and_send o s p in
      (r.packet ≡ none) × IsWaiting o.context r.outbound r.scheduler
unfolding rewrite_and_send
delta_waits o s p not_rtx delta why =
    let b = request_cache o in
    let (context, needs) = request_cache_lem o in
    let why' : (p.packet.header.ssrc ≢ b.context.original_ssrc) ⊎ IsWaiting b.context b s =
      elim why [ inl other ↦ inl (rw context other) | inr (c, n, k) ↦ inr (refl, needs ∙ n, k) ] in
    let (same, waits, needed) = wait_for_key_frame_lem b s p.packet (rw context delta) why' in
    rw (not_rtx, waits, delta) (refl, (same ∙ context, waits, needed))

all_wait :
    (o : Outbound) (s : PliScheduler) (ps : List Outgoing)
    → is_rtx o.context.rtp_map.format ≡ false
    → AreDeltas o.context.rtp_map.format ps
    → IsWaiting o.context o s
    → let (o', s', sent) = send_all o s ps in (sent ≡ []) × IsWaiting o.context o' s'
unfolding send_all
all_wait o s [] not_rtx deltas waits = (refl, waits)
all_wait o s (p ∷ ps) not_rtx (delta, deltas) waits =
    let (unsent, (c, n, k)) = delta_waits o s p not_rtx delta (inr waits) in
    let r = rewrite_and_send o s p in
    let (none_sent, (c', n', k')) =
      all_wait r.outbound r.scheduler ps (rw c not_rtx) (rw c deltas) (refl, n, k) in
    rw (unsent, send_all) (none_sent, (c' ∙ c, n', k'))

start_video_source :
    (c : Context) (p : Packet) (now : ℕ)
    → p.ssrc < u32_mod
    → p.ssrc ≢ c.original_ssrc
    → ((start_video c p now).original_ssrc == p.ssrc) ≡ false
unfolding start_video
start_video_source c p now small other =
    elim (Bool-cases (tracker_empty c.last_sent && offset_empty c.offset)) [
      | inl begins ↦
          let before : sub32 p.ssrc 1 ≢ p.ssrc = λ e. omega (arith, e, small) in
          rw begins (elim (Bool-cases (sub32 p.ssrc 1 == p.ssrc)) [
            | inl same ↦ absurd (before ((==_iff (sub32 p.ssrc 1) p.ssrc).0 same))
            | inr differs ↦ differs
          ])
      | inr begun ↦ rw begun (elim (Bool-cases (c.original_ssrc == p.ssrc)) [
        | inl same ↦ absurd (other (sym ((==_iff c.original_ssrc p.ssrc).0 same)))
        | inr differs ↦ differs
      ])
    ]

-- A packet of another source than before is not refused.
rewrite_video_other_source :
    (c : Context) (h : RtpHeader) (payload : List ℕ) (sender : RtpMap) (seq now : ℕ) (key : Bool)
    → h.ssrc < u32_mod
    → h.ssrc ≢ c.original_ssrc
    → (number : ℕ) × ((rewrite_video c h payload sender seq now key).3 ≡ some number)
unfolding rewrite_video send_video
rewrite_video_other_source c h payload sender seq now key small other =
    rw (start_video_source c (read_packet c h payload seq) now small other) (_, refl)

key_waits_not :
    (o : Outbound) (s : PliScheduler) (p : VideoPacket)
    → is_key_frame o.context.rtp_map.format p.payload ≡ true
    → wait_for_key_frame o s p ≡ (o, s)
unfolding wait_for_key_frame
key_waits_not o s p key = elim (Bool-cases (p.header.ssrc == o.context.original_ssrc)) [
  | inl same ↦ rw same refl
  | inr other ↦ rw (other, key) refl
]

and_false : (b : Bool) → (b && false) ≡ false
and_false true = refl
and_false false = refl

-- A key frame of another source is sent, where the transport is connected.
key_frame_is_sent :
    (o : Outbound) (s : PliScheduler) (p : Outgoing)
    → is_rtx o.context.rtp_map.format ≡ false
    → is_key_frame o.context.rtp_map.format p.packet.payload ≡ true
    → p.connected ≡ true
    → p.packet.header.ssrc < u32_mod
    → p.packet.header.ssrc ≢ o.context.original_ssrc
    → (q : VideoPacket) × ((rewrite_and_send o s p).packet ≡ some q)
unfolding rewrite_and_send
key_frame_is_sent o s p not_rtx key connected small other =
    let (context, needs) = request_cache_lem o in
    let b = request_cache o in
    let (number, out) =
      rewrite_video_other_source b.context p.packet.header p.packet.payload p.sender p.extended
        p.now true small (rw context other) in
    let goes_on = key_waits_not b s p.packet (rw context key) in
    rw (not_rtx, key, goes_on, and_false b.needs_keyframe, connected, out) (_, refl)

-- After a change of the source nothing is sent before a key frame: the first packet from another
-- source and all that follow are dropped while none of them is a key frame, the sender is asked for
-- one, and the stream's numbers stay as they were. The first key frame of another source is then sent,
-- where the transport is connected. The stream is not a retransmission stream.
pub switch_waits_for_key_frame :
    (o : Outbound) (s : PliScheduler) (p : Outgoing) (ps : List Outgoing)
    → is_rtx o.context.rtp_map.format ≡ false
    → p.packet.header.ssrc ≢ o.context.original_ssrc
    → AreDeltas o.context.rtp_map.format (p ∷ ps)
    → let (o', s', sent) = send_all o s (p ∷ ps) in
      (sent ≡ [])
      × IsWaiting o.context o' s'
      × ((q : Outgoing)
          → is_key_frame o.context.rtp_map.format q.packet.payload ≡ true
          → q.connected ≡ true
          → q.packet.header.ssrc < u32_mod
          → q.packet.header.ssrc ≢ o.context.original_ssrc
          → (v : VideoPacket) × ((rewrite_and_send o' s' q).packet ≡ some v))
unfolding send_all
switch_waits_for_key_frame o s p ps not_rtx other (delta, deltas) =
    let (unsent, (c, n, k)) = delta_waits o s p not_rtx delta (inl other) in
    let r = rewrite_and_send o s p in
    let (none_sent, (c', n', k')) =
      all_wait r.outbound r.scheduler ps (rw c not_rtx) (rw c deltas) (refl, n, k) in
    let (o', s', sent) = send_all r.outbound r.scheduler ps in
    let same = c' ∙ c in
    rw (unsent, send_all)
      (
        none_sent,
        (same, n', k'),
        λ q key connected small elsewhere.
            key_frame_is_sent o' s' q (rw same not_rtx) (rw same key) connected small
              (rw same elsewhere),
      )
