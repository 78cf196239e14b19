-- ===== src/Receive/Send.antt =====
-- bridge/engine/VideoForwarderRewriteAndSendJob.cpp: a packet on its way to one receiver. `Outbound`
-- is the part of bridge/engine/SsrcOutboundContext.h that the job uses; a cache that is set but not
-- there yet is `some none`.
pub mod KeyFrames
use symphony_media_bridge.Common.{
  ℕ, ◌+◌, ◌*◌, ◌/◌, ◌%◌, ◌<◌, ◌≡◌, ◌≢◌, refl, sym, ap, ◌∙◌, Bool, true, false, not, ◌&&◌, ◌||◌,
  Option, none, some, List, [], ◌∷◌, if◌then◌else◌, ◌==◌, ==_iff, u16_mod, arith, Option-cases,
  Bool-cases, inl, inr, ◌⊎◌,
}
use symphony_media_bridge.Nack.Cache.{PacketCache, add}
use symphony_media_bridge.Rewrite.State.{Context, Format, RtpMap, RtpHeader, rtx}
use symphony_media_bridge.Rewrite.Video.{rewrite_video}
use symphony_media_bridge.Receive.{PliScheduler, trigger_pli}
use symphony_media_bridge.Receive.Video.{is_key_frame}

pub record VideoPacket : Type 0 where
  pub header : RtpHeader
  pub payload : List ℕ

pub record Outbound : Type 0 where
  pub context : Context
  pub needs_keyframe : Bool
  pub packet_cache : Option (Option (PacketCache VideoPacket))

-- A packet with its extended number and its sender's formats, and what the job finds: the time,
-- whether the transport is connected, and whether the allocator has a packet for the cache.
pub record Outgoing : Type 0 where
  pub packet : VideoPacket
  pub extended : ℕ
  pub sender : RtpMap
  pub now : ℕ
  pub connected : Bool
  pub allocated : Bool

pub record Sent : Type 0 where
  pub outbound : Outbound
  pub scheduler : PliScheduler
  pub packet : Option VideoPacket

abbrev pub is_rtx : Format → Bool
is_rtx rtx = true
is_rtx _ = false

-- The cache that the mixer is asked for is not there yet.
abbrev pub request_cache : Outbound → Outbound
request_cache o = elim o.packet_cache [
  | none ↦ record o { packet_cache = some none }
  | some cache ↦ o
]

unfoldable pub cache_packet : Outbound → VideoPacket → Bool → Outbound
cache_packet o p allocated = elim o.packet_cache [
  | none ↦ o
  | some there ↦ elim there [
    | none ↦ o
    | some cache ↦ record o {
      packet_cache = some (some (add cache p p.header.sequence_number allocated).0);
    }
  ]
]

-- A packet from another source than before waits for a key frame.
unfoldable pub wait_for_key_frame : Outbound → PliScheduler → VideoPacket → Outbound × PliScheduler
wait_for_key_frame o scheduler p =
    if not (p.header.ssrc == o.context.original_ssrc)
      && not (is_key_frame o.context.rtp_map.format p.payload)
    then (record o { needs_keyframe = true }, trigger_pli scheduler)
    else (o, scheduler)

unfoldable pub rewrite_and_send : Outbound → PliScheduler → Outgoing → Sent
rewrite_and_send o scheduler p =
    let unsent : Outbound → PliScheduler → Sent =
      λ o' s. record { outbound = o'; scheduler = s; packet = none } in
    if is_rtx o.context.rtp_map.format
    then unsent o scheduler
    else let key = is_key_frame o.context.rtp_map.format p.packet.payload in
      let (w, s) = wait_for_key_frame (request_cache o) scheduler p.packet in
      if w.needs_keyframe && not key
      then unsent w s
      else let ready : Outbound = record w { needs_keyframe = false } in
        if not p.connected
        then unsent ready s
        else let (context, header, payload, out) =
            rewrite_video ready.context p.packet.header p.packet.payload p.sender p.extended p.now
              key in
          let rewritten : Outbound = record ready { context = context } in
          (elim out [
            | none ↦ unsent rewritten s
            | some number ↦
                let q : VideoPacket = record { header = header; payload = payload } in
                record {
                  outbound = cache_packet rewritten q p.allocated;
                  scheduler = s;
                  packet = some q;
                }
          ])

-- The packets that are sent of a sequence from one source, the first first.
unfoldable pub send_all :
    Outbound → PliScheduler → List Outgoing → Outbound × PliScheduler × List VideoPacket
send_all o scheduler [] = (o, scheduler, [])
send_all o scheduler (p ∷ ps) =
    let r = rewrite_and_send o scheduler p in
    let (o', s', sent) = send_all r.outbound r.scheduler ps in
    (o', s', elim r.packet [ none ↦ sent | some q ↦ q ∷ sent ])
