-- ===== src/Receive/Retransmitted.antt =====
-- bridge/engine/VideoForwarderRtxReceiveJob.cpp: a packet that a sender has sent once more.
use symphony_media_bridge.Common.{
  ℕ, ◌+◌, ◌*◌, ◌/◌, ◌%◌, ◌<◌, ◌≡◌, refl, sym, ◌∙◌, Bool, true, false, not, Option, none, some, [],
  ◌∷◌, if◌then◌else◌, u16_mod, arith, Bool-cases, ap, inl, inr,
}
use symphony_media_bridge.Common.Maps
use symphony_media_bridge.Common.Maps.{Map, find_entry, find-erase}
use symphony_media_bridge.Missing.{Entry, on_packet_arrived}
use symphony_media_bridge.Nack.Response.{RtpPacket, RtxContext, retransmission}
use symphony_media_bridge.Receive.{Inbound, Srtp, try_unprotect_rtp_packet}

-- The two contexts, and the packet that is handed on with its extended number.
pub record Received : Type 0 where
  pub rtx : Inbound
  pub main : Inbound
  pub forwarded : Option (RtpPacket × ℕ)

-- The packet in its original form; `none` for a payload without the two bytes of the number, where
-- the source reads past the end.
unfoldable pub original : Inbound → ℕ → RtpPacket → Option RtpPacket
original main main_ssrc p = elim p.payload [
  | [] ↦ none
  | ◌∷◌ high rest ↦ elim rest [
    | [] ↦ none
    | ◌∷◌ low payload ↦ some (record {
      ssrc = main_ssrc;
      payload_type = main.rtp_map.payload_type;
      sequence_number = high * 256 + low;
      payload = payload;
    })
  ]
]

unfoldable pub receive_retransmitted :
    (rtx main : Inbound) → (main_ssrc extended : ℕ) → (padding : Bool) → Srtp → RtpPacket → Received
receive_retransmitted rtx main main_ssrc extended padding srtp p =
    let dropped : Inbound → Received = λ c. record { rtx = c; main = main; forwarded = none } in
    if padding then dropped rtx else (elim main.tracker [
      | none ↦ dropped rtx
      | some m ↦
          let (c, opened, counter) = try_unprotect_rtp_packet rtx extended srtp in
          if not opened then dropped c else (elim (original main main_ssrc p) [
            | none ↦ dropped c
            | some q ↦
                let (m', arrived) = on_packet_arrived m q.sequence_number in
                let d : Inbound = record main { tracker = some m' } in
                (elim arrived [
                  | none ↦ record { rtx = c; main = d; forwarded = none }
                  | some e ↦ record { rtx = c; main = d; forwarded = some (q, e) }
                ])
          ])
    ])

original-retransmission :
    (main : Inbound) (c : RtxContext) (p : RtpPacket)
    → p.sequence_number < u16_mod
    → p.payload_type ≡ main.rtp_map.payload_type
    → original main p.ssrc (retransmission c p) ≡ some p
unfolding original
original-retransmission main c p small type =
    let whole : p.sequence_number / 256 % 256 * 256 + p.sequence_number % 256 ≡ p.sequence_number =
      omega (arith, small) in
    rw (whole, sym type) refl

on_packet_arrived_lem :
    (m : Map Entry) (sequence_number : ℕ) {e : Entry}
    → Maps.find m sequence_number ≡ some e
    → on_packet_arrived m sequence_number
      ≡ (Maps.erase m sequence_number, some e.extended_sequence_number)
unfolding on_packet_arrived
on_packet_arrived_lem m sequence_number missed = rw (missed, on_packet_arrived) refl

module _ (rtx main : Inbound) (main_ssrc extended : ℕ) (srtp : Srtp) (p : RtpPacket) {m : Map Entry}
    {q : RtpPacket} (tracked : main.tracker ≡ some m)
    (same : original main main_ssrc p ≡ some q) where
  arrived_lem :
      {e : Entry}
      → Maps.find m q.sequence_number ≡ some e
      → let (c, opened, counter) = try_unprotect_rtp_packet rtx extended srtp in
        opened ≡ true
        → receive_retransmitted rtx main main_ssrc extended false srtp p ≡ record {
          rtx = c;
          main = record main { tracker = some (Maps.erase m q.sequence_number) };
          forwarded = some (q, e.extended_sequence_number);
        }
  unfolding receive_retransmitted
  arrived_lem missed opened =
      rw
        (
          tracked,
          receive_retransmitted,
          opened,
          same,
          on_packet_arrived_lem m q.sequence_number missed,
        )
        (rw (on_packet_arrived_lem m q.sequence_number missed) refl)

  not_missed_lem :
      Maps.find m q.sequence_number ≡ none
      → (receive_retransmitted rtx main main_ssrc extended false srtp p).forwarded ≡ none
  unfolding receive_retransmitted on_packet_arrived
  not_missed_lem new = elim (Bool-cases ((try_unprotect_rtp_packet rtx extended srtp).1)) [
    | inl opened ↦ rw (tracked, receive_retransmitted, opened, same, new, on_packet_arrived) refl
    | inr closed ↦ rw (tracked, receive_retransmitted, closed) refl
  ]

-- A packet that another bridge sends once more is handed on exactly as it was, with the extended
-- number under which it was missed, and is not missed any more; once more it is dropped. The packet
-- is one of the main stream and was noted as missing, and both times it is opened.
pub receive_retransmitted-retransmission :
    (rtx main : Inbound) (extended : ℕ) (srtp : Srtp) (c : RtxContext) (p : RtpPacket)
    {m : Map Entry} {e : Entry}
    → p.sequence_number < u16_mod
    → p.payload_type ≡ main.rtp_map.payload_type
    → main.tracker ≡ some m
    → Maps.find m p.sequence_number ≡ some e
    → (try_unprotect_rtp_packet rtx extended srtp).1 ≡ true
    → let first = receive_retransmitted rtx main p.ssrc extended false srtp (retransmission c p) in
      (first.forwarded ≡ some (p, e.extended_sequence_number))
      × (first.main ≡ record main { tracker = some (Maps.erase m p.sequence_number) })
      × ((extended' : ℕ) (srtp' : Srtp)
          → (receive_retransmitted first.rtx first.main p.ssrc extended' false srtp'
              (retransmission c p)).forwarded
            ≡ none)
receive_retransmitted-retransmission rtx main extended srtp c p {m} {e} small type tracked missed
      opened =
    let same = original-retransmission main c p small type in
    let q = retransmission c p in
    let first = arrived_lem rtx main p.ssrc extended srtp q tracked same missed opened in
    let gone : Maps.find (Maps.erase m p.sequence_number) p.sequence_number ≡ none =
      find-erase p.sequence_number p.sequence_number m.entries ∙ ground arith in
    (
      ap (λ r. r.forwarded) first,
      ap (λ r. r.main) first,
      λ extended' srtp'.
          let d : Inbound = record main { tracker = some (Maps.erase m p.sequence_number) } in
          rw first (
            not_missed_lem _ d p.ssrc extended' srtp' q refl
              (original-retransmission d c p small type) gone),
    )
