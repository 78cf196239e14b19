-- ===== src/Receive/Video/Gaps.antt =====
-- What bridge/engine/VideoForwarderReceiveJob.cpp notes as missing.
use symphony_media_bridge.Common.{
  ℕ, zero, suc, ◌+◌, ◌-◌, ◌/◌, ◌%◌, ◌^◌, ◌≤◌, ◌<◌, ◌≡◌, refl, sym, ap, ◌∙◌, Bool, true, false, not,
  ◌&&◌, ◌||◌, some, if◌then◌else◌, ltb, leb, ◌==◌, ==_iff, u16_mod, u32_mod, add32, sub16, sub32,
  sle32, arith, Bool-cases, Option-cases, inl, inr,
}
use symphony_media_bridge.Common.Maps
use symphony_media_bridge.Common.Maps.{Map, find_entry}
use symphony_media_bridge.Missing.{Entry, ms, max_missing_packets, on_missing_packet, reset}
use symphony_media_bridge.Receive.{
  Inbound, Srtp, should_send_pli, should_set_rollover_counter, try_unprotect_rtp_packet,
}
use symphony_media_bridge.Receive.Video.{
  Arrival, is_key_frame, look_for_key_frame, note_missing, track, receive_video,
}

-- One more number.
on_missing_packet_lem :
    (m : Map Entry) (next timestamp : ℕ)
    → m.capacity ≡ max_missing_packets
    → Maps.size m < max_missing_packets
    → let (m', noted) = on_missing_packet m next timestamp in
      (noted ≡ true)
      × (m'.capacity ≡ max_missing_packets)
      × (Maps.size m' ≤ suc (Maps.size m))
      × ((j : ℕ) → Maps.contains m' j ≡ (Maps.contains m j || next % u16_mod == j))
unfolding on_missing_packet find_entry
on_missing_packet_lem m next timestamp cap room =
    let free : leb max_missing_packets (Maps.size m) ≡ false = ground arith in
    let free' : ltb (Maps.size m) m.capacity ≡ true = ground (arith, cap) in
    elim (Option-cases (Maps.find m (next % u16_mod))) [
      | inl new ↦ rw (free, new, free') (refl, cap, omega arith, λ j. ground arith)
      | inr (e, old) ↦
          rw (free, old)
            (refl, cap, omega arith, λ j. ground (arith, old, ==_iff (next % u16_mod) j))
    ]

or_assoc : (a b c : Bool) → ((a || b) || c) ≡ (a || (b || c))
or_assoc true b c = refl
or_assoc false b c = refl

next_distance :
    (j next n : ℕ)
    → j < u16_mod
    → n < 2 ^ 15
    → (next % u16_mod == j || ltb (sub16 j (add32 next 1 % u16_mod)) n)
      ≡ ltb (sub16 j (next % u16_mod)) (suc n)
next_distance j next n small few =
    let r = next % u16_mod in
    let below : r < u16_mod = omega arith in
    let moved : add32 next 1 % u16_mod ≡ (r + 1) % u16_mod = omega arith in
    rw moved (elim (Bool-cases (r == j)) [
      | inl this ↦
          let e : r ≡ j = (==_iff r j).0 this in
          let zero_apart : sub16 j r ≡ 0 = omega (arith, e, small) in
          rw (this, zero_apart) (ground arith)
      | inr other ↦
          let apart : sub16 j r ≡ suc (sub16 j ((r + 1) % u16_mod)) =
            ground (arith, other, below, small) in
          rw (other, apart) (ground arith)
    ])

note_missing_lem :
    (n : ℕ) (m : Map Entry) (next timestamp : ℕ)
    → m.capacity ≡ max_missing_packets
    → Maps.size m + n ≤ max_missing_packets
    → (j : ℕ) → j < u16_mod
    → Maps.contains (note_missing n m next timestamp) j
      ≡ (Maps.contains m j || ltb (sub16 j (next % u16_mod)) n)
unfolding note_missing
note_missing_lem zero m next timestamp cap room j small = ground arith
note_missing_lem (suc n) m next timestamp cap room j small =
    let (noted, cap', size, there) =
      on_missing_packet_lem m next timestamp cap (omega (arith, room)) in
    let rest =
      note_missing_lem n (on_missing_packet m next timestamp).0 (add32 next 1) timestamp cap'
        (omega (arith, room, size)) j small in
    rw noted (
      rest
      ∙ (rw (there j, sym (next_distance j next n small (omega (arith, room))))
          (or_assoc (Maps.contains m j) _ _)))

-- Decryption touches neither the tracker nor the last number.
abbrev IsFrame : Inbound → Inbound → Type 0
IsFrame c d =
    (d.tracker ≡ c.tracker)
    × (d.last_received_extended_sequence_number ≡ c.last_received_extended_sequence_number)
    × (d.rtp_map ≡ c.rtp_map)

try_unprotect_rtp_packet-IsFrame :
    (c : Inbound) (extended : ℕ) (srtp : Srtp)
    → IsFrame c (try_unprotect_rtp_packet c extended srtp).0
unfolding try_unprotect_rtp_packet
try_unprotect_rtp_packet-IsFrame c extended srtp = elim (Bool-cases c.has_decrypted_packets) [
  | inr first ↦ elim (Bool-cases srtp.first_opened) [
    | inl e ↦ rw (first, e) (refl, refl, refl)
    | inr e ↦ rw (first, e) (refl, refl, refl)
  ]
  | inl later ↦
      let sets = should_set_rollover_counter c.last_unprotected_extended_sequence_number extended in
      elim (Bool-cases (sets && not srtp.counter_set)) [
        | inl e ↦ rw (later, e) (refl, refl, refl)
        | inr e ↦ elim (Bool-cases srtp.opened) [
          | inl e2 ↦ rw (later, e, e2) (refl, refl, refl)
          | inr e2 ↦ rw (later, e, e2) (refl, refl, refl)
        ]
      ]
]

look_for_key_frame_lem :
    (c : Inbound) (p : Arrival) {m : Map Entry}
    → c.tracker ≡ some m
    → let (d, pli) = look_for_key_frame c p in
      (d.tracker ≡ some (if is_key_frame c.rtp_map.format p.payload then reset m else m))
      × (d.last_received_extended_sequence_number ≡ c.last_received_extended_sequence_number)
unfolding look_for_key_frame
look_for_key_frame_lem c p {m} e = elim (Bool-cases (is_key_frame c.rtp_map.format p.payload)) [
  | inl key ↦ rw (e, look_for_key_frame, key) (refl, refl)
  | inr other ↦
      elim (Bool-cases
        (should_send_pli c.pli_scheduler p.timestamp (p.rtt / ms % u32_mod) && p.connected)) [
          | inl sends ↦ rw (e, look_for_key_frame, other, sends) (e, refl)
          | inr quiet ↦ rw (e, look_for_key_frame, other, quiet) (e, refl)
        ]
]

track_gap :
    (c : Inbound) (m : Map Entry) (p : Arrival)
    → let last = c.last_received_extended_sequence_number in
      let advance = sub32 p.extended last in
      2 ≤ advance
      → advance < max_missing_packets
      → (track c m p).last_received_extended_sequence_number ≡ p.extended
        × ((track c m p).tracker ≡ some (note_missing (advance - 1) m (add32 last 1) p.timestamp))
unfolding track
track_gap c m p gap few =
    let advance = sub32 p.extended c.last_received_extended_sequence_number in
    let not_next : (advance == 1) ≡ false = ground (arith, gap) in
    let ahead : sle32 advance 0 ≡ false = ground (arith, gap, few) in
    let not_immense : leb max_missing_packets advance ≡ false = ground (arith, few) in
    rw (not_next, ahead, not_immense) (refl, refl)

-- A key frame empties the tracker.
after_key :
    (key : Bool) (m : Map Entry)
    → m.capacity ≡ max_missing_packets
    → let m' : Map Entry = if key then reset m else m in
      (m'.capacity ≡ max_missing_packets)
      × (Maps.size m' ≤ Maps.size m)
      × ((j : ℕ) → Maps.contains m' j ≡ (not key && Maps.contains m j))
unfolding reset find_entry
after_key true m cap = (cap, omega arith, λ j. refl)
after_key false m cap = (cap, omega arith, λ j. refl)

-- The numbers of the gap, counted from the last one.
in_gap :
    (m : Map Entry) (last advance timestamp : ℕ)
    → m.capacity ≡ max_missing_packets
    → 2 ≤ advance
    → Maps.size m + advance ≤ suc max_missing_packets
    → (j : ℕ) → j < u16_mod
    → Maps.contains (note_missing (advance - 1) m (add32 last 1) timestamp) j
      ≡ (Maps.contains m j || (not (last % u16_mod == j) && ltb (sub16 j (last % u16_mod)) advance))
in_gap m last advance timestamp cap gap room j small =
    let noted =
      note_missing_lem (advance - 1) m (add32 last 1) timestamp cap (omega (arith, gap, room)) j
        small in
    let counted = next_distance j last (advance - 1) small (omega (arith, gap, room)) in
    let all : suc (advance - 1) ≡ advance = omega (arith, gap) in
    noted ∙ (elim (Bool-cases (last % u16_mod == j)) [
      | inr other ↦ rw other (ap (λ b. Maps.contains m j || b) (rw (other, all) at counted))
      | inl this ↦
          let e : last % u16_mod ≡ j = (==_iff (last % u16_mod) j).0 this in
          let far : sub16 j (add32 last 1 % u16_mod) ≡ 65535 = omega (arith, e, small) in
          let not_near : ltb 65535 (advance - 1) ≡ false = ground (arith, room) in
          rw (this, far, not_near) refl
    ])

-- A packet that leaves a gap of fewer than 128 numbers is handed on, and the numbers of the gap are
-- noted as missing besides those that are noted already, and no others; a key frame clears those
-- before. The packet is opened, it is not the first one, and there is room for the gap in a tracker
-- of the usual size.
pub receive_video_gap :
    (c : Inbound) (srtp : Srtp) (p : Arrival) {m : Map Entry}
    → c.tracker ≡ some m
    → m.capacity ≡ max_missing_packets
    → (try_unprotect_rtp_packet c p.extended srtp).1 ≡ true
    → let last = c.last_received_extended_sequence_number in
      let advance = sub32 p.extended last in
      let key = is_key_frame c.rtp_map.format p.payload in
      2 ≤ advance
      → advance < max_missing_packets
      → Maps.size m + advance ≤ suc max_missing_packets
      → let (d, pli, forwarded) = receive_video c srtp p in
        (forwarded ≡ some p.extended)
        × (d.last_received_extended_sequence_number ≡ p.extended)
        × (m' : Map Entry) × (d.tracker ≡ some m')
        × ((j : ℕ)
            → j < u16_mod
            → Maps.contains m' j ≡ (
                (not key && Maps.contains m j)
                || (not (last % u16_mod == j) && ltb (sub16 j (last % u16_mod)) advance)))
unfolding receive_video
receive_video_gap c srtp p {m} e cap opened gap few room =
    let u = (try_unprotect_rtp_packet c p.extended srtp).0 in
    let (tracker, last, format) = try_unprotect_rtp_packet-IsFrame c p.extended srtp in
    let key = is_key_frame c.rtp_map.format p.payload in
    let (found, same) = look_for_key_frame_lem u p (tracker ∙ e) in
    let m0 : Map Entry = if key then reset m else m in
    let v = (look_for_key_frame u p).0 in
    let found' : v.tracker ≡ some m0 = found ∙ rw format refl in
    let same' : v.last_received_extended_sequence_number
        ≡ c.last_received_extended_sequence_number =
      same ∙ last in
    let (moved, tracked) = track_gap v m0 p (rw same' gap) (rw same' few) in
    let tracked' = rw same' at tracked in
    let (cap', size, there) = after_key key m cap in
    rw (opened, found')
      (
        refl,
        moved,
        _,
        tracked',
        λ j small.
            in_gap m0 _ _ p.timestamp cap' gap (omega (arith, room, size)) j small
            ∙ rw (there j) refl,
      )
