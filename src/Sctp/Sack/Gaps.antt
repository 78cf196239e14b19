-- ===== src/Sctp/Sack/Gaps.antt =====
-- Which numbers behind the first gap the acknowledgements of transport/sctp/SctpAssociationImpl.cpp
-- cover.
use symphony_media_bridge.Common.{
  ℕ, suc, ◌+◌, ◌-◌, ◌^◌, ◌≤◌, ◌<◌, ◌≡◌, refl, ap, ◌∙◌, false, ◌&&◌, List, [], ◌∷◌, if◌then◌else◌,
  ltb, leb, ◌==◌, min, length, add32, arith, Bool-cases, inl, inr,
}
use symphony_media_bridge.Common.Values.{is_in}
use symphony_media_bridge.Sctp.{DataChunk}
use symphony_media_bridge.Sctp.Inbound.{Inbound}
use symphony_media_bridge.Sctp.Inbound.Order.{tsn_at, ack_at, IsNumbered, arrived, first_missing}
use symphony_media_bridge.Sctp.Inbound.Acks.{
  first_missing_bounds, after_gap, after_gap-IsNumbered, advance_ack_lem,
}
use symphony_media_bridge.Sctp.Sack.{
  SelectiveAck, add_ack, add_blocks, is_in_blocks, is_acknowledged, gap_blocks, prepare_sack,
}
use symphony_media_bridge.Sctp.Sack.Runs.{add_blocks-run}

-- The first run of chunks that have arrived from a place on: where it begins and ends.
abbrev pub first_run : List ℕ → ℕ → List DataChunk → ℕ × ℕ
first_run seen i [] = (i, i)
first_run seen i (c ∷ cs) =
    let later = first_run seen (suc i) cs in
    if is_in c.transmission_sequence_number seen then (i, first_missing seen (suc i) cs) else later

add_blocks-cumulative :
    (area first next last : ℕ) (ack : SelectiveAck) (cs : List DataChunk)
    → (add_blocks area ack first next last cs).cumulative_tsn_ack ≡ ack.cumulative_tsn_ack
unfolding add_blocks add_ack
add_blocks-cumulative area first next last ack [] = ground arith
add_blocks-cumulative area first next last ack (c ∷ cs) =
    let follows = c.transmission_sequence_number == next in
    add_blocks-cumulative area (if follows then first else c.transmission_sequence_number)
      (add32 next 1) (add32 next 1) (if follows then ack else add_ack area ack first last) cs
    ∙ ground arith

gap_blocks-cumulative :
    (area : ℕ) (ack : SelectiveAck) (cs : List DataChunk)
    → (gap_blocks area ack cs).cumulative_tsn_ack ≡ ack.cumulative_tsn_ack
unfolding gap_blocks
gap_blocks-cumulative area ack [] = refl
gap_blocks-cumulative area ack (c ∷ cs) =
    let tsn = c.transmission_sequence_number in
    add_blocks-cumulative area tsn (add32 tsn 1) (add32 tsn 1) ack cs

gap_blocks_lem :
    (base a area : ℕ) (seen : List ℕ) (i j : ℕ) (cs : List DataChunk) (ack : SelectiveAck)
    → a + 2 ^ 15 ≤ 2 ^ 31
    → IsNumbered base i cs
    → i + length cs < a + 2 ^ 15
    → ack.cumulative_tsn_ack ≡ ack_at base a
    → ack.gap_ack_blocks ≡ []
    → 4 ≤ area
    → a < i
    → a ≤ j
    → j < a + 2 ^ 15
    → let (f, g) = first_run seen i cs in
      is_acknowledged (gap_blocks area ack (arrived seen cs)) (tsn_at base j) ≡ (leb f j && ltb j g)
unfolding gap_blocks
gap_blocks_lem base a area seen i j [] ack few n small e none room li lj hj =
    let nothing : (leb i j && ltb j i) ≡ false = ground arith in
    rw nothing (ap (λ (bs : List (ℕ × ℕ)). is_in_blocks ack bs (tsn_at base j)) none)
gap_blocks_lem base a area seen i j (c ∷ cs) ack few (here, n) small e none room li lj hj =
    elim (Bool-cases (is_in c.transmission_sequence_number seen)) [
      | inr absent ↦ rw absent (
          gap_blocks_lem base a area seen (suc i) j cs ack few n (omega (arith, small)) e none room
            (omega (arith, li)) lj hj)
      | inl got ↦
          let next : add32 (tsn_at base i) 1 ≡ tsn_at base (suc i) = omega arith in
          let run =
            add_blocks-run base a area few seen i (suc i) j cs ack n (omega (arith, small)) e none
              room li (omega arith) lj hj in
          let begun : add_blocks area ack c.transmission_sequence_number
                (add32 c.transmission_sequence_number 1) (add32 c.transmission_sequence_number 1)
                (arrived seen cs)
              ≡ add_blocks area ack (tsn_at base i) (tsn_at base (suc i)) (tsn_at base (suc i))
                  (arrived seen cs) =
            ap (λ (t : ℕ). add_blocks area ack t (add32 t 1) (add32 t 1) (arrived seen cs)) here
            ∙ (ap (λ (t : ℕ). add_blocks area ack (tsn_at base i) t t (arrived seen cs)) next) in
          rw got (ap (λ (k : SelectiveAck). is_acknowledged k (tsn_at base j)) begun ∙ run)
    ]

-- An acknowledgement names the last number before the first gap of the chunks that have arrived,
-- and its blocks cover the first run of chunks behind that gap, each of them and no other number:
-- what has arrived behind a second gap is not acknowledged. The chunks reach less than 2 ^ 15
-- numbers beyond the cumulative one, and the packet has room for a block.
pub prepare_sack_lem :
    (base acknowledged i j mtu : ℕ) (seen : List ℕ) (cs : List DataChunk) (s : Inbound)
    → IsNumbered base i cs
    → s.cumulative_ack ≡ ack_at base acknowledged
    → s.chunks ≡ arrived seen cs
    → i ≤ acknowledged
    → acknowledged ≤ first_missing seen i cs
    → i + length cs < 2 ^ 30
    → 32 ≤ mtu
    → i + length cs < first_missing seen i cs + 2 ^ 15 - 1
    → first_missing seen i cs ≤ j
    → j < first_missing seen i cs + 2 ^ 15
    → let (t, ack) = prepare_sack s mtu in
      let a = first_missing seen i cs in
      let (f, g) = first_run seen (suc a) (after_gap seen cs) in
      (t.cumulative_ack ≡ ack_at base a)
      × (ack.cumulative_tsn_ack ≡ ack_at base a)
      × (is_acknowledged ack (tsn_at base j) ≡ (leb f j && ltb j g))
unfolding prepare_sack
prepare_sack_lem base acknowledged i j mtu seen cs s n e held from upto small room near lj hj =
    let a = first_missing seen i cs in
    let moved = advance_ack_lem base seen acknowledged i cs n (omega (arith, small)) from upto in
    let (m, size) = after_gap-IsNumbered base seen i cs n in
    let (low, high) = first_missing_bounds seen i cs in
    let ack : SelectiveAck = record {
      cumulative_tsn_ack = ack_at base a;
      advertised_receiver_window = s.advertised_receive_window;
      gap_ack_blocks = [];
    } in
    let covers =
      gap_blocks_lem base a (min 2048 (mtu - 12 - 16)) seen (suc a) j (after_gap seen cs) ack
        (omega (arith, small, high)) m (omega (arith, size, near)) refl refl (omega (arith, room))
        (omega arith) lj hj in
    let kept =
      gap_blocks-cumulative (min 2048 (mtu - 12 - 16)) ack (arrived seen (after_gap seen cs)) in
    rw (held, e, moved) (refl, kept, covers)
