-- ===== src/Sctp/Sack/Runs.antt =====
-- The second loop of `prepareSack` of transport/sctp/SctpAssociationImpl.cpp, and what its blocks
-- cover.
use symphony_media_bridge.Common.{
  ℕ, suc, ◌+◌, ◌/◌, ◌^◌, ◌≤◌, ◌<◌, ◌≡◌, ap, ◌∙◌, true, false, ◌&&◌, ◌||◌, List, [], ◌∷◌, ltb, leb,
  ◌==◌, length, add32, arith, Bool-cases, inl, inr,
}
use symphony_media_bridge.Common.Values.{is_in}
use symphony_media_bridge.Sctp.{DataChunk}
use symphony_media_bridge.Sctp.Inbound.Order.{
  tsn_at, ack_at, IsNumbered, arrived, first_missing, same_at,
}
use symphony_media_bridge.Sctp.Sack.{SelectiveAck, add_ack, add_blocks, is_acknowledged}
use symphony_media_bridge.Sctp.Sack.Blocks.{or_false, add_ack_lem, first_block}

add_blocks-gap :
    (area : ℕ) (ack : SelectiveAck) (first next last tsn next' : ℕ) (c : DataChunk)
    (cs : List DataChunk)
    → (c.transmission_sequence_number == next) ≡ false
    → c.transmission_sequence_number ≡ tsn
    → add32 next 1 ≡ next'
    → add_blocks area ack first next last (c ∷ cs)
      ≡ add_blocks area (add_ack area ack first last) tsn next' next' cs
unfolding add_blocks
add_blocks-gap area ack first next last tsn next' c cs gap e e' =
    rw (gap, add_blocks)
      (ap
          (λ (t : ℕ).
            add_blocks area (add_ack area ack first last) t (add32 next 1) (add32 next 1) cs)
          e
        ∙ (ap (λ (t : ℕ). add_blocks area (add_ack area ack first last) tsn t t cs) e'))

add_blocks-follows :
    (area : ℕ) (ack : SelectiveAck) (first next last next' : ℕ) (c : DataChunk)
    (cs : List DataChunk)
    → (c.transmission_sequence_number == next) ≡ true
    → add32 next 1 ≡ next'
    → add_blocks area ack first next last (c ∷ cs) ≡ add_blocks area ack first next' next' cs
unfolding add_blocks
add_blocks-follows area ack first next last next' c cs follows e' =
    rw (follows, add_blocks) (ap (λ (t : ℕ). add_blocks area ack first t t cs) e')

module _ (base a area : ℕ) (few : a + 2 ^ 15 ≤ 2 ^ 31) where
  -- Behind a gap the blocks have no places: the number at which the next one should end stays
  -- behind.
  add_blocks-behind :
      (seen : List ℕ) (b x i j : ℕ) (cs : List DataChunk) (ack : SelectiveAck)
      → IsNumbered base i cs
      → i + length cs ≤ a + 2 ^ 15
      → ack.cumulative_tsn_ack ≡ ack_at base a
      → a < x
      → x ≤ b
      → b < i
      → a ≤ j
      → j < a + 2 ^ 15
      → is_acknowledged
          (add_blocks area ack (tsn_at base b) (tsn_at base x) (tsn_at base x) (arrived seen cs))
          (tsn_at base j)
        ≡ is_acknowledged ack (tsn_at base j)
  unfolding add_blocks
  add_blocks-behind seen b x i j [] ack n small e lx le lb lj hj =
      let empty : (leb (length ack.gap_ack_blocks + 1) (area / 4) || leb x b) ≡ true =
        ground (arith, le) in
      let none : (leb b j && ltb j x) ≡ false = ground (arith, le) in
      let (acks, covers) =
        add_ack_lem base a area few ack b x j e (omega (arith, lx, le)) (omega (arith, lb, small))
          lx (omega (arith, le, lb, small)) lj hj empty in
      covers ∙ (rw none (or_false (is_acknowledged ack (tsn_at base j))))
  add_blocks-behind seen b x i j (c ∷ cs) ack (here, n) small e lx le lb lj hj =
      elim (Bool-cases (is_in c.transmission_sequence_number seen)) [
        | inr absent ↦ rw absent (
            add_blocks-behind seen b x (suc i) j cs ack n (omega (arith, small)) e lx le
              (omega (arith, lb)) lj hj)
        | inl got ↦
            let gap : (c.transmission_sequence_number == tsn_at base x) ≡ false = rw here (
              same_at base i x (omega (arith, small, few)) (omega (arith, le, lb, small, few))
              ∙ (ground (arith, le, lb))) in
            let empty : (leb (length ack.gap_ack_blocks + 1) (area / 4) || leb x b) ≡ true =
              ground (arith, le) in
            let none : (leb b j && ltb j x) ≡ false = ground (arith, le) in
            let (acks, covers) =
              add_ack_lem base a area few ack b x j e (omega (arith, lx, le))
                (omega (arith, lb, small)) lx (omega (arith, le, lb, small)) lj hj empty in
            let next : add32 (tsn_at base x) 1 ≡ tsn_at base (suc x) = omega arith in
            let rest =
              add_blocks-behind seen i (suc x) (suc i) j cs
                (add_ack area ack (tsn_at base b) (tsn_at base x)) n (omega (arith, small)) acks
                (omega (arith, lx)) (omega (arith, le, lb)) (omega arith) lj hj in
            let step =
              add_blocks-gap area ack (tsn_at base b) (tsn_at base x) (tsn_at base x)
                (tsn_at base i) (tsn_at base (suc x)) c (arrived seen cs) gap here next in
            let quiet : is_acknowledged (add_ack area ack (tsn_at base b) (tsn_at base x))
                  (tsn_at base j)
                ≡ is_acknowledged ack (tsn_at base j) =
              covers ∙ (rw none (or_false (is_acknowledged ack (tsn_at base j)))) in
            rw got
              (ap (λ (k : SelectiveAck). is_acknowledged k (tsn_at base j)) step ∙ rest ∙ quiet)
      ]

  -- The run before a gap is covered, and nothing behind the gap.
  add_blocks-gap_next :
      (seen : List ℕ) (f x i j : ℕ) (cs : List DataChunk) (ack : SelectiveAck)
      → IsNumbered base i cs
      → i + length cs ≤ a + 2 ^ 15
      → ack.cumulative_tsn_ack ≡ ack_at base a
      → ack.gap_ack_blocks ≡ []
      → 4 ≤ area
      → a < f
      → f < x
      → x < i
      → a ≤ j
      → j < a + 2 ^ 15
      → is_acknowledged
          (add_blocks area ack (tsn_at base f) (tsn_at base x) (tsn_at base x) (arrived seen cs))
          (tsn_at base j)
        ≡ (leb f j && ltb j x)
  unfolding add_blocks
  add_blocks-gap_next seen f x i j [] ack n small e none room lf lx li lj hj =
      let (acks, covers) =
        first_block base a area few ack f x j e none room lf lx (omega (arith, li, small)) lj hj in
      covers
  add_blocks-gap_next seen f x i j (c ∷ cs) ack (here, n) small e none room lf lx li lj hj =
      elim (Bool-cases (is_in c.transmission_sequence_number seen)) [
        | inr absent ↦ rw absent (
            add_blocks-gap_next seen f x (suc i) j cs ack n (omega (arith, small)) e none room lf lx
              (omega (arith, li)) lj hj)
        | inl got ↦
            let gap : (c.transmission_sequence_number == tsn_at base x) ≡ false = rw here (
              same_at base i x (omega (arith, small, few)) (omega (arith, li, small, few))
              ∙ (ground (arith, li))) in
            let (acks, covers) =
              first_block base a area few ack f x j e none room lf lx (omega (arith, li, small)) lj
                hj in
            let next : add32 (tsn_at base x) 1 ≡ tsn_at base (suc x) = omega arith in
            let rest =
              add_blocks-behind seen i (suc x) (suc i) j cs
                (add_ack area ack (tsn_at base f) (tsn_at base x)) n (omega (arith, small)) acks
                (omega (arith, lf, lx)) (omega (arith, li)) (omega arith) lj hj in
            let step =
              add_blocks-gap area ack (tsn_at base f) (tsn_at base x) (tsn_at base x)
                (tsn_at base i) (tsn_at base (suc x)) c (arrived seen cs) gap here next in
            rw got
              (ap (λ (k : SelectiveAck). is_acknowledged k (tsn_at base j)) step ∙ rest ∙ covers)
      ]

  pub add_blocks-run :
      (seen : List ℕ) (f i j : ℕ) (cs : List DataChunk) (ack : SelectiveAck)
      → IsNumbered base i cs
      → i + length cs < a + 2 ^ 15
      → ack.cumulative_tsn_ack ≡ ack_at base a
      → ack.gap_ack_blocks ≡ []
      → 4 ≤ area
      → a < f
      → f < i
      → a ≤ j
      → j < a + 2 ^ 15
      → is_acknowledged
          (add_blocks area ack (tsn_at base f) (tsn_at base i) (tsn_at base i) (arrived seen cs))
          (tsn_at base j)
        ≡ (leb f j && ltb j (first_missing seen i cs))
  unfolding add_blocks
  add_blocks-run seen f i j [] ack n small e none room lf lx lj hj =
      (first_block base a area few ack f i j e none room lf lx (omega (arith, small)) lj hj).1
  add_blocks-run seen f i j (c ∷ cs) ack (here, n) small e none room lf lx lj hj =
      elim (Bool-cases (is_in c.transmission_sequence_number seen)) [
        | inr absent ↦ rw absent (
            add_blocks-gap_next seen f i (suc i) j cs ack n (omega (arith, small)) e none room lf lx
              (omega arith) lj hj)
        | inl got ↦
            let follows : (c.transmission_sequence_number == tsn_at base i) ≡ true =
              ground (arith, here) in
            let next : add32 (tsn_at base i) 1 ≡ tsn_at base (suc i) = omega arith in
            let rest =
              add_blocks-run seen f (suc i) j cs ack n (omega (arith, small)) e none room lf
                (omega (arith, lx)) lj hj in
            let step =
              add_blocks-follows area ack (tsn_at base f) (tsn_at base i) (tsn_at base i)
                (tsn_at base (suc i)) c (arrived seen cs) follows next in
            rw got (ap (λ (k : SelectiveAck). is_acknowledged k (tsn_at base j)) step ∙ rest)
      ]
