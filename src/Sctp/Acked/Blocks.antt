-- ===== src/Sctp/Acked/Blocks.antt =====
-- The blocks of an acknowledgement, as `onSackReceived` of transport/sctp/SctpAssociationImpl.cpp
-- walks over them.
use symphony_media_bridge.Common.{
  ℕ, ◌+◌, ◌^◌, ◌≤◌, ◌<◌, ◌≡◌, refl, sym, ◌∙◌, false, ◌&&◌, List, [], ◌∷◌, ltb, leb, u16_mod, add32,
  slt32, arith, Bool-cases, inl, inr,
}
use symphony_media_bridge.Sctp.{diff}
use symphony_media_bridge.Sctp.Inbound.Order.{tsn_at}
use symphony_media_bridge.Sctp.Sack.{SelectiveAck, is_inside, is_in_blocks}
use symphony_media_bridge.Sctp.Acked.{find_block, is_inside_block}

-- The blocks are words, and they begin in order.
abbrev pub AreBlocks : ℕ → List (ℕ × ℕ) → Type 0
AreBlocks lo [] = Unit
AreBlocks lo ((first, last) ∷ bs) =
    (lo ≤ first) × (first < u16_mod) × (last < u16_mod) × AreBlocks first bs

module _ (base k : ℕ) (ack : SelectiveAck) (cumulative : ack.cumulative_tsn_ack ≡ tsn_at base k)
    (small : k < 2 ^ 30) where
  -- A block has the places from its first to its last one.
  is_inside_lem :
      (first last i tsn : ℕ)
      → first < u16_mod
      → last < u16_mod
      → i < 2 ^ 30
      → tsn ≡ tsn_at base i
      → is_inside ack (first, last) tsn ≡ (leb (k + first) i && leb i (k + last))
  is_inside_lem first last i tsn f l near e = rw (e, cumulative) (ground (arith, f, l, near, small))

  behind_lem :
      (last i tsn : ℕ)
      → last < u16_mod
      → i < 2 ^ 30
      → tsn ≡ tsn_at base i
      → slt32 0 (diff (add32 last ack.cumulative_tsn_ack) tsn) ≡ ltb (k + last) i
  behind_lem last i tsn l near e = rw (e, cumulative) (ground (arith, l, near, small))

  before_lem :
      (first i tsn : ℕ)
      → first < u16_mod
      → i < 2 ^ 30
      → tsn ≡ tsn_at base i
      → slt32 0 (diff tsn (add32 first ack.cumulative_tsn_ack)) ≡ ltb i (k + first)
  before_lem first i tsn f near e = rw (e, cumulative) (ground (arith, f, near, small))

  AreBlocks-low : (lo lo' : ℕ) (bs : List (ℕ × ℕ)) → lo ≤ lo' → AreBlocks lo' bs → AreBlocks lo bs
  AreBlocks-low lo lo' [] less a = tt
  AreBlocks-low lo lo' ((first, last) ∷ bs) less (from, f, l, a) =
      (omega (arith, less, from), f, l, a)

  in_no_later_block :
      (lo i tsn : ℕ) (bs : List (ℕ × ℕ))
      → AreBlocks lo bs
      → i < k + lo
      → i < 2 ^ 30
      → tsn ≡ tsn_at base i
      → is_in_blocks ack bs tsn ≡ false
  in_no_later_block lo i tsn [] a before near e = refl
  in_no_later_block lo i tsn ((first, last) ∷ bs) (from, f, l, a) before near e =
      let here = is_inside_lem first last i tsn f l near e in
      let later = in_no_later_block first i tsn bs a (omega (arith, before, from)) near e in
      rw (here, later) (ground (arith, before, from))

  -- The block that is found tells whether any has the chunk, and those that are left serve for all
  -- later chunks.
  pub find_block_lem :
      (lo i tsn : ℕ) (bs : List (ℕ × ℕ))
      → AreBlocks lo bs
      → i < 2 ^ 30
      → tsn ≡ tsn_at base i
      → let (verdict, bs') = find_block ack bs tsn in
        (is_inside_block verdict ≡ is_in_blocks ack bs tsn)
        × AreBlocks lo bs'
        × ((j tsn' : ℕ)
            → i ≤ j
            → j < 2 ^ 30
            → tsn' ≡ tsn_at base j
            → is_in_blocks ack bs' tsn' ≡ is_in_blocks ack bs tsn')
  find_block_lem lo i tsn [] a near e = (refl, tt, λ j tsn' le near' e'. refl)
  find_block_lem lo i tsn ((first, last) ∷ bs) (from, f, l, a) near e =
      let (same, kept, after) = find_block_lem first i tsn bs a near e in
      let behind = behind_lem last i tsn l near e in
      let before = before_lem first i tsn f near e in
      elim (Bool-cases (ltb (k + last) i)) [
        | inl passed ↦
            rw (behind, passed)
              (
                same,
                AreBlocks-low lo first _ from kept,
                λ (j : ℕ) (tsn' : ℕ) (le : i ≤ j) (near' : j < 2 ^ 30) (e' : tsn' ≡ tsn_at base j).
                    let there : is_inside ack (first, last) tsn' ≡ false =
                      is_inside_lem first last j tsn' f l near' e' ∙ (ground (arith, passed, le)) in
                    rw there (after j tsn' le near' e'),
              )
        | inr left ↦ elim (Bool-cases (ltb i (k + first))) [
          | inl early ↦
              let none_later = in_no_later_block first i tsn bs a (ground (arith, early)) near e in
              rw (behind, left, before, early)
                (sym none_later, (from, f, l, a), λ j tsn' le near' e'. refl)
          | inr late ↦
              rw (behind, left, before, late) (refl, (from, f, l, a), λ j tsn' le near' e'. refl)
        ]
      ]
