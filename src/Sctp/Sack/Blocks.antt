-- ===== src/Sctp/Sack/Blocks.antt =====
-- What one block of an acknowledgement of transport/sctp covers.
use symphony_media_bridge.Common.{
  ℕ, suc, ◌+◌, ◌-◌, ◌/◌, ◌%◌, ◌^◌, ◌≤◌, ◌<◌, ◌≡◌, refl, sym, ap, ◌∙◌, Bool, true, false, not, ◌&&◌,
  ◌||◌, List, [], ◌∷◌, ◌++◌, ltb, leb, length, u16_mod, add32, sub32, arith, Bool-cases, inl, inr,
}
use symphony_media_bridge.Sctp.Inbound.Order.{tsn_at, ack_at, less_at}
use symphony_media_bridge.Sctp.Sack.{
  SelectiveAck, add_ack, is_inside, is_in_blocks, is_acknowledged,
}

-- A block from one place up to another covers the places between; one whose end is not behind its
-- start covers none.
inside_at :
    (base a f g j : ℕ) (ack : SelectiveAck)
    → ack.cumulative_tsn_ack ≡ ack_at base a
    → a < f
    → f < a + 2 ^ 15
    → a < g
    → g < a + 2 ^ 15
    → a ≤ j
    → j < a + 2 ^ 15
    → a + 2 ^ 15 ≤ 2 ^ 31
    → is_inside ack
        (
          sub32 (tsn_at base f) ack.cumulative_tsn_ack % u16_mod,
          sub32 (sub32 (tsn_at base g) 1) ack.cumulative_tsn_ack % u16_mod,
        )
        (tsn_at base j)
      ≡ (leb f j && ltb j g)
inside_at base a f g j ack e lf hf lg hg lj hj few =
    let first : sub32 (tsn_at base f) (ack_at base a) % u16_mod ≡ suc (f - a) = omega arith in
    let last : sub32 (sub32 (tsn_at base g) 1) (ack_at base a) % u16_mod ≡ g - a = omega arith in
    let first' : add32 (suc (f - a)) (ack_at base a) ≡ tsn_at base f = omega arith in
    let last' : add32 (g - a) (ack_at base a) ≡ tsn_at base (g - 1) = omega arith in
    let ends = less_at base (g - 1) j (omega (arith, hg, few)) (omega (arith, hj, few)) in
    let begins = less_at base j f (omega (arith, hj, few)) (omega (arith, hf, few)) in
    let order : (not (ltb (g - 1) j) && not (ltb j f)) ≡ (leb f j && ltb j g) =
      ground (arith, lf, lg) in
    rw (e, first, last, first', last', ends, begins) order

is_in_blocks-append :
    (ack : SelectiveAck) (bs cs : List (ℕ × ℕ)) (tsn : ℕ)
    → is_in_blocks ack (bs ++ cs) tsn ≡ (is_in_blocks ack bs tsn || is_in_blocks ack cs tsn)
is_in_blocks-append ack [] cs tsn = refl
is_in_blocks-append ack (b ∷ bs) cs tsn = ground (arith, is_in_blocks-append ack bs cs tsn)

pub or_false : (b : Bool) → (b || false) ≡ b
or_false true = refl
or_false false = refl

module _ (base a area : ℕ) (few : a + 2 ^ 15 ≤ 2 ^ 31) where
  -- What is covered does not depend on the blocks that an acknowledgement has besides.
  is_in_blocks-same :
      (ack ack' : SelectiveAck) (bs : List (ℕ × ℕ)) (tsn : ℕ)
      → ack.cumulative_tsn_ack ≡ ack'.cumulative_tsn_ack
      → is_in_blocks ack bs tsn ≡ is_in_blocks ack' bs tsn
  is_in_blocks-same ack ack' [] tsn e = refl
  is_in_blocks-same ack ack' (b ∷ bs) tsn e = rw (e, is_in_blocks-same ack ack' bs tsn e) refl

  -- A block covers its places besides, where there is room for it or it has none.
  pub add_ack_lem :
      (ack : SelectiveAck) (f g j : ℕ)
      → ack.cumulative_tsn_ack ≡ ack_at base a
      → a < f
      → f < a + 2 ^ 15
      → a < g
      → g < a + 2 ^ 15
      → a ≤ j
      → j < a + 2 ^ 15
      → (leb (length ack.gap_ack_blocks + 1) (area / 4) || leb g f) ≡ true
      → let ack' = add_ack area ack (tsn_at base f) (tsn_at base g) in
        (ack'.cumulative_tsn_ack ≡ ack_at base a)
        × (is_acknowledged ack' (tsn_at base j)
            ≡ (is_acknowledged ack (tsn_at base j) || (leb f j && ltb j g)))
  unfolding add_ack
  add_ack_lem ack f g j e lf hf lg hg lj hj fits =
      elim (Bool-cases (ltb (area / 4) (length ack.gap_ack_blocks + 1))) [
        | inl full ↦
            let none : (leb f j && ltb j g) ≡ false = ground (arith, fits, full) in
            rw (full, none) (e, sym (or_false (is_acknowledged ack (tsn_at base j))))
        | inr room ↦
            let block : ℕ × ℕ = (
              sub32 (tsn_at base f) ack.cumulative_tsn_ack % u16_mod,
              sub32 (sub32 (tsn_at base g) 1) ack.cumulative_tsn_ack % u16_mod,
            ) in
            let ack' : SelectiveAck = record ack {
              gap_ack_blocks = ack.gap_ack_blocks ++ (block ∷ []);
            } in
            let inside = inside_at base a f g j ack e lf hf lg hg lj hj few in
            let same =
              is_in_blocks-same ack' ack (ack.gap_ack_blocks ++ (block ∷ [])) (tsn_at base j)
                refl in
            let both = is_in_blocks-append ack ack.gap_ack_blocks (block ∷ []) (tsn_at base j) in
            rw room (
              e,
              same
                  ∙ both
                  ∙ (ap (λ (t : Bool). is_acknowledged ack (tsn_at base j) || t)
                      (or_false (is_inside ack block (tsn_at base j)) ∙ inside)),
            )
      ]

  pub first_block :
      (ack : SelectiveAck) (f g j : ℕ)
      → ack.cumulative_tsn_ack ≡ ack_at base a
      → ack.gap_ack_blocks ≡ []
      → 4 ≤ area
      → a < f
      → f < g
      → g < a + 2 ^ 15
      → a ≤ j
      → j < a + 2 ^ 15
      → let ack' = add_ack area ack (tsn_at base f) (tsn_at base g) in
        (ack'.cumulative_tsn_ack ≡ ack_at base a)
        × (is_acknowledged ack' (tsn_at base j) ≡ (leb f j && ltb j g))
  first_block ack f g j e none room lf lg hg lj hj =
      let size : length ack.gap_ack_blocks ≡ 0 = ap length none in
      let fits : (leb (length ack.gap_ack_blocks + 1) (area / 4) || leb g f) ≡ true =
        ground (arith, size, room) in
      let (acks, covers) =
        add_ack_lem ack f g j e lf (omega (arith, lg, hg)) (omega (arith, lf, lg)) hg lj hj fits in
      let nothing : is_acknowledged ack (tsn_at base j) ≡ false =
        ap (λ (bs : List (ℕ × ℕ)). is_in_blocks ack bs (tsn_at base j)) none in
      (acks, covers ∙ (rw nothing refl))
