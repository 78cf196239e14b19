-- ===== src/Sctp/Inbound/Acks.antt =====
-- How far the chunks that have arrived go without a gap.
use symphony_media_bridge.Common.{
  ℕ, suc, ◌+◌, ◌^◌, ◌≤◌, ◌<◌, ◌≡◌, refl, ap, ◌∙◌, true, false, List, [], ◌∷◌, ◌++◌, if◌then◌else◌,
  ◌==◌, ==_iff, length, add32, sle32, arith, Bool-cases, inl, inr,
}
use symphony_media_bridge.Common.Values.{is_in}
use symphony_media_bridge.Sctp.{diff, DataChunk}
use symphony_media_bridge.Sctp.Inbound.{advance_ack}
use symphony_media_bridge.Sctp.Inbound.Order.{
  ack_at, IsNumbered, arrived, first_missing, upto_at, same_at, next_ack,
}

pub first_missing_bounds :
    (seen : List ℕ) (i : ℕ) (cs : List DataChunk)
    → let a = first_missing seen i cs in (i ≤ a) × (a ≤ i + length cs)
first_missing_bounds seen i [] = (omega arith, omega arith)
first_missing_bounds seen i (c ∷ cs) = ground (arith, first_missing_bounds seen (suc i) cs)

-- Another number that is seen leaves no earlier gap.
pub first_missing-more :
    (t : ℕ) (seen : List ℕ) (i : ℕ) (cs : List DataChunk)
    → first_missing seen i cs ≤ first_missing (t ∷ seen) i cs
first_missing-more t seen i [] = omega arith
first_missing-more t seen i (c ∷ cs) =
    ground (arith, first_missing-more t seen (suc i) cs, first_missing_bounds (t ∷ seen) (suc i) cs)

-- Chunks behind which the gap lies have all arrived.
pub arrived-whole :
    (seen : List ℕ) (i : ℕ) (m cs : List DataChunk)
    → i + length m ≤ first_missing seen i (m ++ cs)
    → (arrived seen (m ++ cs) ≡ m ++ arrived seen cs)
      × (first_missing seen i (m ++ cs) ≡ first_missing seen (i + length m) cs)
arrived-whole seen i [] cs le = (refl, ap (λ (n : ℕ). first_missing seen n cs) (omega arith))
arrived-whole seen i (c ∷ m) cs le = elim (Bool-cases (is_in c.transmission_sequence_number seen)) [
  | inr absent ↦ absurd (ground (arith, absent, le))
  | inl got ↦
      let le' : suc i + length m ≤ first_missing seen (suc i) (m ++ cs) = ground (arith, got, le) in
      let (all, same) = arrived-whole seen (suc i) m cs le' in
      let moved : suc i + length m ≡ i + suc (length m) = omega arith in
      rw got (ap (λ (l : List DataChunk). c ∷ l) all, rw moved at same)
]

-- The chunks of the stream behind the first gap.
abbrev pub after_gap : List ℕ → List DataChunk → List DataChunk
after_gap seen [] = []
after_gap seen (c ∷ cs) =
    let later = after_gap seen cs in if is_in c.transmission_sequence_number seen then later else cs

pub after_gap-IsNumbered :
    (base : ℕ) (seen : List ℕ) (i : ℕ) (cs : List DataChunk)
    → IsNumbered base i cs
    → let a = first_missing seen i cs in
      IsNumbered base (suc a) (after_gap seen cs)
      × (suc a + length (after_gap seen cs) ≤ suc (i + length cs))
after_gap-IsNumbered base seen i [] n = (tt, omega arith)
after_gap-IsNumbered base seen i (c ∷ cs) n =
    elim (Bool-cases (is_in c.transmission_sequence_number seen)) [
      | inl got ↦
          let (m, size) = after_gap-IsNumbered base seen (suc i) cs n.1 in
          rw got (m, omega (arith, size))
      | inr absent ↦ rw absent (n.1, omega arith)
    ]

module _ (base : ℕ) (seen : List ℕ) where
  advance_ack-before :
      (a i : ℕ) (cs : List DataChunk)
      → IsNumbered base i cs
      → a < i
      → i + length cs < 2 ^ 31
      → advance_ack (ack_at base a) (arrived seen cs) ≡ (ack_at base a, arrived seen cs)
  advance_ack-before a i [] n before small = refl
  advance_ack-before a i (c ∷ cs) (here, n) before small =
      let rest = advance_ack-before a (suc i) cs n (omega (arith, before)) (omega (arith, small)) in
      let beyond : sle32 0 (diff c.transmission_sequence_number (add32 (ack_at base a) 1)) ≡ false =
        rw (here, next_ack base a)
          (upto_at base i a (omega (arith, small)) (omega (arith, small, before))
            ∙ (ground (arith, before))) in
      elim (Bool-cases (is_in c.transmission_sequence_number seen)) [
        | inl got ↦ rw (got, beyond) refl
        | inr absent ↦ rw absent rest
      ]

  -- The cumulative number moves up to the first gap, and the loop ends at the chunks behind it.
  pub advance_ack_lem :
      (a i : ℕ) (cs : List DataChunk)
      → IsNumbered base i cs
      → i + length cs < 2 ^ 31
      → i ≤ a
      → a ≤ first_missing seen i cs
      → advance_ack (ack_at base a) (arrived seen cs)
        ≡ (ack_at base (first_missing seen i cs), arrived seen (after_gap seen cs))
  advance_ack_lem a i [] n small from upto =
      ap (λ (k : ℕ). (ack_at base k, [])) (omega (arith, from, upto))
  advance_ack_lem a i (c ∷ cs) (here, n) small from upto =
      let next = next_ack base a in
      let (low, high) = first_missing_bounds seen i (c ∷ cs) in
      let within : sle32 0 (diff c.transmission_sequence_number (add32 (ack_at base a) 1)) ≡ true =
        rw (here, next)
          (upto_at base i a (omega (arith, small)) (omega (arith, small, upto, high))
            ∙ (ground (arith, from))) in
      elim (Bool-cases (is_in c.transmission_sequence_number seen)) [
        | inr absent ↦
            let at : a ≡ i = ground (arith, absent, from, upto) in
            let stays = advance_ack-before i (suc i) cs n (omega arith) (omega (arith, small)) in
            rw (absent, at, stays) refl
        | inl got ↦
            let upto' : a ≤ first_missing seen (suc i) cs = ground (arith, got, upto) in
            let hits : (c.transmission_sequence_number == add32 (ack_at base a) 1) ≡ (i == a) =
              rw (here, next)
                (same_at base i a (omega (arith, small)) (omega (arith, small, upto, high))) in
            elim (Bool-cases (i == a)) [
              | inl this ↦
                  let e : i ≡ a = (==_iff i a).0 this in
                  let one : add32 (ack_at base a) 1 ≡ ack_at base (suc i) = omega (arith, e) in
                  let moved =
                    advance_ack_lem (suc i) (suc i) cs n (omega (arith, small)) (omega arith)
                      (first_missing_bounds seen (suc i) cs).0 in
                  rw (got, within, hits, this, one) moved
              | inr past ↦
                  let moved =
                    advance_ack_lem a (suc i) cs n (omega (arith, small))
                      (ground (arith, past, from)) upto' in
                  rw (got, within, hits, past) moved
            ]
      ]

  pub advance_ack-arrived :
      (a i : ℕ) (cs : List DataChunk)
      → IsNumbered base i cs
      → i + length cs < 2 ^ 31
      → i ≤ a
      → a ≤ first_missing seen i cs
      → (advance_ack (ack_at base a) (arrived seen cs)).0 ≡ ack_at base (first_missing seen i cs)
  advance_ack-arrived a i cs n small from upto =
      ap (λ (p : ℕ × List DataChunk). p.0) (advance_ack_lem a i cs n small from upto)
