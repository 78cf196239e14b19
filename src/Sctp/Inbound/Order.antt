-- ===== src/Sctp/Inbound/Order.antt =====
-- The chunks of a stream that have arrived, in the order of their numbers.
use symphony_media_bridge.Common.{
  ℕ, zero, suc, ◌+◌, ◌-◌, ◌%◌, ◌^◌, ◌≤◌, ◌<◌, ◌≡◌, refl, sym, ap, ◌∙◌, true, false, some, List, [],
  ◌∷◌, if◌then◌else◌, ltb, leb, ◌==◌, length, get_elem?, get_elem?_bound, u32_mod, add32, sle32,
  arith, Bool-cases, inl, inr,
}
use symphony_media_bridge.Common.Values.{is_in}
use symphony_media_bridge.Sctp.{diff, DataChunk}
use symphony_media_bridge.Sctp.Inbound.{less, has_chunk, insert_chunk}

-- The number at a place of a stream that begins at `base`, and the number before it.
abbrev pub tsn_at : ℕ → ℕ → ℕ
tsn_at base i = (base + i) % u32_mod

abbrev pub ack_at : ℕ → ℕ → ℕ
ack_at base i = (base + i + (u32_mod - 1)) % u32_mod

-- The chunks are numbered from a place on.
abbrev pub IsNumbered : ℕ → ℕ → List DataChunk → Type 0
IsNumbered base i [] = Unit
IsNumbered base i (c ∷ cs) =
    (c.transmission_sequence_number ≡ tsn_at base i) × IsNumbered base (suc i) cs

-- Those whose numbers are among the ones seen, and the place of the first that is not.
abbrev pub arrived : List ℕ → List DataChunk → List DataChunk
arrived seen [] = []
arrived seen (c ∷ cs) =
    let rest = arrived seen cs in
    if is_in c.transmission_sequence_number seen then c ∷ rest else rest

abbrev pub first_missing : List ℕ → ℕ → List DataChunk → ℕ
first_missing seen i [] = i
first_missing seen i (c ∷ cs) =
    let later = first_missing seen (suc i) cs in
    if is_in c.transmission_sequence_number seen then later else i

pub less_at :
    (base i j : ℕ) → i < 2 ^ 31 → j < 2 ^ 31 → less (tsn_at base i) (tsn_at base j) ≡ ltb i j
less_at base i j si sj = ground (arith, si, sj)

pub upto_at :
    (base i j : ℕ)
    → i < 2 ^ 31
    → j < 2 ^ 31
    → sle32 0 (diff (tsn_at base i) (tsn_at base j)) ≡ leb i j
upto_at base i j si sj = ground (arith, si, sj)

pub upto_ack :
    (base i j : ℕ)
    → i < 2 ^ 31
    → j < 2 ^ 31
    → sle32 0 (diff (tsn_at base i) (ack_at base j)) ≡ ltb i j
upto_ack base i j si sj = ground (arith, si, sj)

pub same_at : (base i j : ℕ) → i < 2 ^ 31 → j < 2 ^ 31 → (tsn_at base i == tsn_at base j) ≡ (i == j)
same_at base i j si sj = ground (arith, si, sj)

pub next_ack : (base i : ℕ) → add32 (ack_at base i) 1 ≡ tsn_at base i
next_ack base i = omega arith

pub IsNumbered-at :
    (base k i : ℕ) (cs : List DataChunk) {c : DataChunk}
    → IsNumbered base i cs
    → get_elem? cs k ≡ some c
    → c.transmission_sequence_number ≡ tsn_at base (i + k)
IsNumbered-at base k i [] n at = cc
IsNumbered-at base zero i (d ∷ cs) {c} (here, n) at =
    let this : d ≡ c = cc in rw (sym this) (omega (arith, here))
IsNumbered-at base (suc k) i (d ∷ cs) (here, n) at =
    IsNumbered-at base k (suc i) cs n at ∙ (ap (tsn_at base) (omega arith))

module _ (base : ℕ) (seen : List ℕ) where
  -- The numbers before a place are not among those from it on.
  has_chunk-before :
      (j i : ℕ) (cs : List DataChunk)
      → IsNumbered base i cs
      → j < i
      → i + length cs ≤ 2 ^ 31
      → has_chunk (tsn_at base j) (arrived seen cs) ≡ false
  has_chunk-before j i [] n before small = refl
  has_chunk-before j i (c ∷ cs) (here, n) before small =
      let rest = has_chunk-before j (suc i) cs n (omega (arith, before)) (omega (arith, small)) in
      let past : less c.transmission_sequence_number (tsn_at base j) ≡ false = rw here (
        less_at base i j (omega (arith, small)) (omega (arith, small, before))
        ∙ (ground (arith, before))) in
      let below : less (tsn_at base j) c.transmission_sequence_number ≡ true = rw here (
        less_at base j i (omega (arith, small, before)) (omega (arith, small))
        ∙ (ground (arith, before))) in
      elim (Bool-cases (is_in c.transmission_sequence_number seen)) [
        | inl got ↦ rw (got, past, below) refl
        | inr absent ↦ rw absent rest
      ]

  -- A chunk of the stream is found exactly if it has arrived.
  pub has_chunk-arrived :
      (k i : ℕ) (cs : List DataChunk) {c : DataChunk}
      → IsNumbered base i cs
      → i + length cs ≤ 2 ^ 31
      → get_elem? cs k ≡ some c
      → has_chunk (tsn_at base (i + k)) (arrived seen cs) ≡ is_in (tsn_at base (i + k)) seen
  has_chunk-arrived k i [] n small at = cc
  has_chunk-arrived zero i (d ∷ cs) (here, n) small at =
      let there : tsn_at base (i + 0) ≡ d.transmission_sequence_number = omega (arith, here) in
      let same : less d.transmission_sequence_number d.transmission_sequence_number ≡ false =
        ground arith in
      rw there (elim (Bool-cases (is_in d.transmission_sequence_number seen)) [
        | inl got ↦ rw (got, same) refl
        | inr absent ↦
            rw (absent, here) (has_chunk-before i (suc i) cs n (omega arith) (omega (arith, small)))
      ])
  has_chunk-arrived (suc k) i (d ∷ cs) (here, n) small at =
      let moved : suc i + k ≡ i + suc k = omega arith in
      let rest = rw moved at (has_chunk-arrived k (suc i) cs n (omega (arith, small)) at) in
      let inside : k < length cs = get_elem?_bound cs k at in
      let below : less d.transmission_sequence_number (tsn_at base (i + suc k)) ≡ true = rw here (
        less_at base i (i + suc k) (omega (arith, small)) (omega (arith, small, inside))
        ∙ (ground arith)) in
      elim (Bool-cases (is_in d.transmission_sequence_number seen)) [
        | inl got ↦ rw (got, below) rest
        | inr absent ↦ rw absent rest
      ]

  pub arrived-before :
      (j i : ℕ) (cs : List DataChunk)
      → IsNumbered base i cs
      → j < i
      → i + length cs ≤ 2 ^ 31
      → arrived (tsn_at base j ∷ seen) cs ≡ arrived seen cs
  arrived-before j i [] n before small = refl
  arrived-before j i (c ∷ cs) (here, n) before small =
      let rest = arrived-before j (suc i) cs n (omega (arith, before)) (omega (arith, small)) in
      let other : (tsn_at base j == c.transmission_sequence_number) ≡ false = rw here (
        same_at base j i (omega (arith, small, before)) (omega (arith, small))
        ∙ (ground (arith, before))) in
      rw (other, rest) refl

  insert_chunk-before :
      (c : DataChunk) (j i : ℕ) (cs : List DataChunk)
      → c.transmission_sequence_number ≡ tsn_at base j
      → IsNumbered base i cs
      → j < i
      → i + length cs ≤ 2 ^ 31
      → insert_chunk c (arrived seen cs) ≡ c ∷ arrived seen cs
  insert_chunk-before c j i [] e n before small = refl
  insert_chunk-before c j i (d ∷ ds) e (here, n) before small =
      let rest =
        insert_chunk-before c j (suc i) ds e n (omega (arith, before)) (omega (arith, small)) in
      let past : less d.transmission_sequence_number c.transmission_sequence_number ≡ false =
        rw (here, e)
          (less_at base i j (omega (arith, small)) (omega (arith, small, before))
            ∙ (ground (arith, before))) in
      let below : less c.transmission_sequence_number d.transmission_sequence_number ≡ true =
        rw (here, e)
          (less_at base j i (omega (arith, small, before)) (omega (arith, small))
            ∙ (ground (arith, before))) in
      elim (Bool-cases (is_in d.transmission_sequence_number seen)) [
        | inl got ↦ rw (got, past, below) refl
        | inr absent ↦ rw absent rest
      ]

  -- A chunk of the stream that is new takes its place among those that have arrived.
  pub insert_chunk-arrived :
      (k i : ℕ) (cs : List DataChunk) {c : DataChunk}
      → IsNumbered base i cs
      → i + length cs ≤ 2 ^ 31
      → get_elem? cs k ≡ some c
      → is_in (tsn_at base (i + k)) seen ≡ false
      → insert_chunk c (arrived seen cs) ≡ arrived (tsn_at base (i + k) ∷ seen) cs
  insert_chunk-arrived k i [] n small at new = cc
  insert_chunk-arrived zero i (d ∷ cs) {c} (here, n) small at new =
      let this : d ≡ c = cc in
      let there : tsn_at base (i + 0) ≡ d.transmission_sequence_number = omega (arith, here) in
      let absent : is_in d.transmission_sequence_number seen ≡ false = rw there at new in
      let same : (d.transmission_sequence_number == d.transmission_sequence_number) ≡ true =
        ground arith in
      let after : arrived (d.transmission_sequence_number ∷ seen) cs ≡ arrived seen cs =
        rw here (arrived-before i (suc i) cs n (omega arith) (omega (arith, small))) in
      let first : insert_chunk d (arrived seen (d ∷ cs))
          ≡ arrived (d.transmission_sequence_number ∷ seen) (d ∷ cs) =
        rw (absent, same, after)
          (insert_chunk-before d i (suc i) cs here n (omega arith) (omega (arith, small))) in
      rw (sym this) (first ∙ (ap (λ (t : ℕ). arrived (t ∷ seen) (d ∷ cs)) (sym there)))
  insert_chunk-arrived (suc k) i (d ∷ cs) {c} (here, n) small at new =
      let moved : suc i + k ≡ i + suc k = omega arith in
      let rest = insert_chunk-arrived k (suc i) cs n (omega (arith, small)) at (rw moved new) in
      let inside : k < length cs = get_elem?_bound cs k at in
      let e : c.transmission_sequence_number ≡ tsn_at base (i + suc k) =
        IsNumbered-at base k (suc i) cs n at ∙ (ap (tsn_at base) moved) in
      let below : less d.transmission_sequence_number c.transmission_sequence_number ≡ true =
        rw (here, e)
          (less_at base i (i + suc k) (omega (arith, small)) (omega (arith, small, inside))
            ∙ (ground arith)) in
      let other : (tsn_at base (i + suc k) == d.transmission_sequence_number) ≡ false = rw here (
        same_at base (i + suc k) i (omega (arith, small, inside)) (omega (arith, small))
        ∙ (ground arith)) in
      elim (Bool-cases (is_in d.transmission_sequence_number seen)) [
        | inl got ↦ rw (got, below, other) (ap (λ (l : List DataChunk). d ∷ l) (rw moved at rest))
        | inr absent ↦ rw (absent, other) (rw moved at rest)
      ]
