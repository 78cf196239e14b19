-- ===== src/Sctp/Inbound/Arrival.antt =====
-- A chunk of the stream that arrives, as `onDataReceived` takes it.
use symphony_media_bridge.Common.{
  ℕ, zero, suc, ◌+◌, ◌-◌, ◌^◌, ◌≤◌, ◌<◌, ◌≡◌, refl, sym, ap, ◌∙◌, true, false, ◌||◌, some, List, [],
  ◌∷◌, ◌++◌, ltb, ◌==◌, ==_iff, length, length-append, get_elem?, get_elem?_bound,
  get_elem?-append_right, sle32, arith, Bool-cases, inl, inr,
}
use symphony_media_bridge.Common.Values.{is_in}
use symphony_media_bridge.Sctp.{diff, DataChunk}
use symphony_media_bridge.Sctp.Inbound.{Inbound, has_chunk, insert_chunk, receive_chunk}
use symphony_media_bridge.Sctp.Inbound.Order.{
  tsn_at, ack_at, IsNumbered, IsNumbered-at, arrived, first_missing, upto_ack, arrived-before,
  has_chunk-arrived, insert_chunk-arrived,
}
use symphony_media_bridge.Sctp.Inbound.Acks.{first_missing_bounds, first_missing-more}

pub IsNumbered-append :
    (base i : ℕ) (pre cs : List DataChunk)
    → IsNumbered base i (pre ++ cs)
    → IsNumbered base (i + length pre) cs
IsNumbered-append base i [] cs n = let e : i + 0 ≡ i = omega arith in rw e n
IsNumbered-append base i (c ∷ pre) cs n =
    let e : suc i + length pre ≡ i + suc (length pre) = omega arith in
    rw e at (IsNumbered-append base (suc i) pre cs n.1)

-- Before the first gap everything is seen.
first_missing-seen :
    (seen : List ℕ) (k i : ℕ) (cs : List DataChunk) {c : DataChunk}
    → get_elem? cs k ≡ some c
    → i + k < first_missing seen i cs
    → is_in c.transmission_sequence_number seen ≡ true
first_missing-seen seen k i [] at before = cc
first_missing-seen seen zero i (d ∷ cs) {c} at before =
    let this : d ≡ c = cc in
    elim (Bool-cases (is_in d.transmission_sequence_number seen)) [
      | inl got ↦ rw (sym this) got
      | inr absent ↦ absurd (ground (arith, absent, before))
    ]
first_missing-seen seen (suc k) i (d ∷ cs) at before =
    elim (Bool-cases (is_in d.transmission_sequence_number seen)) [
      | inl got ↦ first_missing-seen seen k (suc i) cs at (ground (arith, got, before))
      | inr absent ↦ absurd (ground (arith, absent, before))
    ]

arrived-again :
    (t : ℕ) (seen : List ℕ) (cs : List DataChunk)
    → is_in t seen ≡ true
    → arrived (t ∷ seen) cs ≡ arrived seen cs
arrived-again t seen [] again = refl
arrived-again t seen (c ∷ cs) again =
    let rest = arrived-again t seen cs again in
    let same : (t == c.transmission_sequence_number || is_in c.transmission_sequence_number seen)
        ≡ is_in c.transmission_sequence_number seen =
      ground (arith, again, ==_iff t c.transmission_sequence_number) in
    rw (rest, same) refl

-- The chunks at hand are those of the stream behind `pre` that have been seen.
pub record IsHolding (base : ℕ) (seen : List ℕ) (i : ℕ) (cs : List DataChunk) (s : Inbound)
    : Type 0 where
  pub acknowledged : ℕ
  pub from : i ≤ acknowledged
  pub upto : acknowledged ≤ first_missing seen i cs
  pub ack : s.cumulative_ack ≡ ack_at base acknowledged
  pub held : s.chunks ≡ arrived seen cs
  pub open_window : 0 < s.advertised_receive_window

module _ (base : ℕ) (pre cs : List DataChunk) (n : IsNumbered base 0 (pre ++ cs))
    (small : length (pre ++ cs) < 2 ^ 31) where
  place :
      (k : ℕ) {c : DataChunk}
      → get_elem? (pre ++ cs) k ≡ some c
      → c.transmission_sequence_number ≡ tsn_at base k
  place k at = IsNumbered-at base k 0 (pre ++ cs) n at ∙ (ap (tsn_at base) (omega arith))

  numbered : IsNumbered base (length pre) cs
  numbered =
      let e : 0 + length pre ≡ length pre = omega arith in
      rw e at (IsNumbered-append base 0 pre cs n)

  sizes : length pre + length cs < 2 ^ 31
  sizes = omega (arith, small, length-append pre cs)

  behind :
      (k : ℕ) {c : DataChunk}
      → get_elem? (pre ++ cs) k ≡ some c
      → length pre ≤ k
      → (get_elem? cs (k - length pre) ≡ some c) × (length pre + (k - length pre) ≡ k)
  behind k at le = (get_elem?-append_right pre cs k at le, omega (arith, le))

  -- Whether a chunk behind `pre` is at hand.
  held-seen :
      (seen : List ℕ) (s : Inbound) (c : DataChunk) (k : ℕ)
      → IsHolding base seen (length pre) cs s
      → get_elem? (pre ++ cs) k ≡ some c
      → length pre ≤ k
      → has_chunk c.transmission_sequence_number s.chunks
        ≡ is_in c.transmission_sequence_number seen
  held-seen seen s c k h at le =
      let (at', moved) = behind k at le in
      let e = place k at in
      let found =
        has_chunk-arrived base seen (k - length pre) (length pre) cs numbered (omega (arith, sizes))
          at' in
      rw (h.held, e) (rw moved at found)

  known-arrived :
      (seen : List ℕ) (s : Inbound) (c : DataChunk) (k : ℕ)
      (h : IsHolding base seen (length pre) cs s)
      → get_elem? (pre ++ cs) k ≡ some c
      → (has_chunk c.transmission_sequence_number s.chunks || ltb k h.acknowledged) ≡ true
      → arrived (c.transmission_sequence_number ∷ seen) cs ≡ arrived seen cs
  known-arrived seen s c k h at known = elim (Bool-cases (ltb k (length pre))) [
    | inl early ↦
        let e = place k at in
        let before : k < length pre = ground (arith, early) in
        rw e (arrived-before base seen k (length pre) cs numbered before (omega (arith, sizes)))
    | inr late ↦
        let le : length pre ≤ k = ground (arith, late) in
        let (at', moved) = behind k at le in
        let got : is_in c.transmission_sequence_number seen ≡ true =
          elim (Bool-cases (ltb k h.acknowledged)) [
            | inl acked ↦
                first_missing-seen seen (k - length pre) (length pre) cs at'
                  (ground (arith, acked, moved, h.upto))
            | inr beyond ↦ sym (held-seen seen s c k h at le) ∙ ground (arith, known, beyond)
          ] in
        arrived-again c.transmission_sequence_number seen cs got
  ]

  new-arrived :
      (seen : List ℕ) (s : Inbound) (c : DataChunk) (k : ℕ)
      (h : IsHolding base seen (length pre) cs s)
      → get_elem? (pre ++ cs) k ≡ some c
      → (has_chunk c.transmission_sequence_number s.chunks || ltb k h.acknowledged) ≡ false
      → insert_chunk c s.chunks ≡ arrived (c.transmission_sequence_number ∷ seen) cs
  new-arrived seen s c k h at new =
      let le : length pre ≤ k = ground (arith, new, h.from) in
      let (at', moved) = behind k at le in
      let e = place k at in
      let absent : is_in c.transmission_sequence_number seen ≡ false =
        sym (held-seen seen s c k h at le) ∙ ground (arith, new) in
      let there : c.transmission_sequence_number ≡ tsn_at base (length pre + (k - length pre)) =
        e ∙ (ap (tsn_at base) (sym moved)) in
      let placed =
        insert_chunk-arrived base seen (k - length pre) (length pre) cs numbered
          (omega (arith, sizes)) at' (rw there at absent) in
      rw h.held (placed ∙ (ap (λ (t : ℕ). arrived (t ∷ seen) cs) (sym there)))

  -- It is held from then on, and nothing is reported before the acknowledgement.
  pub receive_chunk_lem :
      (seen : List ℕ) (s : Inbound) (c : DataChunk) (k : ℕ)
      → IsHolding base seen (length pre) cs s
      → get_elem? (pre ++ cs) k ≡ some c
      → 0 < length c.payload
      → let (t, new, events) = receive_chunk s c true in
        IsHolding base (c.transmission_sequence_number ∷ seen) (length pre) cs t
        × (new ≡ false → t ≡ s)
        × (events ≡ [])
  unfolding receive_chunk
  receive_chunk_lem seen s c k h at full =
      let tsn = c.transmission_sequence_number in
      let e : tsn ≡ tsn_at base k = place k at in
      let inside : k < length (pre ++ cs) = get_elem?_bound (pre ++ cs) k at in
      let (low, high) = first_missing_bounds seen (length pre) cs in
      let filled : ltb 0 (length c.payload) ≡ true = ground (arith, full) in
      let room : ltb 0 s.advertised_receive_window ≡ true = ground (arith, h.open_window) in
      let old : sle32 0 (diff tsn s.cumulative_ack) ≡ ltb k h.acknowledged =
        rw (e, h.ack)
          (upto_ack base k h.acknowledged (omega (arith, inside, small))
            (omega (arith, h.upto, high, sizes))) in
      let more = first_missing-more tsn seen (length pre) cs in
      let upto : h.acknowledged ≤ first_missing (tsn ∷ seen) (length pre) cs =
        omega (arith, h.upto, more) in
      elim (Bool-cases (has_chunk tsn s.chunks || ltb k h.acknowledged)) [
        | inl known ↦
            let same : arrived (tsn ∷ seen) cs ≡ arrived seen cs =
              known-arrived seen s c k h at known in
            rw (filled, old, known)
              (
                record {
                  acknowledged = h.acknowledged;
                  from = h.from;
                  upto = upto;
                  ack = h.ack;
                  held = h.held ∙ sym same;
                  open_window = h.open_window;
                },
                λ _. refl,
                refl,
              )
        | inr new ↦
            let placed = new-arrived seen s c k h at new in
            rw (filled, old, new, room)
              (
                record {
                  acknowledged = h.acknowledged;
                  from = h.from;
                  upto = upto;
                  ack = h.ack;
                  held = placed;
                  open_window = h.open_window;
                },
                λ (f : true ≡ false). cc,
                refl,
              )
      ]
