-- ===== src/Sctp/Inbound/Gather.antt =====
-- The messages that `onDataReceived` reports of a stream: those that are complete.
use symphony_media_bridge.Common.{
  ℕ, zero, suc, ◌+◌, ◌-◌, ◌^◌, ◌≤◌, ◌<◌, ◌≡◌, refl, sym, ap, ◌∙◌, Bool, true, false, ◌&&◌, none,
  some, List, [], ◌∷◌, ◌++◌, if◌then◌else◌, leb, length, length-append, arith, Bool-cases, inl, inr,
}
use mathlib.Core.List.{append_assoc}
use symphony_media_bridge.Common.Values.{is_in}
use symphony_media_bridge.Sctp.{DataChunk}
use symphony_media_bridge.Sctp.Inbound.{
  Inbound, Event, fragment_received, find_fragment, report_fragment, gather_received_fragments,
  gather_all,
}
use symphony_media_bridge.Sctp.Inbound.Order.{ack_at, IsNumbered, arrived, first_missing}
use symphony_media_bridge.Sctp.Inbound.Acks.{first_missing_bounds, arrived-whole}
use symphony_media_bridge.Sctp.Inbound.Fragments.{
  IsFragmented, report_of, take_fragment-append, find_fragment-message, find_fragment-gap,
}
use symphony_media_bridge.Sctp.Inbound.Arrival.{IsNumbered-append}

abbrev pub chunks_of : List (List DataChunk) → List DataChunk
chunks_of [] = []
chunks_of (m ∷ ms) = m ++ chunks_of ms

abbrev pub AreFragmented : List (List DataChunk) → Type 0
AreFragmented [] = Unit
AreFragmented (m ∷ ms) = IsFragmented true m × AreFragmented ms

abbrev pub has_all : List ℕ → List DataChunk → Bool
has_all seen [] = true
has_all seen (c ∷ cs) = is_in c.transmission_sequence_number seen && has_all seen cs

-- The messages before the first one with a chunk that is missing: what is reported of them, their
-- chunks, and the messages that are left.
abbrev pub complete : List ℕ → List (List DataChunk) → List Event
complete seen [] = []
complete seen (m ∷ ms) =
    let rest = complete seen ms in if has_all seen m then report_of m ++ rest else []

abbrev pub finished : List ℕ → List (List DataChunk) → List DataChunk
finished seen [] = []
finished seen (m ∷ ms) = let rest = finished seen ms in if has_all seen m then m ++ rest else []

abbrev pub pending : List ℕ → List (List DataChunk) → List (List DataChunk)
pending seen [] = []
pending seen (m ∷ ms) = let rest = pending seen ms in if has_all seen m then rest else m ∷ ms

pub chunks_of-pending :
    (seen : List ℕ) (ms : List (List DataChunk))
    → chunks_of ms ≡ finished seen ms ++ chunks_of (pending seen ms)
chunks_of-pending seen [] = refl
chunks_of-pending seen (m ∷ ms) = elim (Bool-cases (has_all seen m)) [
  | inl all ↦ rw all (
      ap (λ (l : List DataChunk). m ++ l) (chunks_of-pending seen ms)
      ∙ sym (append_assoc m (finished seen ms) (chunks_of (pending seen ms))))
  | inr some_missing ↦ rw some_missing refl
]

pub pending-AreFragmented :
    (seen : List ℕ) (ms : List (List DataChunk))
    → AreFragmented ms
    → AreFragmented (pending seen ms)
pending-AreFragmented seen [] f = tt
pending-AreFragmented seen (m ∷ ms) f = elim (Bool-cases (has_all seen m)) [
  | inl all ↦ rw all (pending-AreFragmented seen ms f.1)
  | inr some_missing ↦ rw some_missing f
]

-- A message has arrived exactly if the first gap lies behind it.
pub has_all-first_missing :
    (seen : List ℕ) (i : ℕ) (m cs : List DataChunk)
    → has_all seen m ≡ leb (i + length m) (first_missing seen i (m ++ cs))
has_all-first_missing seen i [] cs = ground (arith, first_missing_bounds seen i cs)
has_all-first_missing seen i (c ∷ m) cs =
    elim (Bool-cases (is_in c.transmission_sequence_number seen)) [
      | inl got ↦
          let moved : suc i + length m ≡ i + suc (length m) = omega arith in
          rw got (rw moved at (has_all-first_missing seen (suc i) m cs))
      | inr absent ↦ rw absent (ground arith)
    ]

-- The first gap lies in the first message, or there is none.
abbrev pub IsWaiting : List ℕ → ℕ → List (List DataChunk) → Type 0
IsWaiting seen i [] = Unit
IsWaiting seen i (m ∷ ms) = first_missing seen i (m ++ chunks_of ms) < i + length m

pub IsWaiting-none :
    (seen : List ℕ) (i : ℕ) (ms : List (List DataChunk))
    → IsWaiting seen i ms
    → (complete seen ms ≡ []) × (finished seen ms ≡ []) × (pending seen ms ≡ ms)
IsWaiting-none seen i [] w = (refl, refl, refl)
IsWaiting-none seen i (m ∷ ms) w =
    let gap : has_all seen m ≡ false =
      has_all-first_missing seen i m (chunks_of ms) ∙ ground (arith, w) in
    rw gap (refl, refl, refl)

-- A message at the front that is found is reported, and its chunks are dropped.
gather_message :
    (s : Inbound) (m cs : List DataChunk)
    → IsFragmented true m
    → find_fragment s.cumulative_ack [] none s.chunks ≡ some ([], m ++ cs)
    → (t : Inbound) × (event : Event) × (gather_received_fragments s ≡ some (t, event))
      × (report_of m ≡ event ∷ [])
      × (t.chunks ≡ cs)
      × (t.cumulative_ack ≡ s.cumulative_ack)
      × (t.advertised_receive_window ≡ s.advertised_receive_window)
unfolding gather_received_fragments report_fragment
gather_message s [] cs f found = elim f [ ]
gather_message s (c ∷ m) cs f found =
    let (u, event) = report_fragment s [] c (m ++ cs) in
    let taken = take_fragment-append true (c ∷ m) cs f in
    (
      u,
      event,
      rw (found, gather_received_fragments) refl,
      ap
          (λ (p : List ℕ × List DataChunk).
            fragment_received c.stream_id c.stream_sequence_number c.payload_protocol p.0 ∷ [])
          (sym taken),
      ap (λ (p : List ℕ × List DataChunk). p.1) taken,
      refl,
      refl,
    )

gather_all-none :
    (fuel : ℕ) (s : Inbound) → gather_received_fragments s ≡ none → gather_all fuel s ≡ (s, [])
unfolding gather_all
gather_all-none zero s e = refl
gather_all-none (suc fuel) s e = rw (e, gather_all) refl

gather_all-some :
    (fuel : ℕ) (s t : Inbound) (event : Event)
    → gather_received_fragments s ≡ some (t, event)
    → gather_all (suc fuel) s ≡ ((gather_all fuel t).0, event ∷ (gather_all fuel t).1)
unfolding gather_all
gather_all-some fuel s t event e = rw (e, gather_all) refl

length-message : (first : Bool) (m : List DataChunk) → IsFragmented first m → 1 ≤ length m
length-message first [] f = elim f [ ]
length-message first (c ∷ m) f = omega arith

nothing_found :
    (s : Inbound)
    → find_fragment s.cumulative_ack [] none s.chunks ≡ none
    → gather_received_fragments s ≡ none
unfolding gather_received_fragments
nothing_found s e = rw (e, gather_received_fragments) refl

IsNumbered-front :
    (base i : ℕ) (m cs : List DataChunk) → IsNumbered base i (m ++ cs) → IsNumbered base i m
IsNumbered-front base i [] cs n = tt
IsNumbered-front base i (c ∷ m) cs n = (n.0, IsNumbered-front base (suc i) m cs n.1)

-- What is left behind the complete messages begins with a message that has a gap.
pub pending-IsWaiting :
    (seen : List ℕ) (i : ℕ) (ms : List (List DataChunk))
    → let j = i + length (finished seen ms) in
      IsWaiting seen j (pending seen ms)
      × (first_missing seen i (chunks_of ms) ≡ first_missing seen j (chunks_of (pending seen ms)))
pending-IsWaiting seen i [] = (tt, omega arith)
pending-IsWaiting seen i (m ∷ ms) =
    let test = has_all-first_missing seen i m (chunks_of ms) in
    elim (Bool-cases (has_all seen m)) [
      | inr gap ↦
          let e : i + 0 ≡ i = omega arith in
          let w : first_missing seen i (m ++ chunks_of ms) < i + length m =
            ground (arith, test, gap) in
          rw (gap, e) (w, refl)
      | inl all ↦
          let le : i + length m ≤ first_missing seen i (m ++ chunks_of ms) =
            ground (arith, test, all) in
          let (w, same) = pending-IsWaiting seen (i + length m) ms in
          let moved : i + length m + length (finished seen ms)
              ≡ i + length (m ++ finished seen ms) =
            omega (arith, length-append m (finished seen ms)) in
          rw all (rw moved at w, (arrived-whole seen i m (chunks_of ms) le).1 ∙ (rw moved at same))
    ]

module _ (base : ℕ) (seen : List ℕ) where
  -- With fuel for every chunk at hand, the loop reports the complete messages.
  pub gather_all_lem :
      (fuel i : ℕ) (ms : List (List DataChunk)) (s : Inbound)
      → AreFragmented ms
      → IsNumbered base i (chunks_of ms)
      → i + length (chunks_of ms) < 2 ^ 31
      → s.cumulative_ack ≡ ack_at base (first_missing seen i (chunks_of ms))
      → s.chunks ≡ arrived seen (chunks_of ms)
      → length s.chunks ≤ fuel
      → let (t, events) = gather_all fuel s in
        (events ≡ complete seen ms)
        × (t.chunks ≡ arrived seen (chunks_of (pending seen ms)))
        × (t.cumulative_ack ≡ s.cumulative_ack)
        × (t.advertised_receive_window ≡ s.advertised_receive_window)
  unfolding gather_all
  gather_all_lem fuel i [] s f n small ack held fuelled =
      let none_left = gather_all-none fuel s (nothing_found s (rw held refl)) in
      rw none_left (refl, held, refl, refl)
  gather_all_lem fuel i (m ∷ ms) s f n small ack held fuelled =
      let cs = chunks_of ms in
      let test = has_all-first_missing seen i m cs in
      elim (Bool-cases (has_all seen m)) [
        | inr gap ↦
            let w : first_missing seen i (m ++ cs) < i + length m = ground (arith, test, gap) in
            let stuck : find_fragment s.cumulative_ack [] none s.chunks ≡ none =
              rw (ack, held) (find_fragment-gap base seen true [] none i m cs f.0 n small w) in
            rw (gather_all-none fuel s (nothing_found s stuck), gap) (refl, held, refl, refl)
        | inl all ↦
            let le : i + length m ≤ first_missing seen i (m ++ cs) = ground (arith, test, all) in
            let (low, high) = first_missing_bounds seen i (m ++ cs) in
            let (whole, same) = arrived-whole seen i m cs le in
            let found : find_fragment s.cumulative_ack [] none s.chunks
                ≡ some ([], m ++ arrived seen cs) =
              rw (ack, held, whole)
                (find_fragment-message base (first_missing seen i (m ++ cs)) i m (arrived seen cs)
                  f.0 (IsNumbered-front base i m cs n) le (omega (arith, high, small))) in
            let (t, event, gathered, report, left, acked, window) =
              gather_message s m (arrived seen cs) f.0 found in
            let sizes : length s.chunks ≡ length m + length (arrived seen cs) =
              ap length (held ∙ whole) ∙ length-append m (arrived seen cs) in
            let some_fuel : fuel ≡ suc (fuel - 1) =
              omega (arith, sizes, fuelled, length-message true m f.0) in
            let (events, chunks, ack', window') =
              gather_all_lem (fuel - 1) (i + length m) ms t f.1 (IsNumbered-append base i m cs n)
                (omega (arith, small, length-append m cs)) (acked ∙ ack ∙ (ap (ack_at base) same))
                left (omega (arith, sizes, fuelled, length-message true m f.0, ap length left)) in
            let step = gather_all-some (fuel - 1) s t event gathered in
            rw (some_fuel, step, all)
              (rw (report, events) refl, chunks, ack' ∙ acked, window' ∙ window)
      ]
