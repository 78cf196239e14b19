-- ===== src/Sctp/Inbound/Fragments.antt =====
-- The messages of a stream in their fragments, and how `gatherReceivedFragments` finds them.
use mathlib.Core.List.{append-nil}
use symphony_media_bridge.Common.{
  ℕ, suc, ◌+◌, ◌^◌, ◌≤◌, ◌<◌, ◌≡◌, refl, ap, ◌∙◌, Bool, true, false, Option, none, some, List, [],
  ◌∷◌, ◌++◌, if◌then◌else◌, length, sle32, arith, Bool-cases, inl, inr,
}
use symphony_media_bridge.Common.Values.{is_in}
use symphony_media_bridge.Sctp.{diff, DataChunk}
use symphony_media_bridge.Sctp.Inbound.{Event, fragment_received, find_fragment, take_fragment}
use symphony_media_bridge.Sctp.Inbound.Order.{
  tsn_at, ack_at, IsNumbered, arrived, first_missing, upto_ack,
}
use symphony_media_bridge.Sctp.Inbound.Acks.{first_missing_bounds}

-- The first chunk of a message begins a fragment, where `first` holds, and the last one alone ends it.
abbrev pub IsFragmented : Bool → List DataChunk → Type 0
IsFragmented first [] = ⊥
IsFragmented first (c ∷ []) = (c.fragment_begin ≡ first) × (c.fragment_end ≡ true)
IsFragmented first (c ∷ d ∷ cs) =
    (c.fragment_begin ≡ first) × (c.fragment_end ≡ false) × IsFragmented false (d ∷ cs)

abbrev pub payload_of : List DataChunk → List ℕ
payload_of [] = []
payload_of (c ∷ cs) = c.payload ++ payload_of cs

-- What is reported of a message: what its first chunk says, and its whole payload.
abbrev pub report_of : List DataChunk → List Event
report_of [] = []
report_of (c ∷ cs) =
    fragment_received c.stream_id c.stream_sequence_number c.payload_protocol (payload_of (c ∷ cs))
    ∷ []

pub take_fragment-append :
    (first : Bool) (m cs : List DataChunk)
    → IsFragmented first m
    → take_fragment (m ++ cs) ≡ (payload_of m, cs)
take_fragment-append first [] cs f = elim f [ ]
take_fragment-append first (c ∷ []) cs (b, e) = rw (e, append-nil c.payload) refl
take_fragment-append first (c ∷ d ∷ m) cs (b, e, f) =
    let rest = take_fragment-append false (d ∷ m) cs f in rw (e, rest) refl

abbrev pub Found : Type 0
Found = Option (List DataChunk × List DataChunk)

-- One round of the loop, by its tests.
goes_on :
    (within ends : Bool) (begun begun' : Found) (loop : Found → Found)
    → within ≡ true
    → ends ≡ false
    → begun ≡ begun'
    → let rest = loop begun in
      (if within
        then (if ends then (elim begun [ none ↦ rest | some found ↦ some found ]) else rest)
        else none)
      ≡ loop begun'
goes_on within ends begun begun' loop w e b = rw (w, e) (ap loop b)

find_fragment-step :
    (ack : ℕ) (front : List DataChunk) (begun begun' : Found) (c : DataChunk) (cs : List DataChunk)
    → sle32 0 (diff c.transmission_sequence_number ack) ≡ true
    → c.fragment_end ≡ false
    → (if c.fragment_begin then some (front, c ∷ cs) else begun) ≡ begun'
    → find_fragment ack front begun (c ∷ cs) ≡ find_fragment ack (front ++ (c ∷ [])) begun' cs
find_fragment-step ack front begun begun' c cs w e b =
    goes_on (sle32 0 (diff c.transmission_sequence_number ack)) c.fragment_end _ begun'
      (λ (l : Found). find_fragment ack (front ++ (c ∷ [])) l cs) w e b

module _ (base a : ℕ) where
  -- The loop ends at the numbers that are not acknowledged.
  find_fragment-beyond :
      (seen : List ℕ) (front : List DataChunk) (begun : Found) (i : ℕ) (cs : List DataChunk)
      → IsNumbered base i cs
      → a ≤ i
      → i + length cs < 2 ^ 31
      → find_fragment (ack_at base a) front begun (arrived seen cs) ≡ none
  find_fragment-beyond seen front begun i [] n beyond small = refl
  find_fragment-beyond seen front begun i (c ∷ cs) (here, n) beyond small =
      let rest =
        find_fragment-beyond seen front begun (suc i) cs n (omega (arith, beyond))
          (omega (arith, small)) in
      let ends : sle32 0 (diff c.transmission_sequence_number (ack_at base a)) ≡ false = rw here (
        upto_ack base i a (omega (arith, small)) (omega (arith, small, beyond))
        ∙ (ground (arith, beyond))) in
      elim (Bool-cases (is_in c.transmission_sequence_number seen)) [
        | inl got ↦ rw (got, ends) refl
        | inr absent ↦ rw absent rest
      ]

  within :
      (i : ℕ) (c : DataChunk)
      → c.transmission_sequence_number ≡ tsn_at base i
      → i < a
      → a < 2 ^ 31
      → sle32 0 (diff c.transmission_sequence_number (ack_at base a)) ≡ true
  within i c here before small =
      rw here (upto_ack base i a (omega (arith, small, before)) small ∙ (ground (arith, before)))

  -- A fragment that has begun is found at its end.
  find_fragment-rest :
      (front : List DataChunk) (found : List DataChunk × List DataChunk) (i : ℕ)
      (m cs : List DataChunk)
      → IsFragmented false m
      → IsNumbered base i m
      → i + length m ≤ a
      → a < 2 ^ 31
      → find_fragment (ack_at base a) front (some found) (m ++ cs) ≡ some found
  find_fragment-rest front found i [] cs f n whole small = elim f [ ]
  find_fragment-rest front found i (c ∷ []) cs (b, e) (here, n) whole small =
      rw (b, within i c here (omega (arith, whole)) small, e) refl
  find_fragment-rest front found i (c ∷ d ∷ m) cs (b, e, f) (here, n) whole small =
      let inside = within i c here (omega (arith, whole)) small in
      let rest =
        find_fragment-rest (front ++ (c ∷ [])) found (suc i) (d ∷ m) cs f n (omega (arith, whole))
          small in
      find_fragment-step (ack_at base a) front (some found) (some found) c (d ∷ m ++ cs) inside e
        (ap (λ (t : Bool). if t then some (front, c ∷ d ∷ m ++ cs) else some found) b)
      ∙ rest

  -- A message at the front that has arrived is found whole.
  pub find_fragment-message :
      (i : ℕ) (m cs : List DataChunk)
      → IsFragmented true m
      → IsNumbered base i m
      → i + length m ≤ a
      → a < 2 ^ 31
      → find_fragment (ack_at base a) [] none (m ++ cs) ≡ some ([], m ++ cs)
  find_fragment-message i [] cs f n whole small = elim f [ ]
  find_fragment-message i (c ∷ []) cs (b, e) (here, n) whole small =
      rw (b, within i c here (omega (arith, whole)) small, e) refl
  find_fragment-message i (c ∷ d ∷ m) cs (b, e, f) (here, n) whole small =
      let inside = within i c here (omega (arith, whole)) small in
      let rest =
        find_fragment-rest (c ∷ []) ([], c ∷ d ∷ m ++ cs) (suc i) (d ∷ m) cs f n
          (omega (arith, whole)) small in
      find_fragment-step (ack_at base a) [] none (some ([], c ∷ d ∷ m ++ cs)) c (d ∷ m ++ cs) inside
        e (ap (λ (t : Bool). if t then some ([], c ∷ d ∷ m ++ cs) else none) b)
      ∙ rest

-- Nothing is found where the first gap lies in the message at the front.
pub find_fragment-gap :
    (base : ℕ) (seen : List ℕ) (first : Bool) (front : List DataChunk) (begun : Found) (i : ℕ)
    (m cs : List DataChunk)
    → IsFragmented first m
    → IsNumbered base i (m ++ cs)
    → i + length (m ++ cs) < 2 ^ 31
    → let a = first_missing seen i (m ++ cs) in
      a < i + length m → find_fragment (ack_at base a) front begun (arrived seen (m ++ cs)) ≡ none
find_fragment-gap base seen first front begun i [] cs f n small gap = elim f [ ]
find_fragment-gap base seen first front begun i (c ∷ []) cs f (here, n) small gap =
    elim (Bool-cases (is_in c.transmission_sequence_number seen)) [
      | inl got ↦ absurd (ground (arith, got, gap, first_missing_bounds seen (suc i) cs))
      | inr absent ↦ rw absent (
          find_fragment-beyond base i seen front begun (suc i) cs n (omega arith)
            (omega (arith, small)))
    ]
find_fragment-gap base seen first front begun i (c ∷ d ∷ m) cs (b, e, f) (here, n) small gap =
    elim (Bool-cases (is_in c.transmission_sequence_number seen)) [
      | inr absent ↦ rw absent (
          find_fragment-beyond base i seen front begun (suc i) (d ∷ m ++ cs) n (omega arith)
            (omega (arith, small)))
      | inl got ↦
          let a = first_missing seen (suc i) (d ∷ m ++ cs) in
          let (low, high) = first_missing_bounds seen (suc i) (d ∷ m ++ cs) in
          let gap' : a < suc i + length (d ∷ m) = ground (arith, got, gap) in
          let inside = within base a i c here (omega (arith, low)) (omega (arith, high, small)) in
          let begun' : Found =
            if c.fragment_begin then some (front, c ∷ arrived seen (d ∷ m ++ cs)) else begun in
          let rest =
            find_fragment-gap base seen false (front ++ (c ∷ [])) begun' (suc i) (d ∷ m) cs f n
              (omega (arith, small)) gap' in
          let step =
            find_fragment-step (ack_at base a) front begun begun' c (arrived seen (d ∷ m ++ cs))
              inside e refl in
          rw got (step ∙ rest)
    ]
