-- ===== src/Sctp/Inbound/Sent.antt =====
-- Packets of chunks that the peer has sent, as `onDataReceived` of
-- transport/sctp/SctpAssociationImpl.cpp takes them.
use mathlib.Core.List.{append_assoc}
use symphony_media_bridge.Common.{
  ℕ, ◌^◌, ◌<◌, ◌≡◌, refl, sym, ap, ◌∙◌, Bool, true, false, some, List, [], ◌∷◌, ◌++◌, length,
  get_elem?, arith, Bool-cases, inl, inr,
}
use symphony_media_bridge.Common.Values.{is_in}
use symphony_media_bridge.Sctp.{DataChunk}
use symphony_media_bridge.Sctp.Inbound.{
  Inbound, Event, receive_chunk, receive_chunks, on_data_received,
}
use symphony_media_bridge.Sctp.Inbound.Order.{IsNumbered}
use symphony_media_bridge.Sctp.Inbound.Fragments.{report_of}
use symphony_media_bridge.Sctp.Inbound.Arrival.{IsHolding, receive_chunk_lem}
use symphony_media_bridge.Sctp.Inbound.Gather.{has_all, complete, pending}

-- A chunk that the peer has sent is one of the stream, and it is not empty. There is room for it.
abbrev pub IsSent : List DataChunk → DataChunk × Bool → Type 0
IsSent all (c, allocated) =
    (k : ℕ) × (get_elem? all k ≡ some c) × (0 < length c.payload) × (allocated ≡ true)

abbrev pub AreSent : List DataChunk → List (DataChunk × Bool) → Type 0
AreSent all [] = Unit
AreSent all (c ∷ cs) = IsSent all c × AreSent all cs

abbrev pub saw : List (DataChunk × Bool) → List ℕ → List ℕ
saw [] seen = seen
saw ((c, allocated) ∷ cs) seen = saw cs (c.transmission_sequence_number ∷ seen)

-- Packets of chunks that arrive one after the other.
abbrev pub receive_packets : Inbound → List (List (DataChunk × Bool)) → Inbound × List Event
receive_packets s [] = (s, [])
receive_packets s (p ∷ ps) =
    let (t, events) = on_data_received s p in
    let (u, more) = receive_packets t ps in (u, events ++ more)

abbrev pub AreAllSent : List DataChunk → List (List (DataChunk × Bool)) → Type 0
AreAllSent all [] = Unit
AreAllSent all (p ∷ ps) = AreSent all p × AreAllSent all ps

abbrev pub saw_all : List (List (DataChunk × Bool)) → List ℕ → List ℕ
saw_all [] seen = seen
saw_all (p ∷ ps) seen = saw_all ps (saw p seen)

saw-is_in :
    (x : ℕ) (p : List (DataChunk × Bool)) (seen : List ℕ)
    → is_in x seen ≡ true
    → is_in x (saw p seen) ≡ true
saw-is_in x [] seen h = h
saw-is_in x ((c, allocated) ∷ cs) seen h =
    saw-is_in x cs (c.transmission_sequence_number ∷ seen) (ground (arith, h))

pub saw_all-is_in :
    (x : ℕ) (ps : List (List (DataChunk × Bool))) (seen : List ℕ)
    → is_in x seen ≡ true
    → is_in x (saw_all ps seen) ≡ true
saw_all-is_in x [] seen h = h
saw_all-is_in x (p ∷ ps) seen h = saw_all-is_in x ps (saw p seen) (saw-is_in x p seen h)

module _ (seen later : List ℕ) (more : (x : ℕ) → is_in x seen ≡ true → is_in x later ≡ true) where
  has_all-later : (m : List DataChunk) → has_all seen m ≡ true → has_all later m ≡ true
  has_all-later [] h = refl
  has_all-later (c ∷ m) h = ground (arith, h, has_all-later m, more c.transmission_sequence_number)

  -- What is complete later is what is complete now, and what becomes so of the rest.
  pub complete-later :
      (ms : List (List DataChunk))
      → complete later ms ≡ complete seen ms ++ complete later (pending seen ms)
  complete-later [] = refl
  complete-later (m ∷ ms) = elim (Bool-cases (has_all seen m)) [
    | inr gap ↦ rw gap refl
    | inl all ↦
        let all' = has_all-later m all in
        rw (all, all')
          (ap (λ (l : List Event). report_of m ++ l) (complete-later ms)
            ∙ sym
                (append_assoc (report_of m) (complete seen ms) (complete later (pending seen ms))))
  ]

module _ (base : ℕ) (pre cs : List DataChunk) (n : IsNumbered base 0 (pre ++ cs))
    (small : length (pre ++ cs) < 2 ^ 31) where
  pub receive_chunks_lem :
      (seen : List ℕ) (s : Inbound) (p : List (DataChunk × Bool))
      → IsHolding base seen (length pre) cs s
      → AreSent (pre ++ cs) p
      → let (t, new, events) = receive_chunks s p in
        IsHolding base (saw p seen) (length pre) cs t × (new ≡ false → t ≡ s) × (events ≡ [])
  unfolding receive_chunks
  receive_chunks_lem seen s [] h sent = (h, λ _. refl, refl)
  receive_chunks_lem seen s ((c, allocated) ∷ p) h ((k, at, full, room), sent) =
      let (h1, kept1, quiet1) = receive_chunk_lem base pre cs n small seen s c k h at full in
      let (h2, kept2, quiet2) =
        receive_chunks_lem (c.transmission_sequence_number ∷ seen) (receive_chunk s c true).0 p h1
          sent in
      rw room (
        h2,
        λ old. kept2 (ground (arith, old)) ∙ kept1 (ground (arith, old)),
        rw (quiet1, quiet2) refl,
      )
