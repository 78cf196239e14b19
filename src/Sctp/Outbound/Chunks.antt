-- ===== src/Sctp/Outbound/Chunks.antt =====
-- The chunks of a message that `sendMessage` of transport/sctp/SctpAssociationImpl.cpp writes.
use mathlib.Core.List.{append-nil}
use mathlib.Core.Path.{subst}
use native.Mathlib.Nat.{mul-suc}
use symphony_media_bridge.Common.{
  ℕ, zero, suc, ◌+◌, ◌*◌, ◌≤◌, ◌<◌, ◌≡◌, refl, sym, ap, ◌∙◌, Bool, true, false, some, List, [], ◌∷◌,
  ◌++◌, ◌==◌, length, length-append, take, drop, take-drop, length-take, take_all, add32, arith,
}
use symphony_media_bridge.Sctp.{DataChunk}
use symphony_media_bridge.Sctp.Inbound.{fragment_received}
use symphony_media_bridge.Sctp.Inbound.Order.{tsn_at, IsNumbered}
use symphony_media_bridge.Sctp.Inbound.Fragments.{IsFragmented, payload_of, report_of}
use symphony_media_bridge.Sctp.Outbound.{Heading, data_chunk, write_chunks}

-- None is empty or longer than so many bytes.
abbrev pub AreFilled : ℕ → List DataChunk → Type 0
AreFilled part [] = Unit
AreFilled part (c ∷ cs) = (0 < length c.payload) × (length c.payload ≤ part) × AreFilled part cs

IsFragmented-cons :
    (first : Bool) (c : DataChunk) (cs : List DataChunk)
    → c.fragment_begin ≡ first
    → c.fragment_end ≡ false
    → IsFragmented false cs
    → IsFragmented first (c ∷ cs)
IsFragmented-cons first c [] b e f = elim f [ ]
IsFragmented-cons first c (d ∷ cs) b e f = (b, e, f)

-- The chunks are the message in fragments.
pub record IsWritten (h : Heading) (base part : ℕ) (first : Bool) (k : ℕ) (rest : List ℕ)
    (cs : List DataChunk) : Type 0 where
  pub fragmented : IsFragmented first cs
  pub numbered : IsNumbered base k cs
  pub whole : payload_of cs ≡ rest
  pub filled : AreFilled part cs
  pub reported :
      report_of cs
      ≡ fragment_received h.stream_id h.stream_sequence_number h.payload_protocol rest ∷ []

module _ (h : Heading) (base part : ℕ) (allocated : ℕ → Bool) (room : (j : ℕ) → allocated j ≡ true)
    (some_bytes : 1 ≤ part) where
  pub write_chunks_lem :
      (n i k : ℕ) (rest : List ℕ)
      → length rest ≤ part * suc n
      → part * n < length rest
      → let (written, next) = write_chunks allocated h part (suc n) i (tsn_at base k) rest in
        (cs : List DataChunk) × (written ≡ some cs)
        × (next ≡ tsn_at base (k + suc n))
        × (length cs ≡ suc n)
        × IsWritten h base part (i == 0) k rest cs
  unfolding write_chunks
  write_chunks_lem zero i k rest enough some_left =
      let one : part * 1 ≡ part = omega arith in
      let all : take part rest ≡ rest = take_all part rest (omega (arith, enough, one)) in
      let c = data_chunk h (tsn_at base k) (i == 0) true (take part rest) in
      let whole : payload_of (c ∷ []) ≡ rest = append-nil (take part rest) ∙ all in
      (
        c ∷ [],
        rw (room i) refl,
        rw (room i) (omega arith),
        refl,
        record {
          fragmented = (refl, refl);
          numbered = (refl, tt);
          whole = whole;
          filled = (rw all (omega (arith, some_left)), rw all (omega (arith, enough, one)), tt);
          reported =
              ap
                (λ (l : List ℕ).
                  fragment_received h.stream_id h.stream_sequence_number h.payload_protocol l ∷ [])
                whole;
        },
      )
  write_chunks_lem (suc n) i k rest enough some_left =
      let product = mul-suc part (suc n) in
      let product' = mul-suc part n in
      let front : length (take part rest) ≡ part =
        length-take part rest (omega (arith, some_left, product')) in
      let rejoined = take-drop part rest in
      let size : length (take part rest) + length (drop part rest) ≡ length rest =
        sym (length-append (take part rest) (drop part rest)) ∙ ap length rejoined in
      let (cs, written, next, count, w) =
        write_chunks_lem n (suc i) (suc k) (drop part rest)
          (omega (arith, enough, product, size, front))
          (omega (arith, some_left, product', size, front)) in
      let c = data_chunk h (tsn_at base k) (i == 0) false (take part rest) in
      let step : add32 (tsn_at base k) 1 ≡ tsn_at base (suc k) = omega arith in
      let whole : payload_of (c ∷ cs) ≡ rest =
        ap (λ (l : List ℕ). take part rest ++ l) w.whole ∙ rejoined in
      let more : (suc n == 0) ≡ false = ground arith in
      let later : (suc i == 0) ≡ false = ground arith in
      let fragmented : IsFragmented false cs =
        subst (λ (b : Bool). IsFragmented b cs) later w.fragmented in
      let next_free : suc k + suc n ≡ k + suc (suc n) = omega arith in
      (
        c ∷ cs,
        rw (room i, step, written, more) refl,
        rw (step, room i) (rw next_free at next),
        omega (arith, count),
        record {
          fragmented = IsFragmented-cons (i == 0) c cs refl refl fragmented;
          numbered = (refl, w.numbered);
          whole = whole;
          filled = (omega (arith, front, some_bytes), omega (arith, front), w.filled);
          reported =
              ap
                (λ (l : List ℕ).
                  fragment_received h.stream_id h.stream_sequence_number h.payload_protocol l ∷ [])
                whole;
        },
      )
