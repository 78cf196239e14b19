-- ===== src/Sctp/Acked/Remaining.antt =====
-- The chunks that an association of transport/sctp keeps when an acknowledgement arrives.
use symphony_media_bridge.Common.{
  ℕ, suc, ◌+◌, ◌-◌, ◌^◌, ◌≤◌, ◌<◌, ◌≡◌, refl, sym, ap, ◌∙◌, Bool, false, ◌||◌, List, [], ◌∷◌,
  if◌then◌else◌, ltb, leb, ◌==◌, length, u32_mod, slt32, sle32, arith, Bool-cases, inl, inr,
}
use symphony_media_bridge.Sctp.{diff, DataChunk}
use symphony_media_bridge.Sctp.Outbound.{SentDataChunk}
use symphony_media_bridge.Sctp.Inbound.Order.{tsn_at}
use symphony_media_bridge.Sctp.Sack.{SelectiveAck, is_in_blocks, is_acknowledged}
use symphony_media_bridge.Sctp.Acked.Blocks.{AreBlocks, find_block_lem}
use symphony_media_bridge.Sctp.Acked.{
  Sender, Verdict, missing, inside, unknown, tsn_of, size_of, drop_acked, find_block,
  is_inside_block, count_nack, process_gaps, retransmit_one, handle_fast_retransmits, on_sack,
}

-- The chunks have numbers in order, from a place on and below 2 ^ 30.
abbrev pub IsAscending : ℕ → ℕ → List SentDataChunk → Type 0
IsAscending base lo [] = Unit
IsAscending base lo (c ∷ cs) =
    (i : ℕ) × (lo ≤ i) × (i < 2 ^ 30) × (tsn_of c ≡ tsn_at base i) × IsAscending base (suc i) cs

-- Whether a number is acknowledged, with those up to the cumulative one.
abbrev pub is_done : SelectiveAck → ℕ → Bool
is_done ack tsn = sle32 0 (diff tsn ack.cumulative_tsn_ack) || is_acknowledged ack tsn

abbrev pub left_over : SelectiveAck → List DataChunk → List DataChunk
left_over ack [] = []
left_over ack (c ∷ cs) =
    let rest = left_over ack cs in
    if is_done ack c.transmission_sequence_number then rest else c ∷ rest

abbrev pub chunks_of : List SentDataChunk → List DataChunk
chunks_of [] = []
chunks_of (c ∷ cs) = c.chunk ∷ chunks_of cs

abbrev pub bytes_of : List DataChunk → ℕ
bytes_of [] = 0
bytes_of (c ∷ cs) = length c.payload + bytes_of cs

-- Those that no block has.
abbrev left_in : SelectiveAck → List (ℕ × ℕ) → List DataChunk → List DataChunk
left_in ack bs [] = []
left_in ack bs (c ∷ cs) =
    let rest = left_in ack bs cs in
    if is_in_blocks ack bs c.transmission_sequence_number then rest else c ∷ rest

left_in-none : (ack : SelectiveAck) (cs : List DataChunk) → left_in ack [] cs ≡ cs
left_in-none ack [] = refl
left_in-none ack (c ∷ cs) = ap (λ (l : List DataChunk). c ∷ l) (left_in-none ack cs)

count_nack-chunk : (v : Verdict) (c : SentDataChunk) → (count_nack v c).0.chunk ≡ c.chunk
count_nack-chunk missing c = elim (Bool-cases (ltb 0 c.transmit_count)) [
  | inl sent ↦ rw sent refl
  | inr waits ↦ rw waits refl
]
count_nack-chunk inside c = refl
count_nack-chunk unknown c = refl

module _ (base k : ℕ) (ack : SelectiveAck) (cumulative : ack.cumulative_tsn_ack ≡ tsn_at base k)
    (small : k < 2 ^ 30) where
  left_in-same :
      (i : ℕ) (bs bs' : List (ℕ × ℕ)) (cs : List SentDataChunk)
      → IsAscending base i cs
      → ((j tsn : ℕ)
          → i ≤ j
          → j < 2 ^ 30
          → tsn ≡ tsn_at base j
          → is_in_blocks ack bs' tsn ≡ is_in_blocks ack bs tsn)
      → left_in ack bs' (chunks_of cs) ≡ left_in ack bs (chunks_of cs)
  left_in-same i bs bs' [] o same = refl
  left_in-same i bs bs' (c ∷ cs) (j, le, near, e, o) same =
      let here = same j (tsn_of c) le near e in
      let rest =
        left_in-same (suc j) bs bs' cs o
          (λ (j' : ℕ) (tsn : ℕ) (le' : suc j ≤ j'). same j' tsn (omega (arith, le, le'))) in
      rw (here, rest) refl

  -- The chunks that stay, and the bytes of the others.
  process_gaps_lem :
      (lo i : ℕ) (bs : List (ℕ × ℕ)) (cs : List SentDataChunk)
      → AreBlocks lo bs
      → IsAscending base i cs
      → bytes_of (chunks_of cs) < u32_mod
      → let (losses, bytes, rest) = process_gaps ack bs [] cs in
        (chunks_of rest ≡ left_in ack bs (chunks_of cs))
        × (bytes + bytes_of (chunks_of rest) ≡ bytes_of (chunks_of cs))
  process_gaps_lem lo i bs [] a o few = (refl, refl)
  process_gaps_lem lo i [] (c ∷ cs) a o few =
      (sym (left_in-none ack (chunks_of (c ∷ cs))), omega arith)
  process_gaps_lem lo i (b ∷ bs) (c ∷ cs) a (j, le, near, e, o) few =
      let (verdict, bs') = find_block ack (b ∷ bs) (tsn_of c) in
      let (same, kept, after) =
        find_block_lem base k ack cumulative small lo j (tsn_of c) (b ∷ bs) a near e in
      let (stay, bytes) = process_gaps_lem lo (suc j) bs' cs kept o (omega (arith, few)) in
      let later =
        left_in-same (suc j) (b ∷ bs) bs' cs o
          (λ (j' : ℕ) (tsn : ℕ) (le' : suc j ≤ j'). after j' tsn (omega (arith, le'))) in
      let own = count_nack-chunk verdict c in
      let size : size_of (count_nack verdict c).0 ≡ size_of c =
        ap (λ (d : DataChunk). length d.payload) own in
      elim (Bool-cases (is_inside_block verdict)) [
        | inl acked ↦
            let found = sym same ∙ acked in
            rw (acked, found) (stay ∙ later, ground (arith, bytes, few))
        | inr waits ↦
            let found = sym same ∙ waits in
            rw (waits, found)
              (
                ap (λ (d : DataChunk). d ∷ chunks_of (process_gaps ack bs' [] cs).2) own
                    ∙ (ap (λ (l : List DataChunk). c.chunk ∷ l) (stay ∙ later)),
                omega (arith, bytes, size),
              )
      ]

  passed_lem :
      (i tsn : ℕ)
      → i < 2 ^ 30
      → tsn ≡ tsn_at base i
      → sle32 0 (diff tsn ack.cumulative_tsn_ack) ≡ leb i k
  passed_lem i tsn near e = rw (e, cumulative) (ground (arith, near, small))

  left_over-beyond :
      (i : ℕ) (cs : List SentDataChunk)
      → k < i
      → IsAscending base i cs
      → left_over ack (chunks_of cs) ≡ left_in ack ack.gap_ack_blocks (chunks_of cs)
  left_over-beyond i [] beyond o = refl
  left_over-beyond i (c ∷ cs) beyond (j, le, near, e, o) =
      let here = passed_lem j (tsn_of c) near e in
      let far : leb j k ≡ false = ground (arith, beyond, le) in
      let rest = left_over-beyond (suc j) cs (omega (arith, beyond, le)) o in
      rw (here, far, rest) refl

  -- The chunks beyond the cumulative number, and the bytes of the others.
  drop_acked_lem :
      (i : ℕ) (cs : List SentDataChunk)
      → IsAscending base i cs
      → bytes_of (chunks_of cs) < u32_mod
      → let (bytes, rest) = drop_acked ack.cumulative_tsn_ack cs in
        IsAscending base (suc k) rest
        × (left_over ack (chunks_of cs) ≡ left_in ack ack.gap_ack_blocks (chunks_of rest))
        × (bytes + bytes_of (chunks_of rest) ≡ bytes_of (chunks_of cs))
  drop_acked_lem i [] o few = (tt, refl, refl)
  drop_acked_lem i (c ∷ cs) (j, le, near, e, o) few =
      let (ascends, same, bytes) = drop_acked_lem (suc j) cs o (omega (arith, few)) in
      let here = passed_lem j (tsn_of c) near e in
      elim (Bool-cases (leb j k)) [
        | inl acked ↦ rw (here, acked) (ascends, same, omega (arith, bytes, few))
        | inr far ↦
            let order : k < j = ground (arith, far) in
            let later = left_over-beyond (suc j) cs (omega (arith, order)) o in
            rw (here, far, later) ((j, order, near, e, o), refl, omega arith)
      ]

retransmit_one-chunks :
    (timestamp capacity : ℕ) (cs : List SentDataChunk)
    → chunks_of (retransmit_one timestamp capacity cs) ≡ chunks_of cs
retransmit_one-chunks timestamp capacity [] = refl
retransmit_one-chunks timestamp capacity (c ∷ cs) =
    let rest = retransmit_one-chunks timestamp capacity cs in
    let more = ap (λ (l : List DataChunk). c.chunk ∷ l) rest in
    elim (Bool-cases (c.nack_count == 3)) [
      | inr other ↦ rw other more
      | inl third ↦ elim (Bool-cases (ltb (size_of c + 16) capacity)) [
        | inl fits ↦ rw (third, fits) refl
        | inr large ↦ rw (third, large) more
      ]
    ]

handle_fast_retransmits_lem :
    (s : Sender) (timestamp capacity : ℕ)
    → let t = handle_fast_retransmits s timestamp capacity in
      (chunks_of t.chunks ≡ chunks_of s.chunks)
      × (t.peer_cumulative_ack ≡ s.peer_cumulative_ack)
      × (t.peer_receive_window ≡ s.peer_receive_window)
unfolding handle_fast_retransmits
handle_fast_retransmits_lem s timestamp capacity =
    let again = retransmit_one-chunks timestamp capacity s.chunks in
    elim (Bool-cases (handle_fast_retransmits s timestamp capacity).flow.in_fast_recovery) [
      | inl recovers ↦ rw recovers (again, refl, refl)
      | inr normal ↦ rw normal (refl, refl, refl)
    ]

-- An acknowledgement that is not older than the last one leaves exactly the chunks that it does not
-- acknowledge, neither by its cumulative number nor in one of its blocks, in their order and with
-- what they carry, and the window of the peer is the one that it names less the bytes of the others.
-- The chunks have ascending numbers within 2 ^ 30 of a base, as has the cumulative number, the
-- blocks begin in ascending order, no number is reported as a duplicate, and fewer than 2 ^ 32 bytes
-- wait.
pub on_sack_lem :
    (base k timestamp retransmit_timeout capacity : ℕ) (s : Sender) (ack : SelectiveAck)
    → ack.cumulative_tsn_ack ≡ tsn_at base k
    → k < 2 ^ 30
    → IsAscending base 0 s.chunks
    → AreBlocks 0 ack.gap_ack_blocks
    → bytes_of (chunks_of s.chunks) < u32_mod
    → slt32 (diff s.peer_cumulative_ack ack.cumulative_tsn_ack) 0 ≡ false
    → let t = on_sack s ack [] timestamp retransmit_timeout capacity in
      let kept = left_over ack (chunks_of s.chunks) in
      (chunks_of t.chunks ≡ kept)
      × (t.peer_cumulative_ack ≡ ack.cumulative_tsn_ack)
      × (t.peer_receive_window
          ≡ ack.advertised_receiver_window - (bytes_of (chunks_of s.chunks) - bytes_of kept))
unfolding on_sack
on_sack_lem base k timestamp retransmit_timeout capacity s ack cumulative small o a few newer =
    let (ascends, same, dropped) = drop_acked_lem base k ack cumulative small 0 s.chunks o few in
    let (stay, gone) =
      process_gaps_lem base k ack cumulative small 0 (suc k) ack.gap_ack_blocks
        (drop_acked ack.cumulative_tsn_ack s.chunks).1 a ascends (omega (arith, dropped, few)) in
    let (resent, number, window) = handle_fast_retransmits_lem _ timestamp capacity in
    let kept = ap bytes_of (same ∙ sym stay) in
    rw newer (resent ∙ stay ∙ sym same, number, window ∙ (ground (arith, dropped, gone, few, kept)))
