-- ===== src/Sctp/Outbound/Full.antt =====
-- A message for which the buffer of transport/sctp/SctpAssociationImpl.cpp runs out.
use symphony_media_bridge.Common.{
  ℕ, zero, suc, ◌+◌, ◌-◌, ◌*◌, ◌≤◌, ◌<◌, ◌≡◌, refl, ap, ◌∙◌, Bool, true, false, not, Option, none,
  some, List, ltb, ◌==◌, length, drop, u32_mod, add32, arith,
}
use symphony_media_bridge.Common.Maps.{find_entry}
use symphony_media_bridge.Sctp.{DataChunk, is_established}
use symphony_media_bridge.Sctp.Outbound.{
  Outbound, Heading, packet_count, payload_size, payload_data_overhead, sent_data_chunk_size,
  write_chunks, queue_message,
}
use symphony_media_bridge.Sctp.Outbound.Messages.{Message}

write_chunks_full :
    (allocated : ℕ → Bool) (h : Heading) (part n i j tsn : ℕ) (rest : List ℕ)
    → ((l : ℕ) → l < j → allocated (i + l) ≡ true)
    → allocated (i + j) ≡ false
    → j < n
    → tsn < u32_mod
    → write_chunks allocated h part n i tsn rest ≡ (none, add32 tsn j)
unfolding write_chunks
write_chunks_full allocated h part zero i j tsn rest room full less word =
    absurd (omega (arith, less))
write_chunks_full allocated h part (suc n) i zero tsn rest room full less word =
    let here : allocated i ≡ false = ap allocated (omega arith) ∙ full in
    let same : add32 tsn 0 ≡ tsn = omega (arith, word) in rw (here, same) refl
write_chunks_full allocated h part (suc n) i (suc j) tsn rest room full less word =
    let here : allocated i ≡ true = ap allocated (omega arith) ∙ room 0 (omega arith) in
    let later =
      write_chunks_full allocated h part n (suc i) j (add32 tsn 1) (drop part rest)
        (λ (l : ℕ) (lt : l < j). ap allocated (omega arith) ∙ room (suc l) (omega (arith, lt)))
        (ap allocated (omega arith) ∙ full) (omega (arith, less)) (omega arith) in
    let moved : add32 (add32 tsn 1) j ≡ add32 tsn (suc j) = omega arith in
    rw (here, later, moved) refl

-- Where the buffer has no room for a chunk of a message, none of its chunks is queued and the caller
-- is told so, but the numbers of the chunks before it are gone: the next message begins behind them,
-- and no chunk will ever have them. The association is established, the message is not empty and
-- within the capacity, and its stream is open.
pub queue_message_full :
    (s : Outbound) (m : Message) (capacity j counter : ℕ) (allocated : ℕ → Bool)
    → is_established s.state ≡ true
    → s.tsn < u32_mod
    → 1 ≤ length m.payload
    → packet_count (length m.payload) (s.mtu - payload_data_overhead) * sent_data_chunk_size
        + length m.payload
      ≤ capacity
    → find_entry m.stream_id s.streams ≡ some counter
    → j < packet_count (length m.payload) (s.mtu - payload_data_overhead)
    → ((l : ℕ) → l < j → allocated l ≡ true)
    → allocated j ≡ false
    → queue_message s m.stream_id m.payload_protocol m.payload capacity allocated
      ≡ (record s { tsn = add32 s.tsn j }, false, false)
unfolding queue_message
queue_message_full s m capacity j counter allocated open_state word some_bytes fits known less room
      full =
    let size = length m.payload in
    let payload_mtu = s.mtu - payload_data_overhead in
    let h : Heading = record {
      stream_id = m.stream_id;
      stream_sequence_number = counter;
      payload_protocol = m.payload_protocol;
    } in
    let lost =
      write_chunks_full allocated h (payload_size size payload_mtu) (packet_count size payload_mtu)
        0 j s.tsn m.payload (λ (l : ℕ) (lt : l < j). ap allocated (omega arith) ∙ room l lt)
        (ap allocated (omega arith) ∙ full) less word in
    let filled : (size == 0) ≡ false = ground (arith, some_bytes) in
    let fitted : ltb capacity (packet_count size payload_mtu * sent_data_chunk_size + size)
        ≡ false =
      ground (arith, fits) in
    let closed : not (is_established s.state) ≡ false = ap not open_state in
    let none_written : (write_chunks allocated h (payload_size size payload_mtu)
          (packet_count size payload_mtu) 0 s.tsn m.payload).0
        ≡ none =
      ap (λ (w : Option (List DataChunk) × ℕ). w.0) lost in
    let next : (write_chunks allocated h (payload_size size payload_mtu)
          (packet_count size payload_mtu) 0 s.tsn m.payload).1
        ≡ add32 s.tsn j =
      ap (λ (w : Option (List DataChunk) × ℕ). w.1) lost in
    rw (known, queue_message, closed, filled, fitted, none_written, next) refl
