-- ===== src/Sctp/Outbound/Messages.antt =====
-- A message that `sendMessage` of transport/sctp/SctpAssociationImpl.cpp queues.
use mathlib.Core.List
use mathlib.Core.List.{append_assoc}
use symphony_media_bridge.Common.{
  ℕ, suc, ◌+◌, ◌-◌, ◌*◌, ◌≤◌, ◌<◌, ◌≡◌, refl, sym, ap, ◌∙◌, Bool, true, false, not, some, List,
  ◌++◌, ltb, ◌==◌, length, add16, arith,
}
use symphony_media_bridge.Common.Maps.{find_entry, update_entry}
use symphony_media_bridge.Sctp.{DataChunk, is_established}
use symphony_media_bridge.Sctp.Inbound.Order.{tsn_at}
use symphony_media_bridge.Sctp.Outbound.{
  Outbound, Heading, new_sent, packet_count, payload_size, payload_data_overhead,
  sent_data_chunk_size, write_chunks, queue_message,
}
use symphony_media_bridge.Sctp.Outbound.Sizes.{payload_size-IsDivided}
use symphony_media_bridge.Sctp.Outbound.Chunks.{IsWritten, write_chunks_lem}

pub record Message : Type 0 where
  pub stream_id : ℕ
  pub payload_protocol : ℕ
  pub payload : List ℕ

abbrev pub queue : ℕ → (ℕ → Bool) → Outbound → Message → Outbound
queue capacity allocated s m =
    (queue_message s m.stream_id m.payload_protocol m.payload capacity allocated).0

module _ (capacity : ℕ) (allocated : ℕ → Bool) (room : (j : ℕ) → allocated j ≡ true) where
  -- A message that is sent is queued in fragments that fit into packets, with the next numbers.
  pub queue_message_lem :
      (s : Outbound) (m : Message) (base k counter : ℕ)
      → is_established s.state ≡ true
      → payload_data_overhead < s.mtu
      → s.tsn ≡ tsn_at base k
      → 1 ≤ length m.payload
      → packet_count (length m.payload) (s.mtu - payload_data_overhead) * sent_data_chunk_size
          + length m.payload
        ≤ capacity
      → find_entry m.stream_id s.streams ≡ some counter
      → let (t, sent, transmits) =
          queue_message s m.stream_id m.payload_protocol m.payload capacity allocated in
        (cs : List DataChunk) × (sent ≡ true)
        × (t ≡ record s {
          tsn = tsn_at base (k + length cs);
          chunks = s.chunks ++ List.map new_sent cs;
          streams = update_entry m.stream_id (add16 counter 1) s.streams;
        })
        × IsWritten
            (record {
              stream_id = m.stream_id;
              stream_sequence_number = counter;
              payload_protocol = m.payload_protocol;
            })
            base
            (payload_size (length m.payload) (s.mtu - payload_data_overhead))
            true
            k
            m.payload
            cs
  unfolding queue_message
  queue_message_lem s m base k counter open_state mtu tsn some_bytes fits known =
      let size = length m.payload in
      let payload_mtu = s.mtu - payload_data_overhead in
      let count = packet_count size payload_mtu in
      let part = payload_size size payload_mtu in
      let h : Heading = record {
        stream_id = m.stream_id;
        stream_sequence_number = counter;
        payload_protocol = m.payload_protocol;
      } in
      let (divided, fitting) =
        payload_size-IsDivided size payload_mtu (omega (arith, mtu)) some_bytes in
      let some_count : suc (count - 1) ≡ count = omega (arith, divided.some_chunks) in
      let (cs, written, next, counted, w) =
        write_chunks_lem h base part allocated room divided.some_bytes (count - 1) 0 k m.payload
          (rw some_count divided.enough) divided.not_more in
      let written' : (write_chunks allocated h part count 0 s.tsn m.payload).0 ≡ some cs =
        ap (λ (n : ℕ). (write_chunks allocated h part count 0 n m.payload).0) tsn
        ∙ sym (
            ap (λ (n : ℕ). (write_chunks allocated h part n 0 (tsn_at base k) m.payload).0)
              some_count)
        ∙ written in
      let next' : (write_chunks allocated h part count 0 s.tsn m.payload).1
          ≡ tsn_at base (k + length cs) =
        ap (λ (n : ℕ). (write_chunks allocated h part count 0 n m.payload).1) tsn
        ∙ sym (
            ap (λ (n : ℕ). (write_chunks allocated h part n 0 (tsn_at base k) m.payload).1)
              some_count)
        ∙ next
        ∙ (ap (λ (n : ℕ). tsn_at base (k + n)) (sym counted)) in
      let filled : (size == 0) ≡ false = ground (arith, some_bytes) in
      let fitted : ltb capacity (count * sent_data_chunk_size + size) ≡ false =
        ground (arith, fits) in
      let closed : not (is_established s.state) ≡ false = ap not open_state in
      let queued : queue_message s m.stream_id m.payload_protocol m.payload capacity allocated ≡ (
        record s {
          tsn = tsn_at base (k + length cs);
          chunks = s.chunks ++ List.map new_sent cs;
          streams = update_entry m.stream_id (add16 counter 1) s.streams;
        },
        true,
        true,
      ) =
        rw (known, queue_message, closed, filled, fitted, written', next') refl in
      rw queued (cs, refl, refl, w)
