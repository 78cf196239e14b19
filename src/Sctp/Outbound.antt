-- ===== src/Sctp/Outbound.antt =====
-- What transport/sctp/SctpAssociationImpl.cpp does with the messages that are sent.
pub mod Sizes
pub mod Chunks
pub mod Messages
pub mod EndToEnd
pub mod Full
use symphony_media_bridge.Common.{
  ℕ, zero, suc, ◌+◌, ◌-◌, ◌*◌, ◌/◌, ◌%◌, ◌^◌, Bool, true, false, not, ◌&&◌, ◌||◌, Option, none,
  some, List, [], ◌∷◌, ◌++◌, if◌then◌else◌, ltb, leb, ◌==◌, min, max, length, take, drop, u32_mod,
  add16, add32, sub32, slt32, sle32,
}
use mathlib.Core.Option
use mathlib.Core.List
use symphony_media_bridge.Common.Maps.{find_entry, update_entry}
use symphony_media_bridge.Sctp.{diff, DataChunk, State, is_established}

-- A chunk that waits for its acknowledgement.
pub record SentDataChunk : Type 0 where
  pub chunk : DataChunk
  pub transmit_time : ℕ
  pub transmit_count : ℕ
  pub nack_count : ℕ

abbrev pub new_sent : DataChunk → SentDataChunk
new_sent c = record { chunk = c; transmit_time = 0; transmit_count = 0; nack_count = 0 }

-- A stream has its id and its counter. `tsn` is the number of the next chunk.
pub record Outbound : Type 0 where
  pub state : State
  pub tsn : ℕ
  pub mtu : ℕ
  pub streams : List (ℕ × ℕ)
  pub chunks : List SentDataChunk

-- `PAYLOAD_DATA_OVERHEAD`, the header of a packet and of a chunk, and `sizeof(SentDataChunk)`.
abbrev pub payload_data_overhead : ℕ
payload_data_overhead = 28

abbrev pub sent_data_chunk_size : ℕ
sent_data_chunk_size = 40

unfoldable pub packet_count : ℕ → ℕ → ℕ
packet_count size payload_mtu =
    if ltb payload_mtu size then (size + payload_mtu - 1) / payload_mtu else 1

unfoldable pub payload_size : ℕ → ℕ → ℕ
payload_size size payload_mtu = min (1 + size / packet_count size payload_mtu) payload_mtu

-- What the chunks of a message have in common.
pub record Heading : Type 0 where
  pub stream_id : ℕ
  pub stream_sequence_number : ℕ
  pub payload_protocol : ℕ

abbrev pub data_chunk : Heading → ℕ → Bool → Bool → List ℕ → DataChunk
data_chunk h tsn begins ends payload = record {
  transmission_sequence_number = tsn;
  stream_id = h.stream_id;
  stream_sequence_number = h.stream_sequence_number;
  payload_protocol = h.payload_protocol;
  fragment_begin = begins;
  fragment_end = ends;
  payload = payload;
}

-- The loop that fills so many chunks from the `i`th on, and the number behind the last one. `none`
-- is a buffer without room, whose answers are `allocated`: the chunks of the message are dropped.
unfoldable pub write_chunks :
    (ℕ → Bool) → Heading → ℕ → ℕ → ℕ → ℕ → List ℕ → Option (List DataChunk) × ℕ
write_chunks allocated h size zero i tsn rest = (some [], tsn)
write_chunks allocated h size (suc n) i tsn rest =
    let (later, next) = write_chunks allocated h size n (suc i) (add32 tsn 1) (drop size rest) in
    if allocated i
    then (
      Option.map (λ (cs : List DataChunk). data_chunk h tsn (i == 0) (n == 0) (take size rest) ∷ cs)
          later,
      next,
    )
    else (none, tsn)

-- `sendMessage` up to the transmission, and whether it goes on to transmit.
unfoldable pub queue_message : Outbound → ℕ → ℕ → List ℕ → ℕ → (ℕ → Bool) → Outbound × Bool × Bool
queue_message s stream_id payload_protocol message capacity allocated =
    elim (find_entry stream_id s.streams) [
      | none ↦ (s, false, false)
      | some counter ↦
          let size = length message in
          let payload_mtu = s.mtu - payload_data_overhead in
          let count = packet_count size payload_mtu in
          let h : Heading = record {
            stream_id = stream_id;
            stream_sequence_number = counter;
            payload_protocol = payload_protocol;
          } in
          let (written, next) =
            write_chunks allocated h (payload_size size payload_mtu) count 0 s.tsn message in
          if not (is_established s.state)
          then (s, false, false)
          else if size == 0
          then (s, true, false)
          else if ltb capacity (count * sent_data_chunk_size + size)
          then (s, false, false)
          else (elim written [
            | none ↦ (record s { tsn = next }, false, false)
            | some cs ↦ (
              record s {
                tsn = next;
                chunks = s.chunks ++ List.map new_sent cs;
                streams = update_entry stream_id (add16 counter 1) s.streams;
              },
              true,
              true,
            )
          ])
    ]
