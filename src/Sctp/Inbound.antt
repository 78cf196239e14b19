-- ===== src/Sctp/Inbound.antt =====
-- What transport/sctp/SctpAssociationImpl.cpp does with the DATA chunks that arrive. The times of
-- arrival and the count of repetitions, which only logs read, are left out.
pub mod Order
pub mod Acks
pub mod Fragments
pub mod Arrival
pub mod Gather
pub mod Sent
pub mod Delivery
use symphony_media_bridge.Common.{
  ℕ, zero, suc, ◌+◌, ◌-◌, ◌%◌, ◌^◌, Bool, true, false, not, ◌&&◌, ◌||◌, Option, none, some, List,
  [], ◌∷◌, ◌++◌, if◌then◌else◌, ltb, leb, ◌==◌, length, u32_mod, add32, sub32, slt32, sle32,
}
use symphony_media_bridge.Common.Maps.{find_entry}
use symphony_media_bridge.Sctp.{diff, DataChunk}

-- What the listener is told, and the answer to an empty chunk.
pub data Event : Type 0 where
  fragment_received : (stream_id stream_sequence_number payload_protocol : ℕ) → List ℕ → Event
  no_user_data : ℕ → Event
  closed : Event

-- The chunks are in the order of `LessReceivedDataChunk`. A stream has its id and its counter.
pub record Inbound : Type 0 where
  pub cumulative_ack : ℕ
  pub advertised_receive_window : ℕ
  pub peer_tsn : ℕ
  pub chunks : List DataChunk
  pub streams : List (ℕ × ℕ)

-- `LessReceivedDataChunk`.
abbrev pub less : ℕ → ℕ → Bool
less a b = slt32 0 (diff a b)

-- `find` and `operator[]` of the map.
abbrev pub has_chunk : ℕ → List DataChunk → Bool
has_chunk tsn [] = false
has_chunk tsn (c ∷ cs) =
    if less c.transmission_sequence_number tsn
    then has_chunk tsn cs
    else not (less tsn c.transmission_sequence_number)

abbrev pub insert_chunk : DataChunk → List DataChunk → List DataChunk
insert_chunk c [] = c ∷ []
insert_chunk c (d ∷ ds) =
    if less d.transmission_sequence_number c.transmission_sequence_number
    then d ∷ insert_chunk c ds
    else if less c.transmission_sequence_number d.transmission_sequence_number
    then c ∷ d ∷ ds
    else c ∷ ds

-- One DATA chunk of a packet: whether it is new, and what is reported. `allocated` is the answer of
-- the ring allocator.
unfoldable pub receive_chunk : Inbound → DataChunk → Bool → Inbound × Bool × List Event
receive_chunk s c allocated =
    let tsn = c.transmission_sequence_number in
    if ltb 0 (length c.payload)
    then (if has_chunk tsn s.chunks || sle32 0 (diff tsn s.cumulative_ack)
        then (s, false, [])
        else if ltb 0 s.advertised_receive_window && allocated
        then (
          record s {
            chunks = insert_chunk c s.chunks;
            peer_tsn = if sle32 0 (diff s.peer_tsn tsn) then add32 tsn 1 else s.peer_tsn;
          },
          true,
          [],
        )
        else (s, false, []))
    else (s, false, no_user_data tsn ∷ closed ∷ [])

-- The chunks of a packet.
unfoldable pub receive_chunks : Inbound → List (DataChunk × Bool) → Inbound × Bool × List Event
receive_chunks s [] = (s, false, [])
receive_chunks s ((c, allocated) ∷ cs) =
    let (t, new, events) = receive_chunk s c allocated in
    let (u, others, more) = receive_chunks t cs in (u, new || others, events ++ more)

-- The first loop of `prepareSack`: the cumulative number, and the chunks where it ends.
abbrev pub advance_ack : ℕ → List DataChunk → ℕ × List DataChunk
advance_ack ack [] = (ack, [])
advance_ack ack (c ∷ cs) =
    let next = add32 ack 1 in
    if sle32 0 (diff c.transmission_sequence_number next)
    then advance_ack (if c.transmission_sequence_number == next then next else ack) cs
    else (ack, c ∷ cs)

-- The loop of `gatherReceivedFragments`: the chunks before the fragment, and those from its first
-- chunk on. `front` are the chunks that the loop has passed.
abbrev pub find_fragment :
    ℕ
    → List DataChunk
    → Option (List DataChunk × List DataChunk)
    → List DataChunk
    → Option (List DataChunk × List DataChunk)
find_fragment ack front begun [] = none
find_fragment ack front begun (c ∷ cs) =
    let begun' : Option (List DataChunk × List DataChunk) =
      if c.fragment_begin then some (front, c ∷ cs) else begun in
    let rest = find_fragment ack (front ++ (c ∷ [])) begun' cs in
    if sle32 0 (diff c.transmission_sequence_number ack)
    then (if c.fragment_end then (elim begun' [ none ↦ rest | some found ↦ some found ]) else rest)
    else none

-- The loop of `reportFragment`: the bytes, and the chunks behind the last one of the fragment,
-- which the loop above has seen.
abbrev pub take_fragment : List DataChunk → List ℕ × List DataChunk
take_fragment [] = ([], [])
take_fragment (c ∷ cs) =
    let (bytes, rest) = take_fragment cs in
    if c.fragment_end then (c.payload, cs) else (c.payload ++ bytes, rest)

unfoldable pub report_fragment :
    Inbound → List DataChunk → DataChunk → List DataChunk → Inbound × Event
report_fragment s before head cs =
    let (bytes, rest) = take_fragment (head ∷ cs) in
    let streams : List (ℕ × ℕ) = elim (find_entry head.stream_id s.streams) [
      | none ↦ (head.stream_id, head.stream_sequence_number) ∷ s.streams
      | some counter ↦ s.streams
    ] in
    (
      record s { chunks = before ++ rest; streams = streams },
      fragment_received head.stream_id head.stream_sequence_number head.payload_protocol bytes,
    )

-- `gatherReceivedFragments`; `none` is its answer `false`.
unfoldable pub gather_received_fragments : Inbound → Option (Inbound × Event)
gather_received_fragments s = elim (find_fragment s.cumulative_ack [] none s.chunks) [
  | none ↦ none
  | some (before, []) ↦ none
  | some (before, head ∷ cs) ↦ some (report_fragment s before head cs)
]

-- The loop that reports, with fuel.
unfoldable pub gather_all : ℕ → Inbound → Inbound × List Event
gather_all zero s = (s, [])
gather_all (suc fuel) s = elim (gather_received_fragments s) [
  | none ↦ (s, [])
  | some (t, event) ↦ let (u, events) = gather_all fuel t in (u, event ∷ events)
]

-- What `onDataReceived` does with the DATA chunks of a packet.
unfoldable pub on_data_received : Inbound → List (DataChunk × Bool) → Inbound × List Event
on_data_received s [] = (s, [])
on_data_received s (c ∷ cs) =
    let (t, new, events) = receive_chunks s (c ∷ cs) in
    let u : Inbound = record t { cumulative_ack = (advance_ack t.cumulative_ack t.chunks).0 } in
    if new
    then (let (v, more) = gather_all (length u.chunks) u in (v, events ++ more))
    else (u, events)
