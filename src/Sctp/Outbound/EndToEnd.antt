-- ===== src/Sctp/Outbound/EndToEnd.antt =====
-- Messages that are sent and delivered: `sendMessage` and `onDataReceived` of
-- transport/sctp/SctpAssociationImpl.cpp at the two ends of an association.
use mathlib.Core.List
use mathlib.Core.List.{append_assoc, append-nil, map-append}
use mathlib.Core.Path.{subst}
use symphony_media_bridge.Common.{
  ℕ, suc, ◌+◌, ◌-◌, ◌*◌, ◌^◌, ◌≤◌, ◌<◌, ◌≡◌, refl, sym, ap, ◌∙◌, Bool, true, ◌&&◌, none, some, List,
  [], ◌∷◌, ◌++◌, ◌==◌, length, u32_mod, add16, arith, Bool-cases, inl, inr,
}
use symphony_media_bridge.Common.Maps.{find_entry, update_entry, find-update}
use symphony_media_bridge.Sctp.{DataChunk, is_established}
use symphony_media_bridge.Sctp.Inbound.{Inbound, Event, fragment_received}
use symphony_media_bridge.Sctp.Inbound.Order.{tsn_at, ack_at, IsNumbered}
use symphony_media_bridge.Sctp.Inbound.Gather.{chunks_of, AreFragmented, has_all, complete}
use symphony_media_bridge.Sctp.Inbound.Sent.{AreAllSent, saw_all, receive_packets}
use symphony_media_bridge.Sctp.Inbound.Delivery.{receive_packets_in_order}
use symphony_media_bridge.Sctp.Outbound.{
  Outbound, SentDataChunk, new_sent, packet_count, payload_data_overhead, sent_data_chunk_size,
}
use symphony_media_bridge.Sctp.Outbound.Messages.{Message, queue, queue_message_lem}

-- No message is empty, each fits into the buffer, and its stream is open.
abbrev pub AreSendable : ℕ → ℕ → List (ℕ × ℕ) → List Message → Type 0
AreSendable mtu capacity streams [] = Unit
AreSendable mtu capacity streams (m ∷ ms) =
    let size = length m.payload in
    (1 ≤ size)
    × (packet_count size (mtu - payload_data_overhead) * sent_data_chunk_size + size ≤ capacity)
    × ((counter : ℕ) × (find_entry m.stream_id streams ≡ some counter))
    × AreSendable mtu capacity streams ms

-- What the listener of the other end is told of the messages: their streams, numbered in each
-- stream from its counter on.
abbrev pub reports : List (ℕ × ℕ) → List Message → List Event
reports streams [] = []
reports streams (m ∷ ms) = elim (find_entry m.stream_id streams) [
  | none ↦ []
  | some counter ↦
      fragment_received m.stream_id counter m.payload_protocol m.payload
      ∷ reports (update_entry m.stream_id (add16 counter 1) streams) ms
]

IsNumbered-join :
    (base k : ℕ) (cs ds : List DataChunk)
    → IsNumbered base k cs
    → IsNumbered base (k + length cs) ds
    → IsNumbered base k (cs ++ ds)
IsNumbered-join base k [] ds n n' = let e : k + 0 ≡ k = omega arith in rw e at n'
IsNumbered-join base k (c ∷ cs) ds n n' =
    let e : k + suc (length cs) ≡ suc k + length cs = omega arith in
    (n.0, IsNumbered-join base (suc k) cs ds n.1 (rw e at n'))

has_all-append :
    (seen : List ℕ) (cs ds : List DataChunk)
    → has_all seen (cs ++ ds) ≡ (has_all seen cs && has_all seen ds)
has_all-append seen [] ds = refl
has_all-append seen (c ∷ cs) ds = ground (arith, has_all-append seen cs ds)

AreSendable-update :
    (mtu capacity id counter : ℕ) (streams : List (ℕ × ℕ)) (ms : List Message) {old : ℕ}
    → find_entry id streams ≡ some old
    → AreSendable mtu capacity streams ms
    → AreSendable mtu capacity (update_entry id counter streams) ms
AreSendable-update mtu capacity id counter streams [] known a = tt
AreSendable-update mtu capacity id counter streams (m ∷ ms) {old} known
      (some_bytes, fits, open_stream, a) =
    let rest = AreSendable-update mtu capacity id counter streams ms {old = old} known a in
    let found = find-update id m.stream_id counter streams in
    (
      some_bytes,
      fits,
      elim (Bool-cases (id == m.stream_id)) [
        | inl this ↦ (counter, found ∙ (rw (this, known) refl))
        | inr other ↦ (open_stream.0, found ∙ (rw other open_stream.1))
      ],
      rest,
    )

sent_chunks : (cs : List DataChunk) → List.map SentDataChunk.chunk (List.map new_sent cs) ≡ cs
sent_chunks [] = refl
sent_chunks (c ∷ cs) = ap (λ (l : List DataChunk). c ∷ l) (sent_chunks cs)

reports-cons :
    (streams : List (ℕ × ℕ)) (m : Message) (ms : List Message) (counter : ℕ)
    → find_entry m.stream_id streams ≡ some counter
    → reports streams (m ∷ ms)
      ≡ fragment_received m.stream_id counter m.payload_protocol m.payload
        ∷ reports (update_entry m.stream_id (add16 counter 1) streams) ms
reports-cons streams m ms counter known = rw (known, reports) refl

abbrev pub queue_all : ℕ → (ℕ → Bool) → Outbound → List Message → Outbound
queue_all capacity allocated s [] = s
queue_all capacity allocated s (m ∷ ms) =
    queue_all capacity allocated (queue capacity allocated s m) ms

module _ (capacity : ℕ) (allocated : ℕ → Bool) (room : (j : ℕ) → allocated j ≡ true) where
  -- The chunks that are queued are the messages in fragments, numbered on.
  queue_all_lem :
      (ms : List Message) (s : Outbound) (base k : ℕ)
      → is_established s.state ≡ true
      → payload_data_overhead < s.mtu
      → s.tsn ≡ tsn_at base k
      → AreSendable s.mtu capacity s.streams ms
      → (css : List (List DataChunk)) × ((queue_all capacity allocated s ms).chunks
          ≡ s.chunks ++ List.map new_sent (chunks_of css))
        × AreFragmented css
        × IsNumbered base k (chunks_of css)
        × ((seen : List ℕ)
            → has_all seen (chunks_of css) ≡ true
            → complete seen css ≡ reports s.streams ms)
  queue_all_lem [] s base k open_state mtu tsn a =
      ([], sym (append-nil s.chunks), tt, tt, λ seen all. refl)
  queue_all_lem (m ∷ ms) s base k open_state mtu tsn (some_bytes, fits, (counter, known), a) =
      let (cs, sent, queued, w) =
        queue_message_lem capacity allocated room s m base k counter open_state mtu tsn some_bytes
          fits known in
      let t : Outbound = record s {
        tsn = tsn_at base (k + length cs);
        chunks = s.chunks ++ List.map new_sent cs;
        streams = update_entry m.stream_id (add16 counter 1) s.streams;
      } in
      let (css, chunks, f, n, told) = queue_all_lem ms t base (k + length cs) open_state mtu refl (
        AreSendable-update s.mtu capacity m.stream_id (add16 counter 1) s.streams ms {old = counter}
          known a) in
      (
        cs ∷ css,
        ap (λ (u : Outbound). (queue_all capacity allocated u ms).chunks) queued
            ∙ chunks
            ∙ (append_assoc s.chunks (List.map new_sent cs) (List.map new_sent (chunks_of css)))
            ∙ (ap (λ (l : List SentDataChunk). s.chunks ++ l)
                (sym (map-append new_sent cs (chunks_of css)))),
        (w.fragmented, f),
        IsNumbered-join base k cs (chunks_of css) w.numbered n,
        λ seen all.
            let both = has_all-append seen cs (chunks_of css) in
            let first : has_all seen cs ≡ true = ground (arith, both, all) in
            let others : has_all seen (chunks_of css) ≡ true = ground (arith, both, all) in
            rw (first, reports-cons s.streams m ms counter known, w.reported, told seen others)
              refl,
      )

-- The chunks of the messages.
abbrev pub sent_of : ℕ → (ℕ → Bool) → Outbound → List Message → List DataChunk
sent_of capacity allocated s ms =
    List.map SentDataChunk.chunk (queue_all capacity allocated s ms).chunks

-- Where the other end begins at the number of the first chunk, and packets of the queued chunks
-- arrive in any order and any number of times, until each has arrived once, the listener there is
-- told of exactly the messages, in the order in which they were sent, whole, and numbered within
-- their streams. The association is established, each message is not empty and fits into the buffer
-- and its stream is open, there is room for all that arrives, and fewer than 2 ^ 31 chunks are sent.
pub messages_arrive :
    (capacity : ℕ) (allocated : ℕ → Bool) (s : Outbound) (ms : List Message) (t : Inbound)
    (ps : List (List (DataChunk × Bool)))
    → ((j : ℕ) → allocated j ≡ true)
    → is_established s.state ≡ true
    → payload_data_overhead < s.mtu
    → s.tsn < u32_mod
    → s.chunks ≡ []
    → AreSendable s.mtu capacity s.streams ms
    → t.cumulative_ack ≡ ack_at s.tsn 0
    → t.chunks ≡ []
    → 0 < t.advertised_receive_window
    → length (sent_of capacity allocated s ms) < 2 ^ 31
    → AreAllSent (sent_of capacity allocated s ms) ps
    → has_all (saw_all ps []) (sent_of capacity allocated s ms) ≡ true
    → (receive_packets t ps).1 ≡ reports s.streams ms
messages_arrive capacity allocated s ms t ps room open_state mtu word empty a ack none_held window
      few arrive all =
    let (css, chunks, f, n, told) =
      queue_all_lem capacity allocated room ms s s.tsn 0 open_state mtu (omega (arith, word)) a in
    let sent : List.map SentDataChunk.chunk (queue_all capacity allocated s ms).chunks
        ≡ chunks_of css =
      ap (List.map SentDataChunk.chunk)
        (chunks ∙ (ap (λ (l : List SentDataChunk). l ++ List.map new_sent (chunks_of css)) empty))
      ∙ sent_chunks (chunks_of css) in
    receive_packets_in_order s.tsn css t ps n f (rw sent at few) ack none_held window
      (subst (λ (l : List DataChunk). AreAllSent l ps) sent arrive)
    ∙ told (saw_all ps []) (rw sent at all)
