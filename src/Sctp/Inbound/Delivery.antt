-- ===== src/Sctp/Inbound/Delivery.antt =====
-- What transport/sctp/SctpAssociationImpl.cpp delivers of a stream of messages, whatever the network
-- does to the order of its chunks.
use mathlib.Core.List.{append_assoc}
use mathlib.Core.Path.{subst}
use symphony_media_bridge.Common.{
  ℕ, ◌+◌, ◌^◌, ◌≤◌, ◌<◌, ◌≡◌, refl, sym, ap, ◌∙◌, Bool, true, List, [], ◌∷◌, ◌++◌, length,
  length-append, arith, Bool-cases, inl, inr,
}
use symphony_media_bridge.Common.Values.{is_in}
use symphony_media_bridge.Sctp.{DataChunk}
use symphony_media_bridge.Sctp.Inbound.{
  Inbound, advance_ack, receive_chunks, gather_all, on_data_received,
}
use symphony_media_bridge.Sctp.Inbound.Order.{ack_at, IsNumbered, arrived, first_missing}
use symphony_media_bridge.Sctp.Inbound.Acks.{first_missing_bounds, advance_ack-arrived}
use symphony_media_bridge.Sctp.Inbound.Arrival.{IsNumbered-append, IsHolding}
use symphony_media_bridge.Sctp.Inbound.Gather.{
  chunks_of, AreFragmented, complete, finished, pending, chunks_of-pending, pending-AreFragmented,
  IsWaiting, IsWaiting-none, pending-IsWaiting, gather_all_lem,
}
use symphony_media_bridge.Sctp.Inbound.Sent.{
  AreSent, saw, receive_packets, AreAllSent, saw_all, saw_all-is_in, complete-later,
  receive_chunks_lem,
}

-- A packet that brings nothing new leaves the first gap where it was.
same_gap :
    (base : ℕ) (seen seen' : List ℕ) (i a : ℕ) (cs : List DataChunk)
    → IsNumbered base i cs
    → i + length cs < 2 ^ 31
    → i ≤ a
    → a ≤ first_missing seen i cs
    → a ≤ first_missing seen' i cs
    → arrived seen cs ≡ arrived seen' cs
    → first_missing seen i cs ≡ first_missing seen' i cs
same_gap base seen seen' i a cs n small from upto upto' same =
    let one = advance_ack-arrived base seen a i cs n small from upto in
    let two = advance_ack-arrived base seen' a i cs n small from upto' in
    let acks : ack_at base (first_missing seen i cs) ≡ ack_at base (first_missing seen' i cs) =
      sym one ∙ (ap (λ (l : List DataChunk). (advance_ack (ack_at base a) l).0) same) ∙ two in
    omega (arith, acks, small, first_missing_bounds seen i cs, first_missing_bounds seen' i cs)

IsWaiting-same :
    (seen seen' : List ℕ) (i : ℕ) (ms : List (List DataChunk))
    → first_missing seen i (chunks_of ms) ≡ first_missing seen' i (chunks_of ms)
    → IsWaiting seen i ms
    → IsWaiting seen' i ms
IsWaiting-same seen seen' i [] e w = tt
IsWaiting-same seen seen' i (m ∷ ms) e w = omega (arith, e, w)

-- What is left of a stream whose chunks are held up to a gap in the first message.
pub record IsDelivered (base : ℕ) (seen : List ℕ) (i : ℕ) (ms : List (List DataChunk)) (s : Inbound)
    : Type 0 where
  pub holding : IsHolding base seen i (chunks_of ms) s
  pub waiting : IsWaiting seen i ms

module _ (base : ℕ) (pre : List DataChunk) (ms : List (List DataChunk))
    (n : IsNumbered base 0 (pre ++ chunks_of ms)) (f : AreFragmented ms)
    (small : length (pre ++ chunks_of ms) < 2 ^ 31) where
  after :
      (seen : List ℕ) (t : Inbound)
      → t.cumulative_ack ≡ ack_at base (first_missing seen (length pre) (chunks_of ms))
      → t.chunks ≡ arrived seen (chunks_of (pending seen ms))
      → 0 < t.advertised_receive_window
      → IsDelivered base seen (length pre + length (finished seen ms)) (pending seen ms) t
  after seen t ack held open_window =
      let (waiting, same) = pending-IsWaiting seen (length pre) ms in
      let j = length pre + length (finished seen ms) in
      let (low, high) = first_missing_bounds seen j (chunks_of (pending seen ms)) in
      record {
        holding = record {
          acknowledged = first_missing seen (length pre) (chunks_of ms);
          from = rw same low;
          upto = omega (arith, same);
          ack = ack;
          held = held;
          open_window = open_window;
        };
        waiting = waiting;
      }

  on_data_received_lem :
      (seen : List ℕ) (s : Inbound) (p : List (DataChunk × Bool))
      → IsDelivered base seen (length pre) ms s
      → AreSent (pre ++ chunks_of ms) p
      → let (t, events) = on_data_received s p in
        let seen' = saw p seen in
        (events ≡ complete seen' ms)
        × IsDelivered base seen' (length pre + length (finished seen' ms)) (pending seen' ms) t
  unfolding on_data_received
  on_data_received_lem seen s [] d sent =
      let (nothing, no_chunks, all) = IsWaiting-none seen (length pre) ms d.waiting in
      let e : length pre + 0 ≡ length pre = omega arith in rw (nothing, no_chunks, all, e) (refl, d)
  on_data_received_lem seen s (c ∷ p) d sent =
      let i = length pre in
      let cs = chunks_of ms in
      let seen' = saw (c ∷ p) seen in
      let (h, kept, quiet) = receive_chunks_lem base pre cs n small seen s (c ∷ p) d.holding sent in
      let (t, new, events) = receive_chunks s (c ∷ p) in
      let a = first_missing seen' i cs in
      let numbered : IsNumbered base i cs =
        let e : 0 + i ≡ i = omega arith in rw e at (IsNumbered-append base 0 pre cs n) in
      let sizes : i + length cs < 2 ^ 31 = omega (arith, small, length-append pre cs) in
      let acked : (advance_ack t.cumulative_ack t.chunks).0 ≡ ack_at base a =
        rw (h.ack, h.held)
          (advance_ack-arrived base seen' h.acknowledged i cs numbered sizes h.from h.upto) in
      let u : Inbound = record t { cumulative_ack = (advance_ack t.cumulative_ack t.chunks).0 } in
      elim (Bool-cases new) [
        | inl fresh ↦
            let (reported, left, ack, window) =
              gather_all_lem base seen' (length u.chunks) i ms u f numbered sizes acked h.held
                (omega arith) in
            rw fresh (
              rw (quiet, reported) refl,
              after seen' (gather_all (length u.chunks) u).0 (ack ∙ acked) left
                  (rw window h.open_window),
            )
        | inr old ↦
            let unchanged : t ≡ s = kept old in
            let same : arrived seen cs ≡ arrived seen' cs =
              sym d.holding.held ∙ (ap Inbound.chunks (sym unchanged)) ∙ h.held in
            let acks : ack_at base h.acknowledged ≡ ack_at base d.holding.acknowledged =
              sym h.ack ∙ (ap Inbound.cumulative_ack unchanged) ∙ d.holding.ack in
            let upto' : d.holding.acknowledged ≤ a = omega (
              arith,
              acks,
              sizes,
              h.upto,
              d.holding.upto,
              first_missing_bounds seen i cs,
              first_missing_bounds seen' i cs,
            ) in
            let gap =
              same_gap base seen seen' i d.holding.acknowledged cs numbered sizes d.holding.from
                d.holding.upto upto' same in
            let waiting = IsWaiting-same seen seen' i ms gap d.waiting in
            let (nothing, no_chunks, all) = IsWaiting-none seen' i ms waiting in
            let e : i + 0 ≡ i = omega arith in
            let delivered : IsDelivered base seen' i ms u = record {
              holding = record {
                acknowledged = a;
                from = (first_missing_bounds seen' i cs).0;
                upto = omega arith;
                ack = acked;
                held = h.held;
                open_window = h.open_window;
              };
              waiting = waiting;
            } in
            rw (old, nothing, no_chunks, all, e) (quiet, delivered)
      ]

-- The packets of a stream of which `pre` has been delivered.
receive_packets_from :
    (base : ℕ) (pre : List DataChunk) (ms : List (List DataChunk)) (seen : List ℕ) (s : Inbound)
    (ps : List (List (DataChunk × Bool)))
    → IsNumbered base 0 (pre ++ chunks_of ms)
    → AreFragmented ms
    → length (pre ++ chunks_of ms) < 2 ^ 31
    → IsDelivered base seen (length pre) ms s
    → AreAllSent (pre ++ chunks_of ms) ps
    → (receive_packets s ps).1 ≡ complete (saw_all ps seen) ms
receive_packets_from base pre ms seen s [] n f small d sent =
    sym (IsWaiting-none seen (length pre) ms d.waiting).0
receive_packets_from base pre ms seen s (p ∷ ps) n f small d sent =
    let seen' = saw p seen in
    let (events, d') = on_data_received_lem base pre ms n f small seen s p d sent.0 in
    let pre' = pre ++ finished seen' ms in
    let rest = pending seen' ms in
    let same : pre ++ chunks_of ms ≡ pre' ++ chunks_of rest =
      ap (λ (l : List DataChunk). pre ++ l) (chunks_of-pending seen' ms)
      ∙ sym (append_assoc pre (finished seen' ms) (chunks_of rest)) in
    let size : length pre + length (finished seen' ms) ≡ length pre' =
      omega (arith, length-append pre (finished seen' ms)) in
    let later =
      receive_packets_from base pre' rest seen' (on_data_received s p).0 ps (rw same at n)
        (pending-AreFragmented seen' ms f) (rw same at small) (rw size at d')
        (subst (λ (l : List DataChunk). AreAllSent l ps) same sent.1) in
    let grows =
      complete-later seen' (saw_all ps seen')
        (λ (x : ℕ) (h : is_in x seen' ≡ true). saw_all-is_in x ps seen' h) ms in
    rw (events, later) (sym grows)

arrived-none : (cs : List DataChunk) → arrived [] cs ≡ []
arrived-none [] = refl
arrived-none (c ∷ cs) = arrived-none cs

none-IsWaiting : (ms : List (List DataChunk)) → AreFragmented ms → IsWaiting [] 0 ms
none-IsWaiting [] f = tt
none-IsWaiting ([] ∷ ms) f = elim f.0 [ ]
none-IsWaiting ((c ∷ m) ∷ ms) f = omega arith

-- The peer sends messages in chunks with consecutive numbers from `base` on, fewer than 2 ^ 31, and
-- packets of these chunks arrive, in any order, any of them many times or not at all. Then the
-- listener is told of each message once, in the order in which they were sent and whole, up to the
-- first message of which a chunk has not arrived, and of nothing else. No chunk is empty, and there
-- is room for each.
pub receive_packets_in_order :
    (base : ℕ) (ms : List (List DataChunk)) (s : Inbound) (ps : List (List (DataChunk × Bool)))
    → IsNumbered base 0 (chunks_of ms)
    → AreFragmented ms
    → length (chunks_of ms) < 2 ^ 31
    → s.cumulative_ack ≡ ack_at base 0
    → s.chunks ≡ []
    → 0 < s.advertised_receive_window
    → AreAllSent (chunks_of ms) ps
    → (receive_packets s ps).1 ≡ complete (saw_all ps []) ms
receive_packets_in_order base ms s ps n f small ack empty open_window sent =
    receive_packets_from base [] ms [] s ps n f small
      (record {
        holding = record {
          acknowledged = 0;
          from = omega arith;
          upto = omega arith;
          ack = ack;
          held = empty ∙ sym (arrived-none (chunks_of ms));
          open_window = open_window;
        };
        waiting = none-IsWaiting ms f;
      })
      sent
