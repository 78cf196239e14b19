-- ===== src/Sctp/Flow/Window.antt =====
-- Bounds of the congestion window of transport/sctp/SctpAssociationImpl.cpp.
use symphony_media_bridge.Common.{
  ℕ, ◌+◌, ◌-◌, ◌^◌, ◌≤◌, ◌<◌, ◌≡◌, Bool, false, List, [], ◌∷◌, max, u32_mod, u64_mod, arith,
}
use symphony_media_bridge.Sctp.Flow.{
  CongestionControl, reset, on_idle, grow, on_sack_received, on_packet_loss, on_transmit_timeout,
}

pub data Occasion : Type 0 where
  idle : Occasion
  sack : (flight_size bytes_acked : ℕ) → Bool → Occasion
  loss : Occasion
  timeout : Occasion
  recovery : Bool → Occasion
  probed : ℕ → Occasion

-- The size of a packet, which an answered probe raises, and what the association calls.
abbrev pub happens : ℕ × CongestionControl → Occasion → ℕ × CongestionControl
happens (mtu, c) idle = (mtu, on_idle c mtu)
happens (mtu, c) (sack flight_size bytes_acked all_acked) =
    (mtu, on_sack_received c mtu flight_size bytes_acked all_acked)
happens (mtu, c) loss = (mtu, on_packet_loss c mtu)
happens (mtu, c) timeout = (mtu, on_transmit_timeout c mtu)
happens (mtu, c) (recovery b) = (mtu, record c { in_fast_recovery = b })
happens (mtu, c) (probed size) = (max mtu size, c)

abbrev pub happen : ℕ × CongestionControl → List Occasion → ℕ × CongestionControl
happen s [] = s
happen s (o ∷ os) = happen (happens s o) os

-- The buffer of the chunks that are sent has 2 ^ 19 bytes, and a packet has at most 2 ^ 15.
abbrev pub IsBuffered : Occasion → Type 0
IsBuffered (sack flight_size bytes_acked all_acked) = flight_size ≤ 2 ^ 19
IsBuffered (probed size) = size ≤ 2 ^ 15
IsBuffered _ = Unit

abbrev pub AreBuffered : List Occasion → Type 0
AreBuffered [] = Unit
AreBuffered (o ∷ os) = IsBuffered o × AreBuffered os

abbrev IsBounded : ℕ → ℕ × CongestionControl → Type 0
IsBounded least (mtu, c) =
    (least ≤ mtu)
    × (mtu ≤ 2 ^ 15)
    × (least ≤ c.congestion_window)
    × (c.congestion_window ≤ 2 ^ 19 + 2 ^ 15)

happens-IsBounded :
    (least : ℕ) (s : ℕ × CongestionControl) (o : Occasion)
    → IsBuffered o
    → IsBounded least s
    → IsBounded least (happens s o)
unfolding on_idle on_sack_received grow on_packet_loss on_transmit_timeout
happens-IsBounded least (mtu, c) idle w b = ground (arith, b)
happens-IsBounded least (mtu, c) (sack flight_size bytes_acked all_acked) w b = ground (arith, w, b)
happens-IsBounded least (mtu, c) loss w b = ground (arith, b)
happens-IsBounded least (mtu, c) timeout w b = ground (arith, b)
happens-IsBounded least (mtu, c) (recovery r) w b = b
happens-IsBounded least (mtu, c) (probed size) w b = ground (arith, w, b)

happen-IsBounded :
    (least : ℕ) (s : ℕ × CongestionControl) (os : List Occasion)
    → AreBuffered os
    → IsBounded least s
    → IsBounded least (happen s os)
happen-IsBounded least s [] w b = b
happen-IsBounded least s (o ∷ os) w b =
    happen-IsBounded least (happens s o) os w.1 (happens-IsBounded least s o w.0 b)

-- From `reset` on, through any number of occasions of any kinds and in any order, the congestion
-- window never falls below the size that a packet had at `reset`, and never grows beyond 2 ^ 19 + 2 ^ 15
-- bytes, so that it never wraps around. That size is at most 2 ^ 15 bytes, probes raise the size of a
-- packet to at most that, and never more than the 2 ^ 19 bytes of the send buffer are in flight.
pub window_of_a_packet :
    (mtu threshold : ℕ) (c : CongestionControl) (os : List Occasion)
    → mtu ≤ 2 ^ 15
    → AreBuffered os
    → let (mtu', d) = happen (mtu, reset c mtu threshold) os in
      (mtu ≤ mtu') × (mtu ≤ d.congestion_window) × (d.congestion_window ≤ 2 ^ 19 + 2 ^ 15)
unfolding reset
window_of_a_packet mtu threshold c os high buffered =
    let (raised, top, low, bounded) =
      happen-IsBounded mtu (mtu, reset c mtu threshold) os buffered (ground (arith, high)) in
    (raised, low, bounded)

-- Past slow start, where an acknowledgement of the whole window makes it grow and fewer than a
-- packet's bytes are left over, the count of acknowledged bytes wraps around below 0, and the next
-- acknowledgement of the whole window makes it grow again, although it acknowledges too few bytes.
pub wrapped_count_grows_again :
    (c : CongestionControl) (mtu flight_size acked flight_size' acked' : ℕ)
    → c.in_fast_recovery ≡ false
    → c.slow_start_threshold ≤ c.congestion_window
    → c.congestion_window ≤ flight_size
    → c.congestion_window ≤ c.partial_bytes_acked + acked
    → c.partial_bytes_acked + acked + acked' < c.congestion_window + mtu
    → c.congestion_window + mtu ≤ flight_size'
    → c.congestion_window + mtu + mtu < u32_mod
    → let d = on_sack_received c mtu flight_size acked false in
      let e = on_sack_received d mtu flight_size' acked' false in
      (d.congestion_window ≡ c.congestion_window + mtu)
      × (d.partial_bytes_acked ≡ u64_mod + c.partial_bytes_acked + acked - d.congestion_window)
      × (e.congestion_window ≡ d.congestion_window + mtu)
unfolding on_sack_received grow
wrapped_count_grows_again c mtu flight_size acked flight_size' acked' normal past used whole few
      used' small =
    ground (arith, normal, past, used, whole, few, used', small)
