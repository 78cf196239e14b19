-- ===== src/Sctp/Flow.antt =====
-- `CongestionControl` of transport/sctp/SctpAssociationImpl.cpp without its timers.
pub mod Window
use symphony_media_bridge.Common.{
  ℕ, ◌+◌, ◌-◌, ◌*◌, ◌/◌, ◌%◌, ◌^◌, Bool, true, false, ◌&&◌, if◌then◌else◌, ltb, leb, min, max,
  u32_mod, u64_mod, add32, add64, sub64,
}

pub record CongestionControl : Type 0 where
  pub congestion_window : ℕ
  pub slow_start_threshold : ℕ
  pub in_fast_recovery : Bool
  pub partial_bytes_acked : ℕ

-- The products of the size of a packet are words of 32 bits.
abbrev pub times32 : ℕ → ℕ → ℕ
times32 k mtu = (k * mtu) % u32_mod

unfoldable pub reset : CongestionControl → ℕ → ℕ → CongestionControl
reset c mtu slow_start_threshold = record c {
  congestion_window = min (times32 4 mtu) (max (times32 2 mtu) 4380);
  slow_start_threshold = slow_start_threshold;
}

unfoldable pub on_idle : CongestionControl → ℕ → CongestionControl
on_idle c mtu =
    if c.in_fast_recovery
    then c
    else record c { congestion_window = max (c.congestion_window / 2) (times32 4 mtu) }

-- The window's growth where all of it was in use.
unfoldable pub grow : CongestionControl → ℕ → ℕ → CongestionControl
grow c mtu bytes_acked =
    if ltb c.congestion_window c.slow_start_threshold
    then record c {
      congestion_window = add32 c.congestion_window (min bytes_acked mtu);
      partial_bytes_acked = 0;
    }
    else let acked = add64 c.partial_bytes_acked bytes_acked in
      if leb c.congestion_window acked
      then (let window = add32 c.congestion_window mtu in
          record c { congestion_window = window; partial_bytes_acked = sub64 acked window })
      else record c { partial_bytes_acked = acked }

unfoldable pub on_sack_received : CongestionControl → ℕ → ℕ → ℕ → Bool → CongestionControl
on_sack_received c mtu flight_size bytes_acked all_acked =
    if c.in_fast_recovery
    then c
    else let d : CongestionControl =
        if leb c.congestion_window flight_size then grow c mtu bytes_acked else c in
      if all_acked then record d { partial_bytes_acked = 0 } else d

unfoldable pub on_packet_loss : CongestionControl → ℕ → CongestionControl
on_packet_loss c mtu =
    let threshold = max (c.congestion_window / 2) (times32 4 mtu) in
    record c {
      partial_bytes_acked = 0;
      slow_start_threshold = threshold;
      congestion_window = threshold;
    }

unfoldable pub on_transmit_timeout : CongestionControl → ℕ → CongestionControl
on_transmit_timeout c mtu = record c {
  partial_bytes_acked = 0;
  slow_start_threshold = max (c.congestion_window / 2) (times32 4 mtu);
  congestion_window = mtu;
}
