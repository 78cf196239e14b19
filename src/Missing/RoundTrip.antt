-- ===== src/Missing/RoundTrip.antt =====
-- A missing packet that arrives late in bridge/engine/VideoMissingPacketsTracker.cpp.
use symphony_media_bridge.Common.{ℕ, ◌%◌, ◌<◌, ◌≡◌, true, none, some, u16_mod, arith}
use symphony_media_bridge.Common.Maps
use symphony_media_bridge.Common.Maps.{Map, find_entry, erase_entry, erase_absent}
use symphony_media_bridge.Missing.{Entry, max_missing_packets, on_missing_packet, on_packet_arrived}

-- A packet noted as missing, new and with room for it, is known with its extended number when it
-- arrives, and the tracker is then as it was before; a second arrival is not taken for a missing one.
pub on_packet_arrived-on_missing_packet :
    (m : Map Entry) (extended timestamp : ℕ)
    → m.capacity ≡ max_missing_packets
    → Maps.size m < max_missing_packets
    → Maps.find m (extended % u16_mod) ≡ none
    → let (m', noted) = on_missing_packet m extended timestamp in
      let (m'', arrived) = on_packet_arrived m' (extended % u16_mod) in
      (noted ≡ true)
      × (arrived ≡ some extended)
      × (m'' ≡ m)
      × (on_packet_arrived m'' (extended % u16_mod) ≡ (m'', none))
unfolding on_missing_packet on_packet_arrived find_entry erase_entry
on_packet_arrived-on_missing_packet m extended timestamp cap room new =
    ground (arith, new, erase_absent (extended % u16_mod) m.entries new)
