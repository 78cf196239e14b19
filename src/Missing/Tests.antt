-- ===== src/Missing/Tests.antt =====
-- A tracker with two missing packets, and the theorems on
-- bridge/engine/VideoMissingPacketsTracker.cpp applied to it.
use symphony_media_bridge.Common.{ℕ, ◌*◌, ◌≤◌, ◌≡◌, refl, true, none, some, [], ◌∷◌, length, arith}
use symphony_media_bridge.Common.Maps
use symphony_media_bridge.Common.Maps.{Map, find_entry}
use symphony_media_bridge.Common.Values.{is_in}
use symphony_media_bridge.Missing.{
  Entry, ms, max_missing_packets, on_missing_packet, on_packet_arrived, is_due, process,
}
use symphony_media_bridge.Missing.Retries.{asked_again, process_lem}
use symphony_media_bridge.Missing.RoundTrip.{on_packet_arrived-on_missing_packet}

abbrev missing : ℕ → ℕ → Entry
missing seq nacks = record {
  timestamp = 10000 * ms;
  last_sent_nack_timestamp = 10200 * ms;
  nacks_sent = nacks;
  extended_sequence_number = seq;
}

-- The second one was asked for four times.
abbrev two_missing : Map Entry
two_missing = record { capacity = 128; entries = (7, missing 65543 1) ∷ (9, missing 65545 4) ∷ [] }

process_lem_example :
    let (m', numbers) = process two_missing (10400 * ms) 0 in
    (Maps.find m' 7 ≡ some (asked_again (missing 65543 1) (10400 * ms)))
    × (is_in 7 numbers ≡ true)
    × (length numbers ≤ max_missing_packets)
    × (length numbers ≤ Maps.size m')
    × (Maps.size m' ≤ 2)
unfolding find_entry is_due
process_lem_example = process_lem two_missing (10400 * ms) 0 7 (omega arith) (refl, (refl, tt))

on_packet_arrived-on_missing_packet_example :
    let (m', noted) = on_missing_packet two_missing 65550 (10400 * ms) in
    let (m'', arrived) = on_packet_arrived m' 14 in
    (noted ≡ true)
    × (arrived ≡ some 65550)
    × (m'' ≡ two_missing)
    × (on_packet_arrived m'' 14 ≡ (m'', none))
unfolding find_entry
on_packet_arrived-on_missing_packet_example =
    on_packet_arrived-on_missing_packet two_missing 65550 (10400 * ms) refl (omega arith) refl
