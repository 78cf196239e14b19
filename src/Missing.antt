-- ===== src/Missing.antt =====
-- bridge/engine/VideoMissingPacketsTracker.cpp: which packets to ask for again. The map of
-- memory/Map.h is walked in the order of its entries.
pub mod Retries
pub mod RoundTrip
mod Tests
use symphony_media_bridge.Common.{
  ℕ, zero, suc, ◌+◌, ◌*◌, ◌%◌, Bool, true, false, ◌&&◌, Option, none, some, List, [], ◌∷◌,
  if◌then◌else◌, leb, ltb, max, add64, sub64, slt64, u16_mod, u32_mod,
}
use symphony_media_bridge.Common.Maps
use symphony_media_bridge.Common.Maps.{Map}

pub record Entry : Type 0 where
  pub timestamp : ℕ
  pub last_sent_nack_timestamp : ℕ
  pub nacks_sent : ℕ
  pub extended_sequence_number : ℕ

abbrev pub ms : ℕ
ms = 1000000

abbrev pub max_missing_packets : ℕ
max_missing_packets = 128

abbrev pub max_retries : ℕ
max_retries = 4

abbrev pub delay_first_nack : ℕ
delay_first_nack = 30 * ms

abbrev pub new_tracker : Map Entry
new_tracker = Maps.empty max_missing_packets

unfoldable pub reset : Map Entry → Map Entry
reset m = record m { entries = [] }

unfoldable pub on_missing_packet : Map Entry → ℕ → ℕ → Map Entry × Bool
on_missing_packet m extended_sequence_number timestamp =
    if leb max_missing_packets (Maps.size m) then (reset m, false) else (
      Maps.emplace m (extended_sequence_number % u16_mod) (record {
        timestamp = timestamp;
        last_sent_nack_timestamp = sub64 timestamp (5000 * ms);
        nacks_sent = 0;
        extended_sequence_number = extended_sequence_number;
      }),
      true,
    )

-- The extended number, and `none` where the packet was not missed.
unfoldable pub on_packet_arrived : Map Entry → ℕ → Map Entry × Option ℕ
on_packet_arrived m sequence_number = elim (Maps.find m sequence_number) [
  | none ↦ (m, none)
  | some e ↦ (Maps.erase m sequence_number, some e.extended_sequence_number)
]

abbrev pub diff_gt : ℕ → ℕ → ℕ → Bool
diff_gt a b value = slt64 value (sub64 b a)

unfoldable pub is_due : Entry → ℕ → ℕ → Bool
is_due e timestamp retry_delay =
    diff_gt e.timestamp timestamp delay_first_nack
    && diff_gt e.last_sent_nack_timestamp timestamp retry_delay

-- The loop over the entries, with room for so many more numbers.
unfoldable pub process_entries : ℕ → ℕ → ℕ → List (ℕ × Entry) → List (ℕ × Entry) × List ℕ
process_entries timestamp retry_delay room [] = ([], [])
process_entries timestamp retry_delay zero (k_e ∷ es) = (k_e ∷ es, [])
process_entries timestamp retry_delay (suc room) ((k, e) ∷ es) =
    let same = process_entries timestamp retry_delay (suc room) es in
    let fewer = process_entries timestamp retry_delay room es in
    if is_due e timestamp retry_delay
    then if ltb max_retries ((e.nacks_sent + 1) % u32_mod) then same else (
      (
        k,
        record e {
          nacks_sent = (e.nacks_sent + 1) % u32_mod;
          last_sent_nack_timestamp = timestamp;
        },
      )
          ∷ fewer.0,
      k ∷ fewer.1,
    )
    else ((k, e) ∷ same.0, same.1)

unfoldable pub process : Map Entry → ℕ → ℕ → Map Entry × List ℕ
process m timestamp rtt_ns =
    let retry_delay = max (add64 rtt_ns (10 * ms)) (100 * ms) in
    let (entries, numbers) = process_entries timestamp retry_delay max_missing_packets m.entries in
    (record m { entries = entries }, numbers)
