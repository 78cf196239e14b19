-- ===== src/Missing/Retries.antt =====
-- What one round of bridge/engine/VideoMissingPacketsTracker.cpp does to each missing packet.
use symphony_media_bridge.Common.{
  ℕ, zero, suc, ◌+◌, ◌*◌, ◌%◌, ◌≤◌, ◌≡◌, refl, sym, Bool, true, false, Option, none, some, List, [],
  ◌∷◌, if◌then◌else◌, ltb, ◌==◌, max, add64, u32_mod, length, arith, Bool-cases, inl, inr, ==_iff,
}
use symphony_media_bridge.Common.Maps
use symphony_media_bridge.Common.Maps.{Map, find_entry}
use symphony_media_bridge.Common.Values.{IsUnique, is_in}
use symphony_media_bridge.Missing.{
  Entry, ms, max_missing_packets, max_retries, is_due, process_entries, process,
}

abbrev pub asked_again : Entry → ℕ → Entry
asked_again e timestamp = record e {
  nacks_sent = (e.nacks_sent + 1) % u32_mod;
  last_sent_nack_timestamp = timestamp;
}

-- What is left of an entry, and whether its packet is asked for.
abbrev pub after_round : ℕ → ℕ → Option Entry → Option Entry × Bool
after_round timestamp delay none = (none, false)
after_round timestamp delay (some e) =
    if is_due e timestamp delay
    then if ltb max_retries ((e.nacks_sent + 1) % u32_mod)
      then (none, false)
      else (some (asked_again e timestamp), true)
    else (some e, false)

process_entries_lem :
    (timestamp delay room k : ℕ) (m : List (ℕ × Entry))
    → length m ≤ room
    → IsUnique m
    → let (m', numbers) = process_entries timestamp delay room m in
      (find_entry k m' ≡ (after_round timestamp delay (find_entry k m)).0)
      × (is_in k numbers ≡ (after_round timestamp delay (find_entry k m)).1)
unfolding process_entries find_entry
process_entries_lem timestamp delay room k [] le u = (refl, refl)
process_entries_lem timestamp delay zero k ((j, e) ∷ m) le u = absurd (omega arith)
process_entries_lem timestamp delay (suc room) k ((j, e) ∷ m) le u =
    let same = process_entries_lem timestamp delay (suc room) k m (omega arith) u.1 in
    let fewer = process_entries_lem timestamp delay room k m (omega arith) u.1 in
    elim (Bool-cases (j == k)) [
      | inr other ↦ ground (arith, other, same, fewer)
      | inl this ↦
          let here : j ≡ k = (==_iff j k).0 this in
          let gone : find_entry k m ≡ none = rw (sym here) u.0 in
          ground (arith, this, same, fewer, gone)
    ]

length-process_entries :
    (timestamp delay room : ℕ) (m : List (ℕ × Entry))
    → let (m', numbers) = process_entries timestamp delay room m in
      (length m' ≤ length m) × (length numbers ≤ room) × (length numbers ≤ length m')
unfolding process_entries
length-process_entries timestamp delay room [] = (omega arith, omega arith, omega arith)
length-process_entries timestamp delay zero (e ∷ m) = (omega arith, omega arith, omega arith)
length-process_entries timestamp delay (suc room) ((j, e) ∷ m) = ground (
  arith,
  length-process_entries timestamp delay (suc room) m,
  length-process_entries timestamp delay room m,
)

-- However many packets are missing, a round asks for at most the 128 numbers that its result has
-- room for, and for no more than it goes on to track, which are no more than before.
length-process :
    (m : Map Entry) (timestamp rtt_ns : ℕ)
    → let (m', numbers) = process m timestamp rtt_ns in
      (length numbers ≤ max_missing_packets)
      × (length numbers ≤ Maps.size m')
      × (Maps.size m' ≤ Maps.size m)
unfolding process
length-process m timestamp rtt_ns =
    let l =
      length-process_entries timestamp (max (add64 rtt_ns (10 * ms)) (100 * ms)) max_missing_packets
        m.entries in
    (l.1, l.2, l.0)

-- A round asks for a missing packet exactly if it has been missing for more than 30 ms, was not
-- asked for within the retry delay and was asked for at most 3 times before, and counts it. A
-- packet that is due a fifth time is given up, and any other keeps its entry. It asks for at most
-- 128 numbers, and for no more than it goes on to track, which are no more than before. The tracker
-- has at most 128 packets, each once.
pub process_lem :
    (m : Map Entry) (timestamp rtt_ns k : ℕ)
    → Maps.size m ≤ max_missing_packets
    → IsUnique m.entries
    → let (m', numbers) = process m timestamp rtt_ns in
      let delay = max (add64 rtt_ns (10 * ms)) (100 * ms) in
      (Maps.find m' k ≡ (after_round timestamp delay (Maps.find m k)).0)
      × (is_in k numbers ≡ (after_round timestamp delay (Maps.find m k)).1)
      × (length numbers ≤ max_missing_packets)
      × (length numbers ≤ Maps.size m')
      × (Maps.size m' ≤ Maps.size m)
unfolding process
process_lem m timestamp rtt_ns k le u =
    let (found, asked) =
      process_entries_lem timestamp (max (add64 rtt_ns (10 * ms)) (100 * ms)) max_missing_packets k
        m.entries le u in
    let (asks_few, asks_tracked, tracks) = length-process m timestamp rtt_ns in
    (found, asked, asks_few, asks_tracked, tracks)
