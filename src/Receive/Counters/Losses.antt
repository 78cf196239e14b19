-- ===== src/Receive/Counters/Losses.antt =====
-- What transport/RtpReceiveState.cpp makes of the sequence numbers of a stream.
use symphony_media_bridge.Common.{
  ℕ, ◌-◌, ◌≢◌, ap, ◌∙◌, suc, ◌+◌, ◌*◌, ◌%◌, ◌^◌, ◌≤◌, ◌<◌, ◌≡◌, refl, some, List, [], ◌∷◌, length,
  max, ltb, false, true, u16_mod, u32_mod, sle64, sub64, sub32, arith, Bool-cases, inl, inr,
}
use symphony_media_bridge.Common.Values.{is_in}
use symphony_media_bridge.Missing.{ms}
use symphony_media_bridge.Receive.Counters.Span.{
  count_missing, missing_inside, missing_le, lost_ahead,
}
use symphony_media_bridge.Receive.Counters.{
  ReceiveCounters, RtpArrival, RtpReceiveState, new_rtp_receive_state, count_sequence_number,
  count_packet, stop, get_cumulative_counters, on_rtp_received, to_extended_sequence_number,
}

-- The number of 16 bits of a packet that is less than half the range ahead of the last one, or at
-- most half behind it, is taken back to the extended number. Both numbers are words of 32 bits.
to_extended_sequence_number-extended :
    (s : RtpReceiveState) (extended : ℕ)
    → let last = s.receive_counters.extended_sequence_number in
      last < u32_mod
      → extended < u32_mod
      → extended < last + 2 ^ 15
      → last ≤ extended + 2 ^ 15
      → to_extended_sequence_number s (extended % u16_mod) ≡ extended
unfolding to_extended_sequence_number
to_extended_sequence_number-extended s extended small word ahead behind =
    ground (arith, small, word, ahead, behind)

-- The packets that have a valid header, with their times of arrival.
abbrev pub receive_all : RtpReceiveState → List (RtpArrival × ℕ) → RtpReceiveState
receive_all s [] = s
receive_all s ((p, timestamp) ∷ ps) = receive_all (on_rtp_received s (some p) timestamp) ps

-- The newest number.
abbrev pub newest : ℕ → List (ℕ × RtpArrival × ℕ) → ℕ
newest last [] = last
newest last ((e, p, timestamp) ∷ ps) = newest (max last e) ps

-- The extended numbers of packets.
abbrev pub numbers : List (ℕ × RtpArrival × ℕ) → List ℕ → List ℕ
numbers [] seen = seen
numbers ((e, p, timestamp) ∷ ps) seen = numbers ps (e ∷ seen)

-- Packets with their extended numbers, of which they carry the low 16 bits: each number arrives once,
-- less than 2 ^ 15 ahead of the newest one or at most 2 ^ 15 behind it, and none is older than the first.
abbrev pub AreArriving : ℕ → ℕ → List ℕ → List (ℕ × RtpArrival × ℕ) → Type 0
AreArriving first last seen [] = Unit
AreArriving first last seen ((e, p, timestamp) ∷ ps) =
    (p.sequence_number ≡ e % u16_mod)
    × (first ≤ e)
    × (e < u32_mod)
    × (e < last + 2 ^ 15)
    × (last ≤ e + 2 ^ 15)
    × (is_in e seen ≡ false)
    × AreArriving first (max last e) (e ∷ seen) ps

-- The counters after `n` packets with the numbers `seen`, whose newest has the number `last`.
record IsCounted (first last n : ℕ) (seen : List ℕ) (c : ReceiveCounters) : Type 0 where
  pub packets : c.packets ≡ n
  pub initial : c.initial_sequence_number ≡ first
  pub extended : c.extended_sequence_number ≡ last
  pub lost : c.lost_packets ≡ count_missing first (suc last - first) seen
  pub from_first : first ≤ last
  pub word : last < u32_mod
  pub there : is_in last seen ≡ true
  pub beyond : (x : ℕ) → last < x → is_in x seen ≡ false

count_packet-IsCounted :
    (first last n e : ℕ) (seen : List ℕ) (c : ReceiveCounters) (p : RtpArrival) (timestamp : ℕ)
    → 1 ≤ n
    → n < u32_mod - 1
    → p.sequence_number ≡ e % u16_mod
    → first ≤ e
    → e < u32_mod
    → e < last + 2 ^ 15
    → last ≤ e + 2 ^ 15
    → is_in e seen ≡ false
    → IsCounted first last n seen c
    → IsCounted first (max last e) (suc n) (e ∷ seen) (count_packet c p timestamp)
unfolding count_packet count_sequence_number
count_packet-IsCounted first last n e seen c p timestamp some_yet few number low word ahead behind
      new h =
    elim (Bool-cases (ltb last e)) [
      | inl newer ↦
          let higher : last < e = ground (arith, newer) in
          let top : max last e ≡ e = ground (arith, higher) in
          let lost = lost_ahead first last e seen h.from_first higher h.beyond in
          let bound = missing_le first (suc e - first) (e ∷ seen) in
          let bound' = missing_le first (suc last - first) seen in
          rw top (record {
            packets = ground (arith, h.packets, some_yet, few);
            initial = ground (arith, h.packets, some_yet, h.initial);
            extended = ground (arith, h.packets, some_yet, h.extended, number, higher, ahead, word);
            lost = ground (
              arith, h.packets, some_yet, h.extended, h.lost, number, higher, ahead, word, lost,
              bound,
            );
            from_first = omega (arith, h.from_first, higher);
            word = word;
            there = ground arith;
            beyond = λ (x : ℕ) (lt : e < x). ground (arith, lt, h.beyond x, higher);
          })
      | inr older ↦
          let other : e ≢ last =
            λ (same : e ≡ last). ground (arith, new, h.there, ap (λ (x : ℕ). is_in x seen) same) in
          let lower : e < last = ground (arith, older, other) in
          let top : max last e ≡ last = ground (arith, lower) in
          let less =
            missing_inside first (suc last - first) e seen low (omega (arith, lower, low)) new in
          let bound = missing_le first (suc last - first) seen in
          rw top (record {
            packets = ground (arith, h.packets, some_yet, few);
            initial = ground (arith, h.packets, some_yet, h.initial);
            extended =
                ground (arith, h.packets, some_yet, h.extended, number, lower, behind, h.word);
            lost = ground (
              arith, h.packets, some_yet, h.extended, h.lost, number, lower, behind, h.word, less,
              bound,
            );
            from_first = h.from_first;
            word = h.word;
            there = ground (arith, h.there);
            beyond = λ (x : ℕ) (lt : last < x). ground (arith, lt, h.beyond x, lower);
          })
    ]

-- Publication leaves the counters.
on_rtp_received-receive_counters :
    (s : RtpReceiveState) (p : RtpArrival) (timestamp : ℕ)
    → (on_rtp_received s (some p) timestamp).receive_counters
      ≡ count_packet s.receive_counters p timestamp
unfolding on_rtp_received
on_rtp_received-receive_counters s p timestamp =
    elim (Bool-cases (sle64 (1000 * ms) (sub64 timestamp s.previous_count.timestamp))) [
      | inl due ↦ rw due refl
      | inr early ↦ rw early refl
    ]

-- Without their extended numbers.
abbrev pub packets_of : List (ℕ × RtpArrival × ℕ) → List (RtpArrival × ℕ)
packets_of [] = []
packets_of ((e, p, timestamp) ∷ ps) = (p, timestamp) ∷ packets_of ps

receive_all-IsCounted :
    (first last n : ℕ) (seen : List ℕ) (s : RtpReceiveState) (ps : List (ℕ × RtpArrival × ℕ))
    → 1 ≤ n
    → n + length ps < u32_mod
    → AreArriving first last seen ps
    → IsCounted first last n seen s.receive_counters
    → IsCounted first
        (newest last ps)
        (n + length ps)
        (numbers ps seen)
        (receive_all s (packets_of ps)).receive_counters
receive_all-IsCounted first last n seen s [] some_yet few arrive h =
    let same : n + 0 ≡ n = omega arith in rw same h
receive_all-IsCounted first last n seen s ((e, p, timestamp) ∷ ps) some_yet few
      (number, low, word, ahead, behind, new, arrive) h =
    let t = on_rtp_received s (some p) timestamp in
    let one =
      count_packet-IsCounted first last n e seen s.receive_counters p timestamp some_yet
        (omega (arith, few)) number low word ahead behind new h in
    let one' : IsCounted first (max last e) (suc n) (e ∷ seen) t.receive_counters =
      rw (on_rtp_received-receive_counters s p timestamp) one in
    let rest =
      receive_all-IsCounted first (max last e) (suc n) (e ∷ seen) t ps (omega arith)
        (omega (arith, few)) arrive one' in
    let moved : suc n + length ps ≡ n + suc (length ps) = omega arith in rw moved at rest

stop-receive_counters : (s : RtpReceiveState) → (stop s).cumulative_report ≡ s.receive_counters
unfolding stop
stop-receive_counters s =
    elim (Bool-cases
      (sle64 (250 * ms) (sub64 s.receive_counters.timestamp s.previous_count.timestamp))) [
        | inl due ↦ rw due refl
        | inr early ↦ rw early refl
      ]

-- However the packets of a stream are lost and put out of order, all that arrive are counted, and
-- what is reported when the stream is stopped spans the numbers from that of the first packet to the
-- newest one that arrived, and its losses are exactly the numbers of this span that have not arrived.
-- Each number arrives once, none older than the first, less than 2 ^ 15 ahead of the newest or at
-- most 2 ^ 15 behind it, and the packets and their extended numbers fit into 32 bits.
pub receive_all_reports :
    (active_at timestamp : ℕ) (p : RtpArrival) (ps : List (ℕ × RtpArrival × ℕ))
    → p.sequence_number < u16_mod
    → AreArriving p.sequence_number p.sequence_number (p.sequence_number ∷ []) ps
    → suc (length ps) < u32_mod
    → let first = p.sequence_number in
      let s = receive_all (new_rtp_receive_state active_at) ((p, timestamp) ∷ packets_of ps) in
      let r = get_cumulative_counters (stop s) in
      (s.receive_counters.packets ≡ suc (length ps))
      × (first + r.packets ≡ newest first ps)
      × (r.lost_packets ≡ count_missing first (suc r.packets) (numbers ps (first ∷ [])))
unfolding get_cumulative_counters count_packet
receive_all_reports active_at timestamp p ps small arrive few =
    let first = p.sequence_number in
    let begun = new_rtp_receive_state active_at in
    let t = on_rtp_received begun (some p) timestamp in
    let one_wide : suc first - first ≡ 1 = omega arith in
    let one : IsCounted first first 1 (first ∷ []) t.receive_counters =
      rw (on_rtp_received-receive_counters begun p timestamp) (record {
        packets = refl;
        initial = refl;
        extended = refl;
        lost = rw one_wide (ground arith);
        from_first = omega arith;
        word = omega (arith, small);
        there = ground arith;
        beyond = λ (x : ℕ) (lt : first < x). ground (arith, lt);
      }) in
    let h =
      receive_all-IsCounted first first 1 (first ∷ []) t ps (omega arith) (omega (arith, few))
        arrive one in
    let s = receive_all t (packets_of ps) in
    let span : sub32 s.receive_counters.extended_sequence_number
          s.receive_counters.initial_sequence_number
        ≡ newest first ps - first =
      ground (arith, h.extended, h.initial, h.from_first, h.word) in
    let width : suc (newest first ps) - first ≡ suc (newest first ps - first) =
      omega (arith, h.from_first) in
    rw (stop-receive_counters s) (
      h.packets ∙ omega arith,
      rw span (omega (arith, h.from_first)),
      rw span (h.lost ∙ ap (λ (n : ℕ). count_missing first n (numbers ps (first ∷ []))) width),
    )
