-- ===== src/Receive/Counters.antt =====
-- transport/RtpReceiveState.cpp: what a receiver counts of one stream. The jitter, the sender
-- reports and the ratios in floating point are left out.
pub mod Span
pub mod Losses
use symphony_media_bridge.Common.{
  ℕ, ◌+◌, ◌-◌, ◌*◌, ◌/◌, ◌%◌, ◌^◌, Bool, true, false, ◌&&◌, Option, none, some, List, [], ◌∷◌,
  if◌then◌else◌, ltb, leb, ◌==◌, max, u16_mod, u32_mod, u64_mod, sub16, add32, sub32, add64, sub64,
  sle64,
}
use symphony_media_bridge.Missing.{ms}

pub record ReceiveCounters : Type 0 where
  pub octets : ℕ
  pub header_octets : ℕ
  pub extended_sequence_number : ℕ
  pub packets : ℕ
  pub lost_packets : ℕ
  pub timestamp : ℕ
  pub initial_sequence_number : ℕ

abbrev pub new_receive_counters : ReceiveCounters
new_receive_counters = record {
  octets = 0;
  header_octets = 0;
  extended_sequence_number = 0;
  packets = 0;
  lost_packets = 0;
  timestamp = 0;
  initial_sequence_number = 0;
}

abbrev pub minus : ReceiveCounters → ReceiveCounters → ReceiveCounters
minus a b = record a {
  octets = sub64 a.octets b.octets;
  header_octets = sub64 a.header_octets b.header_octets;
  extended_sequence_number = sub32 a.extended_sequence_number b.extended_sequence_number;
  packets = sub32 a.packets b.packets;
  lost_packets = sub32 a.lost_packets b.lost_packets;
  timestamp = sub64 a.timestamp b.timestamp;
}

-- The fields that a receiver fills.
pub record PacketCounters : Type 0 where
  pub octets : ℕ
  pub packets : ℕ
  pub lost_packets : ℕ
  pub period : ℕ

abbrev pub no_packets : PacketCounters
no_packets = record { octets = 0; packets = 0; lost_packets = 0; period = 0 }

pub record RtpReceiveState : Type 0 where
  pub payload_type : ℕ
  pub receive_counters : ReceiveCounters
  pub previous_count : ReceiveCounters
  pub active_at : ℕ
  pub counters : PacketCounters
  pub cumulative_report : ReceiveCounters

abbrev pub new_rtp_receive_state : ℕ → RtpReceiveState
new_rtp_receive_state active_at = record {
  payload_type = 0xFF;
  receive_counters = new_receive_counters;
  previous_count = new_receive_counters;
  active_at = active_at;
  counters = no_packets;
  cumulative_report = new_receive_counters;
}

-- A packet whose header is valid.
pub record RtpArrival : Type 0 where
  pub sequence_number : ℕ
  pub payload_type : ℕ
  pub header_length : ℕ
  pub length : ℕ

-- The branch for a packet that is not the first. A 16-bit difference is negative from 2 ^ 15 on.
unfoldable pub count_sequence_number : ReceiveCounters → ℕ → ReceiveCounters
count_sequence_number c sequence_number =
    let diff = sub16 sequence_number (c.extended_sequence_number % u16_mod) in
    let ahead = ltb 0 diff && ltb diff (2 ^ 15) in
    let d : ReceiveCounters =
      if ahead
      then record c { extended_sequence_number = add32 c.extended_sequence_number diff }
      else c in
    if ahead && ltb 1 diff
    then record d { lost_packets = add32 d.lost_packets (diff - 1) }
    else if leb (2 ^ 15) diff && ltb 0 d.lost_packets
    then record d { lost_packets = sub32 d.lost_packets 1 }
    else d

-- The counters of one packet.
unfoldable pub count_packet : ReceiveCounters → RtpArrival → ℕ → ReceiveCounters
count_packet c p timestamp =
    let d : ReceiveCounters =
      if ltb 0 c.packets then count_sequence_number c p.sequence_number else record c {
        extended_sequence_number = p.sequence_number;
        initial_sequence_number = p.sequence_number;
      } in
    record d {
      packets = add32 d.packets 1;
      octets = add64 d.octets (sub64 p.length p.header_length);
      header_octets = add64 d.header_octets p.header_length;
      timestamp = timestamp;
    }

-- What is published of the time since the last publication.
abbrev pub packet_counters : ReceiveCounters → ReceiveCounters → PacketCounters
packet_counters now before =
    let delta = minus now before in
    record {
      octets = add64 delta.octets delta.header_octets;
      packets = add32 delta.lost_packets delta.packets;
      lost_packets = delta.lost_packets;
      period = delta.timestamp;
    }

-- `none` is a packet whose header is not valid.
unfoldable pub on_rtp_received : RtpReceiveState → Option RtpArrival → ℕ → RtpReceiveState
on_rtp_received s none timestamp = s
on_rtp_received s (some p) timestamp =
    let c = count_packet s.receive_counters p timestamp in
    let t : RtpReceiveState = record s {
      payload_type = if ltb 0 s.receive_counters.packets then s.payload_type else p.payload_type;
      receive_counters = c;
      active_at = timestamp;
      cumulative_report = if ltb c.packets 10 then c else s.cumulative_report;
    } in
    if sle64 (1000 * ms) (sub64 timestamp s.previous_count.timestamp)
    then record t {
      counters = packet_counters c s.previous_count;
      previous_count = c;
      cumulative_report = c;
    }
    else t

unfoldable pub to_extended_sequence_number : RtpReceiveState → ℕ → ℕ
to_extended_sequence_number s sequence_number =
    let extended = s.receive_counters.extended_sequence_number in
    let advance = sub16 sequence_number (extended % u16_mod) in
    if ltb advance (2 ^ 15) then add32 extended advance else sub32 extended (u16_mod - advance)

unfoldable pub stop : RtpReceiveState → RtpReceiveState
stop s =
    let c = s.receive_counters in
    let t : RtpReceiveState = record s { cumulative_report = c } in
    if sle64 (250 * ms) (sub64 c.timestamp s.previous_count.timestamp)
    then record t { counters = packet_counters c s.previous_count }
    else t

-- The packets of `getCumulativeCounters` are those between the first and the last number.
unfoldable pub get_cumulative_counters : RtpReceiveState → PacketCounters
get_cumulative_counters s =
    let report = s.cumulative_report in
    record no_packets {
      lost_packets = report.lost_packets;
      packets = sub32 report.extended_sequence_number report.initial_sequence_number;
      octets = report.octets;
    }
