-- ===== src/Sctp/Acked.antt =====
-- What an association of transport/sctp does with an acknowledgement: `onSackReceived` and
-- `handleFastRetransmits` of SctpAssociationImpl.cpp. The round trip time and the timers are left
-- out, and the retransmit timeout, which depends on them, is an argument.
pub mod Blocks
pub mod Remaining
pub mod Flight
use symphony_media_bridge.Common.{
  ℕ, ◌+◌, ◌-◌, ◌*◌, ◌%◌, ◌^◌, Bool, true, false, not, ◌&&◌, ◌||◌, List, [], ◌∷◌, if◌then◌else◌, ltb,
  leb, ◌==◌, min, length, u16_mod, u32_mod, u64_mod, add32, add64, sub32, slt32, sle32,
}
use symphony_media_bridge.Sctp.{diff, DataChunk}
use symphony_media_bridge.Sctp.Flow.{CongestionControl, on_sack_received, on_packet_loss}
use symphony_media_bridge.Sctp.Outbound.{SentDataChunk}
use symphony_media_bridge.Sctp.Sack.{SelectiveAck, get_ack}

pub record Sender : Type 0 where
  pub mtu : ℕ
  pub peer_cumulative_ack : ℕ
  pub peer_receive_window : ℕ
  pub flow : CongestionControl
  pub fast_recovery_exit_point : ℕ
  pub chunks : List SentDataChunk

abbrev pub tsn_of : SentDataChunk → ℕ
tsn_of c = c.chunk.transmission_sequence_number

abbrev pub size_of : SentDataChunk → ℕ
size_of c = length c.chunk.payload

-- The times are cut to 32 bits by `diff`.
unfoldable pub get_flight_size : ℕ → ℕ → List SentDataChunk → ℕ
get_flight_size timestamp retransmit_timeout [] = 0
get_flight_size timestamp retransmit_timeout (c ∷ cs) =
    let due = add64 c.transmit_time retransmit_timeout in
    let rest = get_flight_size timestamp retransmit_timeout cs in
    if ltb 0 c.transmit_count && slt32 0 (diff (timestamp % u32_mod) (due % u32_mod))
    then add32 (size_of c) rest
    else 0

-- The loop over the chunks up to the cumulative number: their bytes, and the chunks that stay.
abbrev pub drop_acked : ℕ → List SentDataChunk → ℕ × List SentDataChunk
drop_acked ack [] = (0, [])
drop_acked ack (c ∷ cs) =
    let (bytes, rest) = drop_acked ack cs in
    if sle32 0 (diff (tsn_of c) ack) then (add32 (size_of c) bytes, rest) else (0, c ∷ cs)

-- Whether a chunk is before the next block, inside it, or behind the last one.
pub data Verdict : Type 0 where
  missing : Verdict
  inside : Verdict
  unknown : Verdict

-- The loop over the blocks, from the one that is left on.
abbrev pub find_block : SelectiveAck → List (ℕ × ℕ) → ℕ → Verdict × List (ℕ × ℕ)
find_block ack [] tsn = (unknown, [])
find_block ack (b ∷ bs) tsn =
    let (first, last) = get_ack ack b in
    let rest = find_block ack bs tsn in
    if slt32 0 (diff last tsn)
    then rest
    else if slt32 0 (diff tsn first)
    then (missing, b ∷ bs)
    else (inside, b ∷ bs)

-- The loop over the numbers that are reported as duplicates.
abbrev pub find_duplicate : List ℕ → ℕ → Bool × List ℕ
find_duplicate [] tsn = (false, [])
find_duplicate (d ∷ ds) tsn =
    let rest = find_duplicate ds tsn in
    if tsn == d then (true, d ∷ ds) else if slt32 0 (diff tsn d) then (false, d ∷ ds) else rest

abbrev pub is_inside_block : Verdict → Bool
is_inside_block inside = true
is_inside_block _ = false

abbrev pub is_empty_list : {A : Type 0} → List A → Bool
is_empty_list [] = true
is_empty_list (x ∷ xs) = false

-- A chunk that is missing, and whether it is so for the first time.
abbrev pub count_nack : Verdict → SentDataChunk → SentDataChunk × Bool
count_nack missing c =
    if ltb 0 c.transmit_count
    then (let count = (c.nack_count + 1) % u16_mod in (record c { nack_count = count }, count == 1))
    else (c, false)
count_nack _ c = (c, false)

-- The loop over the chunks beyond the cumulative number: the losses, the bytes that blocks
-- acknowledge, and the chunks that stay.
abbrev pub process_gaps :
    SelectiveAck → List (ℕ × ℕ) → List ℕ → List SentDataChunk → ℕ × ℕ × List SentDataChunk
process_gaps ack bs ds [] = (0, 0, [])
process_gaps ack bs ds (c ∷ cs) =
    let (verdict, bs') = find_block ack bs (tsn_of c) in
    let (duplicate, ds') = find_duplicate ds (tsn_of c) in
    let (c', lost) = count_nack verdict c in
    let (losses, bytes, rest) = process_gaps ack bs' ds' cs in
    if is_empty_list bs && is_empty_list ds then (0, 0, c ∷ cs) else (
      (if lost then losses + 1 else losses),
      (if is_inside_block verdict then add32 (size_of c) bytes else bytes),
      (if is_inside_block verdict || duplicate then rest else c' ∷ rest),
    )

-- The loop of `handleFastRetransmits` that looks for a loss: whether there is one, and the last
-- number that was sent.
abbrev pub scan_nacks : Bool → ℕ → List SentDataChunk → Bool × ℕ
scan_nacks recovers exit_point [] = (recovers, exit_point)
scan_nacks recovers exit_point (c ∷ cs) =
    let recovers' = recovers || c.nack_count == 3 in
    if ltb 0 c.transmit_count then scan_nacks recovers' (tsn_of c) cs else (recovers', exit_point)

-- The loop that sends one of the lost chunks again, into a packet with so many bytes; 16 are the
-- header of a chunk.
abbrev pub retransmit_one : ℕ → ℕ → List SentDataChunk → List SentDataChunk
retransmit_one timestamp capacity [] = []
retransmit_one timestamp capacity (c ∷ cs) =
    let rest = retransmit_one timestamp capacity cs in
    let counted : SentDataChunk = record c { nack_count = c.nack_count + 1 } in
    if not (c.nack_count == 3)
    then c ∷ rest
    else if ltb (size_of c + 16) capacity
    then record counted {
      transmit_time = timestamp;
      transmit_count = (c.transmit_count + 1) % u16_mod;
    }
      ∷ cs
    else counted ∷ rest

-- Whether the first chunk lies behind the exit point of the recovery.
abbrev pub has_left : ℕ → List SentDataChunk → Bool
has_left exit_point [] = true
has_left exit_point (c ∷ cs) = slt32 0 (diff exit_point (tsn_of c))

unfoldable pub handle_fast_retransmits : Sender → ℕ → ℕ → Sender
handle_fast_retransmits s timestamp capacity =
    let (recovers, exit_point) =
      if s.flow.in_fast_recovery
      then (not (has_left s.fast_recovery_exit_point s.chunks), s.fast_recovery_exit_point)
      else scan_nacks false s.fast_recovery_exit_point s.chunks in
    record s {
      flow = record (s.flow) { in_fast_recovery = recovers };
      fast_recovery_exit_point = exit_point;
      chunks = if recovers then retransmit_one timestamp capacity s.chunks else s.chunks;
    }

-- `onSackReceived` up to the transmission.
unfoldable pub on_sack : Sender → SelectiveAck → List ℕ → ℕ → ℕ → ℕ → Sender
on_sack s ack duplicates timestamp retransmit_timeout capacity =
    let cumulative_ack = ack.cumulative_tsn_ack in
    let advance = diff s.peer_cumulative_ack cumulative_ack in
    let (bytes, rest) = drop_acked cumulative_ack s.chunks in
    let flight_size = get_flight_size timestamp retransmit_timeout s.chunks in
    let (losses, more, chunks) = process_gaps ack ack.gap_ack_blocks duplicates rest in
    let bytes_acked = add32 bytes more in
    let window = ack.advertised_receiver_window in
    let lessened =
      if ltb 0 losses && slt32 0 advance then on_packet_loss s.flow s.mtu else s.flow in
    let flow =
      if slt32 0 advance
      then on_sack_received lessened s.mtu flight_size bytes_acked (is_empty_list chunks)
      else lessened in
    if slt32 advance 0
    then s
    else handle_fast_retransmits
        (record s {
          peer_cumulative_ack = cumulative_ack;
          peer_receive_window = window - min window bytes_acked;
          flow = flow;
          chunks = chunks;
        })
        timestamp capacity
