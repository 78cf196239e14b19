-- ===== src/Sctp/Sack.antt =====
-- The acknowledgements of transport/sctp: `SackBuilder` of Sctprotocol.cpp and `prepareSack` of
-- SctpAssociationImpl.cpp.
pub mod Blocks
pub mod Runs
pub mod Gaps
use symphony_media_bridge.Common.{
  ℕ, ◌+◌, ◌-◌, ◌/◌, ◌%◌, ◌^◌, Bool, true, false, not, ◌&&◌, ◌||◌, List, [], ◌∷◌, ◌++◌,
  if◌then◌else◌, ltb, leb, ◌==◌, min, length, u16_mod, u32_mod, add32, sub32, slt32,
}
use symphony_media_bridge.Sctp.{diff, DataChunk}
use symphony_media_bridge.Sctp.Inbound.{Inbound, advance_ack}

-- A block has the distances of its first and last number from the cumulative one, in 16 bits.
pub record SelectiveAck : Type 0 where
  pub cumulative_tsn_ack : ℕ
  pub advertised_receiver_window : ℕ
  pub gap_ack_blocks : List (ℕ × ℕ)

-- `addAck`, in an area of so many bytes.
unfoldable pub add_ack : ℕ → SelectiveAck → ℕ → ℕ → SelectiveAck
add_ack area_size ack start_tsn end_tsn =
    if ltb (area_size / 4) (length ack.gap_ack_blocks + 1) then ack else record ack {
      gap_ack_blocks =
          ack.gap_ack_blocks
          ++ (
            sub32 start_tsn ack.cumulative_tsn_ack % u16_mod,
            sub32 (sub32 end_tsn 1) ack.cumulative_tsn_ack % u16_mod,
          )
            ∷ [];
    }

-- `getAck`.
abbrev pub get_ack : SelectiveAck → ℕ × ℕ → ℕ × ℕ
get_ack ack (first, last) = (add32 first ack.cumulative_tsn_ack, add32 last ack.cumulative_tsn_ack)

-- The second loop of `prepareSack`, and the block that it leaves.
unfoldable pub add_blocks : ℕ → SelectiveAck → ℕ → ℕ → ℕ → List DataChunk → SelectiveAck
add_blocks area_size ack block_start next_tsn block_end [] =
    add_ack area_size ack block_start block_end
add_blocks area_size ack block_start next_tsn block_end (c ∷ cs) =
    let tsn = c.transmission_sequence_number in
    let follows = tsn == next_tsn in
    let next = add32 next_tsn 1 in
    add_blocks area_size (if follows then ack else add_ack area_size ack block_start block_end)
      (if follows then block_start else tsn) next next cs

unfoldable pub gap_blocks : ℕ → SelectiveAck → List DataChunk → SelectiveAck
gap_blocks area_size ack [] = ack
gap_blocks area_size ack (c ∷ cs) =
    let tsn = c.transmission_sequence_number in
    let next = add32 tsn 1 in add_blocks area_size ack tsn next next cs

-- `prepareSack` with the size of a packet: the state, and the acknowledgement that is prepared.
unfoldable pub prepare_sack : Inbound → ℕ → Inbound × SelectiveAck
prepare_sack s mtu =
    let (cumulative_ack, beyond) = advance_ack s.cumulative_ack s.chunks in
    let area_size = min 2048 (mtu - 12 - 16) in
    let ack : SelectiveAck = record {
      cumulative_tsn_ack = cumulative_ack;
      advertised_receiver_window = s.advertised_receive_window;
      gap_ack_blocks = [];
    } in
    (record s { cumulative_ack = cumulative_ack }, gap_blocks area_size ack beyond)

-- Whether a number is acknowledged by the block, as `onSackReceived` reads it.
abbrev pub is_inside : SelectiveAck → ℕ × ℕ → ℕ → Bool
is_inside ack block tsn =
    let (first, last) = get_ack ack block in
    not (slt32 0 (diff last tsn)) && not (slt32 0 (diff tsn first))

abbrev pub is_in_blocks : SelectiveAck → List (ℕ × ℕ) → ℕ → Bool
is_in_blocks ack [] tsn = false
is_in_blocks ack (b ∷ bs) tsn = is_inside ack b tsn || is_in_blocks ack bs tsn

abbrev pub is_acknowledged : SelectiveAck → ℕ → Bool
is_acknowledged ack tsn = is_in_blocks ack ack.gap_ack_blocks tsn
