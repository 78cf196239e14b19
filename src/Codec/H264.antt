-- ===== src/Codec/H264.antt =====
-- codec/H264Header.h on a payload given as its list of bytes; a byte past its end reads as 0.
pub mod Aggregation
use symphony_media_bridge.Common.{
  ℕ, zero, suc, ◌+◌, ◌*◌, ◌/◌, ◌%◌, Bool, true, false, ◌&&◌, ◌||◌, List, if◌then◌else◌, ltb, leb,
  ◌==◌, get_or, length,
}

abbrev pub byte : List ℕ → ℕ → ℕ
byte payload i = get_or payload i 0

unfoldable pub get_nal_unit_type : ℕ → ℕ
get_nal_unit_type nal_header = nal_header % 32

-- The loop over the units of a STAP-A packet, on fuel. The size is read from the network order.
unfoldable pub has_parameter_set : ℕ → List ℕ → ℕ → ℕ → Bool
has_parameter_set zero payload size offset = false
has_parameter_set (suc fuel) payload size offset =
    let nalu_size = byte payload offset * 256 + byte payload (offset + 1) in
    let rest = has_parameter_set fuel payload size (offset + 2 + (1 + nalu_size)) in
    if leb (offset + 3) size
    then if get_nal_unit_type (byte payload (offset + 2)) == 7 then true else rest
    else false

unfoldable pub is_key_frame : List ℕ → Bool
unfolding get_nal_unit_type
is_key_frame payload =
    let size = length payload in
    let type = get_nal_unit_type (byte payload 0) in
    if leb size 1
    then false
    else if type == 7
    then true
    else if type == 24
    then has_parameter_set size payload size 1
    else if type == 28 || type == 29
    then get_nal_unit_type (byte payload 1) == 7 && leb 128 (byte payload 1)
    else false
