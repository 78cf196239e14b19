-- ===== src/Codec/Vp8.antt =====
-- codec/Vp8Header.h. A payload is its list of bytes, and a byte that is not there reads as 0. Masks
-- and shifts are written as remainders and quotients.
pub mod Descriptor
use symphony_media_bridge.Common.{
  ℕ, ◌+◌, ◌*◌, ◌/◌, ◌%◌, Bool, true, false, ◌&&◌, ◌||◌, not, List, if◌then◌else◌, ltb, ◌==◌, get_or,
  set,
}

abbrev pub byte : List ℕ → ℕ → ℕ
byte payload i = get_or payload i 0

unfoldable pub get_x : List ℕ → ℕ
get_x payload = (byte payload 0 / 128) % 2

unfoldable pub get_i : List ℕ → ℕ
get_i payload = (byte payload 1 / 128) % 2

unfoldable pub get_l : List ℕ → ℕ
get_l payload = (byte payload 1 / 64) % 2

unfoldable pub get_t : List ℕ → ℕ
get_t payload = (byte payload 1 / 32) % 2

unfoldable pub get_k : List ℕ → ℕ
get_k payload = (byte payload 1 / 16) % 2

unfoldable pub get_n : List ℕ → ℕ
get_n payload = (byte payload 0 / 32) % 2

-- The size of the descriptor with an extension byte, before it is held against the payload's.
unfoldable pub extended_size : List ℕ → ℕ
extended_size payload =
    2
    + (if get_i payload == 1 then if (byte payload 2 / 128) % 2 == 1 then 2 else 1 else 0)
    + (if get_l payload == 1 then 1 else 0)
    + (if get_t payload == 1 || get_k payload == 1 then 1 else 0)

unfoldable pub get_payload_descriptor_size : List ℕ → ℕ → ℕ
get_payload_descriptor_size payload size =
    if size == 0
    then 0
    else if get_x payload == 0
    then 1
    else if ltb size 2
    then 0
    else if get_i payload == 1 && ltb size 3
    then 0
    else if ltb size (extended_size payload)
    then 0
    else extended_size payload

unfoldable pub is_start_of_partition : List ℕ → Bool
is_start_of_partition payload = (byte payload 0 / 16) % 2 == 1

unfoldable pub get_partition_id : List ℕ → ℕ
get_partition_id payload = byte payload 0 % 16

-- The getters and setters work on descriptors of the full six bytes only.
abbrev pub is_full : List ℕ → Bool
is_full payload = get_payload_descriptor_size payload 6 == 6

unfoldable pub get_tid : List ℕ → ℕ
get_tid payload = if is_full payload then (byte payload 5 / 64) % 4 else 0xff

unfoldable pub get_pic_id : List ℕ → ℕ
get_pic_id payload =
    if is_full payload then (byte payload 2 % 128) * 256 + byte payload 3 else 0xffff

unfoldable pub get_tl0_pic_idx : List ℕ → ℕ
get_tl0_pic_idx payload = if is_full payload then byte payload 4 else 0xff

unfoldable pub set_pic_id : List ℕ → ℕ → List ℕ
set_pic_id payload pic_id =
    if is_full payload
    then set (set payload 2 (128 + (pic_id / 256) % 128)) 3 (pic_id % 256)
    else payload

unfoldable pub set_tl0_pic_idx : List ℕ → ℕ → List ℕ
set_tl0_pic_idx payload tl0_pic_idx = if is_full payload then set payload 4 tl0_pic_idx else payload

unfoldable pub is_key_frame : List ℕ → ℕ → Bool
is_key_frame payload descriptor_size =
    if not (is_start_of_partition payload)
      || not (get_partition_id payload == 0)
      || descriptor_size == 0
    then false
    else byte payload descriptor_size % 2 == 0
