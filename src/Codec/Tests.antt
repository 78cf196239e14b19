-- ===== src/Codec/Tests.antt =====
-- Payloads of VP8 and H.264, and the theorems on codec/Vp8Header.h and codec/H264Header.h applied
-- to them.
use symphony_media_bridge.Common.{ℕ, ◌≡◌, refl, inr, true, false, List, [], ◌∷◌, length, arith}
use symphony_media_bridge.Codec.Vp8.{
  byte, get_pic_id, get_tl0_pic_idx, get_tid, is_full, get_payload_descriptor_size, extended_size,
  get_x, get_i, get_l, get_t, get_k,
}
use symphony_media_bridge.Codec.Vp8.Descriptor.{renumber, renumber_lem}
use symphony_media_bridge.Codec.H264.{get_nal_unit_type, is_key_frame}
use symphony_media_bridge.Codec.H264.Aggregation.{two_units, is_key_frame_misses_second_unit}

abbrev full_descriptor : List ℕ
full_descriptor = 0x90 ∷ 0xe0 ∷ 0x80 ∷ 5 ∷ 9 ∷ 0x20 ∷ 1 ∷ 2 ∷ []

renumber_lem_example :
    (is_full (renumber full_descriptor 40000 77) ≡ true)
    × (get_pic_id (renumber full_descriptor 40000 77) ≡ 7232)
    × (get_tl0_pic_idx (renumber full_descriptor 40000 77) ≡ 77)
    × (get_tid (renumber full_descriptor 40000 77) ≡ get_tid full_descriptor)
    × (length (renumber full_descriptor 40000 77) ≡ 8)
    × (byte (renumber full_descriptor 40000 77) 7 ≡ 2)
unfolding get_payload_descriptor_size extended_size get_x get_i get_l get_t get_k
renumber_lem_example =
    renumber_lem full_descriptor 40000 77 7 refl (omega arith) (inr (omega arith))

-- A unit of type 6, then the parameter set.
is_key_frame_misses_second_unit_example :
    is_key_frame (two_units 24 (6 ∷ 1 ∷ 2 ∷ []) (0x67 ∷ 66 ∷ 3 ∷ [])) ≡ false
unfolding get_nal_unit_type
is_key_frame_misses_second_unit_example =
    is_key_frame_misses_second_unit 6 0x67 66 (1 ∷ 2 ∷ []) (3 ∷ []) (omega arith) refl (omega arith)
      (omega arith)
