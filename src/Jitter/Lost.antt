-- ===== src/Jitter/Lost.antt =====
-- The packet that rtp/JitterBufferList.cpp loses.
use symphony_media_bridge.Common.{
  suc, ◌+◌, ◌%◌, ◌<◌, ◌≡◌, false, some, [], ◌∷◌, u16_mod, length, arith,
}
use symphony_media_bridge.Jitter.{Packet, Buffer, tail, insert, place, add, buffer_size}

-- A packet exactly half the ring of 16 bits away from the only buffered one is refused after it
-- has taken an item: where each item was used or free, that item is neither any more, and `count`
-- counts it.
add-loses_item :
    (b : Buffer) (p t : Packet)
    → b.items ≡ t ∷ []
    → p.sequence_number < u16_mod
    → t.sequence_number < u16_mod
    → p.sequence_number ≡ (t.sequence_number + 32768) % u16_mod
    → b.free_items + length b.items ≡ buffer_size
    → b.count ≡ length b.items
    → let (b', taken) = add b (some p) in
      (taken ≡ false)
      × (b'.items ≡ b.items)
      × (suc (b'.free_items + length b'.items) ≡ buffer_size)
      × (b'.count ≡ suc (length b'.items))
unfolding add place tail insert
add-loses_item b p t only small small' half store counted = ground (arith, only)
