-- ===== src/Jitter.antt =====
-- rtp/JitterBufferList.cpp. The linked list from `_head` to `_tail` is a list of packets, of which
-- the sequence number and the time matter; the list of free items is its length.
pub mod Order
pub mod Lost
mod Tests
use symphony_media_bridge.Common.{
  ℕ, suc, ◌+◌, ◌-◌, ◌%◌, Bool, true, false, not, Option, none, some, List, [], ◌∷◌, ◌++◌,
  if◌then◌else◌, ◌==◌, add32, sub16, sub32, slt16, u32_mod,
}

pub record Packet : Type 0 where
  pub sequence_number : ℕ
  pub timestamp : ℕ

pub record Buffer : Type 0 where
  pub free_items : ℕ
  pub items : List Packet
  pub count : ℕ

abbrev pub buffer_size : ℕ
buffer_size = 300

abbrev pub new_buffer : Buffer
new_buffer = record { free_items = buffer_size; items = []; count = 0 }

unfoldable pub tail : List Packet → Option Packet
tail [] = none
tail (p ∷ []) = some p
tail (p ∷ q ∷ ps) = tail (q ∷ ps)

-- The loop that looks for the first later packet; `none` where there is none.
unfoldable pub insert : Packet → List Packet → Option (List Packet)
insert p [] = none
insert p (i ∷ is) =
    let rest = insert p is in
    if slt16 0 (sub16 i.sequence_number p.sequence_number)
    then some (p ∷ i ∷ is)
    else (elim rest [ none ↦ none | some is' ↦ some (i ∷ is') ])

-- The list after the packet, or `none` where the packet finds no place in it.
unfoldable pub place : Packet → List Packet → Option (List Packet)
place p is = elim (tail is) [
  | none ↦ some (p ∷ [])
  | some t ↦
      if not (slt16 (sub16 p.sequence_number t.sequence_number) 0)
      then some (is ++ (p ∷ []))
      else insert p is
]

-- A corrupt packet has no header and is `none`.
unfoldable pub add : Buffer → Option Packet → Buffer × Bool
add b packet = elim packet [
  | none ↦ (b, false)
  | some p ↦
      if b.free_items == 0
      then (b, false)
      else let b' : Buffer = record b {
        free_items = b.free_items - 1;
        count = (b.count + 1) % u32_mod;
      } in
        (elim (place p b.items) [ none ↦ (b', false) | some is ↦ (record b' { items = is }, true) ])
]

unfoldable pub pop : Buffer → Buffer × Option Packet
pop b = elim b.items [
  | [] ↦ (b, none)
  | ◌∷◌ i is ↦
      (record { free_items = b.free_items + 1; items = is; count = sub32 b.count 1 }, some i)
]

unfoldable pub get_rtp_delay : Buffer → ℕ
get_rtp_delay b = elim b.items [
  | [] ↦ 0
  | ◌∷◌ h is ↦ elim (tail (h ∷ is)) [ none ↦ 0 | some t ↦ sub32 t.timestamp h.timestamp ]
]

-- A signed word, as its pattern.
unfoldable pub get_rtp_delay_from : Buffer → ℕ → ℕ
get_rtp_delay_from b rtp_timestamp = elim (tail b.items) [
  | none ↦ 0
  | some t ↦ sub32 t.timestamp rtp_timestamp
]

unfoldable pub get_front_rtp : Buffer → Option Packet
get_front_rtp b = elim b.items [ [] ↦ none | ◌∷◌ h is ↦ some h ]

unfoldable pub get_tail_rtp : Buffer → Option Packet
get_tail_rtp b = tail b.items
