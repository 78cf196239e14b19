-- ===== src/Active/Audio/Ssrcs.antt =====
-- The SSRCs of the active speakers in bridge/engine/ActiveMediaList.cpp.
use symphony_media_bridge.Common.{
  ℕ, ◌+◌, ◌≤◌, ◌<◌, ◌≡◌, true, none, some, List, [], ◌∷◌, ◌++◌, length, length-append, arith,
}
use symphony_media_bridge.Common.Maps
use symphony_media_bridge.Common.Maps.{Map, find_entry, erase_entry, find-erase}
use symphony_media_bridge.Common.Values.{
  count_values, count_values-erase, count, count-append, is_in,
}
use symphony_media_bridge.Active.Entries.{Entries, push_to_tail, push_to_head, remove_first}
use symphony_media_bridge.Active.Listed.{
  IsListed, remove-IsListed, push_to_tail-IsListed, push_to_head-IsListed, push_to_tail_items,
  push_to_head_items, emplace_new, move_last-IsListed,
}
use symphony_media_bridge.Active.State.{ActiveMediaList}

-- The active list has the endpoints of the rewrite map; the configured SSRCs are the free ones and
-- those of the map; and there is room for as many speakers as SSRCs.
pub record Holds (configured free : List ℕ) (m : Map ℕ) (l : Entries) (max_speakers : ℕ)
    : Type 0 where
  pub listed : IsListed m l
  pub total : length free + length l.items ≡ max_speakers
  pub conserved : (x : ℕ) → count x free + count_values x m.entries ≡ count x configured
  pub map_room : max_speakers ≤ m.capacity
  pub list_room : max_speakers ≤ l.capacity

abbrev pub IsConsistent : List ℕ → ActiveMediaList → Type 0
IsConsistent configured a =
    Holds configured a.audio_ssrcs a.audio_ssrc_rewrite_map a.active_audio_list a.max_speakers

module _ (configured : List ℕ) (m : Map ℕ) (l : Entries) (max_speakers : ℕ) where
  -- An endpoint gives its SSRC back.
  pub release :
      (free : List ℕ) (k ssrc : ℕ)
      → Holds configured free m l max_speakers
      → Maps.find m k ≡ some ssrc
      → Holds configured
          (free ++ (ssrc ∷ []))
          (Maps.erase m k)
          (record l { items = remove_first k l.items })
          max_speakers
  unfolding find_entry
  release free k ssrc c e =
      let (listed, shorter) =
        remove-IsListed m l k c.listed (ground (arith, c.listed.mapped k, e)) in
      record {
        listed = listed;
        total = omega (arith, c.total, length-append free (ssrc ∷ []), shorter);
        conserved = λ x. ground (
          arith,
          c.conserved x,
          count-append x free (ssrc ∷ []),
          count_values-erase x k m.entries c.listed.unique,
          e,
        );
        map_room = c.map_room;
        list_room = c.list_room;
      }

  -- A new endpoint takes the next free SSRC.
  module _ (rest : List ℕ) (k ssrc : ℕ) (c : Holds configured (ssrc ∷ rest) m l max_speakers)
      (new : Maps.find m k ≡ none) where
    room_for_one : (length l.items < l.capacity) × (Maps.size m < m.capacity)
    room_for_one = omega (arith, c.total, c.listed.size, c.map_room, c.list_room)

    pub take_tail : Holds configured rest (Maps.emplace m k ssrc) (push_to_tail l k).0 max_speakers
    take_tail =
        let (list_free, map_free) = room_for_one in
        rw (push_to_tail_items l k list_free, emplace_new m k ssrc new map_free)
          (record {
            listed = push_to_tail-IsListed m l k c.listed ssrc new;
            total = omega (arith, c.total, length-append l.items (k ∷ []));
            conserved = λ x. omega (arith, c.conserved x);
            map_room = c.map_room;
            list_room = c.list_room;
          })

    pub take_head : Holds configured rest (Maps.emplace m k ssrc) (push_to_head l k).0 max_speakers
    take_head =
        let (list_free, map_free) = room_for_one in
        rw (push_to_head_items l k list_free, emplace_new m k ssrc new map_free)
          (record {
            listed = push_to_head-IsListed m l k c.listed ssrc new;
            total = omega (arith, c.total);
            conserved = λ x. omega (arith, c.conserved x);
            map_room = c.map_room;
            list_room = c.list_room;
          })

  -- An active endpoint moves to the tail.
  pub move_last :
      (free : List ℕ) (k : ℕ)
      → Holds configured free m l max_speakers
      → is_in k l.items ≡ true
      → Holds configured free m
          (push_to_tail (record l { items = remove_first k l.items }) k).0
          max_speakers
  move_last free k c there =
      let (listed, shorter) = remove-IsListed m l k c.listed there in
      let fits : length (remove_first k l.items) < l.capacity =
        omega (arith, c.total, c.list_room, shorter) in
      rw (push_to_tail_items _ k fits) (record {
        listed = move_last-IsListed m l k c.listed there;
        total = omega (arith, c.total, shorter, length-append (remove_first k l.items) (k ∷ []));
        conserved = c.conserved;
        map_room = c.map_room;
        list_room = c.list_room;
      })
