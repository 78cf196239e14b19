-- ===== src/Active/Video/Seen.antt =====
-- The list of those who are seen in bridge/engine/ActiveMediaList.cpp and their groups of SSRCs.
use symphony_media_bridge.Common.{
  ℕ, ◌+◌, ◌≤◌, ◌<◌, ◌≡◌, ap, true, false, none, some, List, [], ◌∷◌, ◌++◌, ==_iff, length,
  length-append, arith, List-cases, inl, inr,
}
use symphony_media_bridge.Common.Maps
use symphony_media_bridge.Common.Maps.{Map, find_entry, erase_entry, find-erase}
use symphony_media_bridge.Common.Values.{IsUnique, erase-IsUnique, length-erase, is_in, is_distinct}
use symphony_media_bridge.Active.Entries.{remove_first}
use symphony_media_bridge.Active.Listed.{IsListed, is_in-remove_first, emplace_new, length-keys}
use symphony_media_bridge.Active.State.{ActiveMediaList, SimulcastGroup}

-- Only those who are seen hold a group, and the groups are the free ones and the held ones.
pub record IsHeld (total : ℕ) (free : List SimulcastGroup) (m : Map SimulcastGroup) (items : List ℕ)
    : Type 0 where
  pub unique : IsUnique m.entries
  pub held : (k : ℕ) → Maps.contains m k ≡ true → is_in k items ≡ true
  pub conserved : length free + Maps.size m ≡ total
  pub room : total ≤ m.capacity

-- Those who are seen are at most as many as there are groups. The hash 0 stands for nobody.
pub record IsSeen (total : ℕ) (a : ActiveMediaList) : Type 0 where
  pub listed : IsListed a.active_video_list_lookup_map a.active_video_list
  pub groups : IsHeld total a.video_ssrcs a.video_ssrc_rewrite_map a.active_video_list.items
  pub few : length a.active_video_list.items ≤ a.max_active_list_size
  pub enough : a.max_active_list_size ≤ total
  pub map_room : a.max_active_list_size ≤ a.active_video_list_lookup_map.capacity
  pub list_room : a.max_active_list_size ≤ a.active_video_list.capacity
  pub somebody : is_in 0 a.active_video_list.items ≡ false

module _ (total : ℕ) (free : List SimulcastGroup) (m : Map SimulcastGroup) (items : List ℕ)
    (c : IsHeld total free m items) where
  pub held_more :
      (items' : List ℕ)
      → ((k : ℕ) → is_in k items ≡ true → is_in k items' ≡ true)
      → IsHeld total free m items'
  held_more items' more = record {
    unique = c.unique;
    held = λ k h. more k (c.held k h);
    conserved = c.conserved;
    room = c.room;
  }

  -- Somebody who is not seen any more gives the group back.
  pub give_back :
      (k : ℕ) (group : SimulcastGroup)
      → Maps.find m k ≡ some group
      → is_distinct items ≡ true
      → IsHeld total (free ++ (group ∷ [])) (Maps.erase m k) (remove_first k items)
  unfolding find_entry
  give_back k group e d = record {
    unique = erase-IsUnique k m.entries c.unique;
    held =
        λ j h. ground (arith, c.held j, find-erase k j m.entries, is_in-remove_first j k items d);
    conserved =
        omega (
          arith,
          c.conserved,
          length-append free (group ∷ []),
          length-erase k m.entries c.unique e,
        );
    room = c.room;
  }

  pub no_group :
      (k : ℕ)
      → Maps.find m k ≡ none
      → is_distinct items ≡ true
      → IsHeld total free m (remove_first k items)
  no_group k e d = record {
    unique = c.unique;
    held = λ j h. ground (arith, c.held j, h, e, is_in-remove_first j k items d, ==_iff k j);
    conserved = c.conserved;
    room = c.room;
  }

  -- Where not everybody has a group, one is free.
  pub a_group_is_free :
      (most : ℕ)
      → is_distinct items ≡ true
      → length items < most
      → most ≤ total
      → (group : SimulcastGroup) × (rest : List SimulcastGroup) × (free ≡ group ∷ rest)
  a_group_is_free most d fewer enough = elim (List-cases free) [
    | inr found ↦ found
    | inl e ↦ absurd (
        omega (
          arith,
          c.conserved,
          ap length e,
          fewer,
          enough,
          length-keys m.entries items c.unique d c.held,
        ))
  ]

pub take_group :
    (total : ℕ) (rest : List SimulcastGroup) (m : Map SimulcastGroup) (items : List ℕ) (k : ℕ)
    (group : SimulcastGroup)
    → IsHeld total (group ∷ rest) m items
    → Maps.find m k ≡ none
    → is_in k items ≡ true
    → IsHeld total rest (Maps.emplace m k group) items
      × (Maps.contains (Maps.emplace m k group) k ≡ true)
unfolding find_entry
take_group total rest m items k group c new there =
    let free : Maps.size m < m.capacity = omega (arith, c.conserved, c.room) in
    rw (emplace_new m k group new free) (
      record {
        unique = (new, c.unique);
        held = λ j h. ground (arith, c.held j, h, ==_iff k j);
        conserved = omega (arith, c.conserved);
        room = c.room;
      },
      ground arith,
    )
