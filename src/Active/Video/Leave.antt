-- ===== src/Active/Video/Leave.antt =====
-- Who is no longer seen in bridge/engine/ActiveMediaList.cpp: `removeFromRewriteMap`, and the oldest
-- one, who makes room.
use symphony_media_bridge.Common.{
  ℕ, suc, ◌≤◌, ◌<◌, ◌≡◌, refl, ap, ◌∙◌, true, false, some, List, [], ◌∷◌, if◌then◌else◌, ◌==◌,
  ==_iff, length, arith, Bool-cases, Option-cases, List-cases, inl, inr,
}
use symphony_media_bridge.Common.Maps
use symphony_media_bridge.Common.Maps.{Map, find_entry, erase_entry, find-erase}
use symphony_media_bridge.Common.Values.{is_in}
use symphony_media_bridge.Active.Entries.{Entries, remove_first, remove, pop_from_head}
use symphony_media_bridge.Active.Listed.{is_in-remove_first, remove-IsListed}
use symphony_media_bridge.Active.State.{ActiveMediaList}
use symphony_media_bridge.Active.Video.{remove_from_rewrite_map, drop_oldest_video}
use symphony_media_bridge.Active.Video.Seen.{IsSeen, give_back, no_group}

abbrev pub tail : List ℕ → List ℕ
tail [] = []
tail (x ∷ xs) = xs

-- The participants, the size of the list and the speakers are left alone.
abbrev pub IsVideoFrame : ActiveMediaList → ActiveMediaList → Type 0
IsVideoFrame a b =
    (b.video_participants ≡ a.video_participants)
    × (b.max_active_list_size ≡ a.max_active_list_size)
    × (b.dominant_speaker ≡ a.dominant_speaker)
    × (b.domination_timestamp ≡ a.domination_timestamp)

pop_from_head_lem :
    (l : Entries) {x : ℕ} {xs : List ℕ}
    → l.items ≡ x ∷ xs
    → pop_from_head l ≡ (record l { items = xs }, some x)
unfolding pop_from_head
pop_from_head_lem l e = rw (e, pop_from_head) refl

-- An endpoint is not seen any more, and gives its group back.
abbrev pub unseen : ActiveMediaList → ℕ → ActiveMediaList
unseen a x =
    remove_from_rewrite_map
      (record a {
        active_video_list = (remove a.active_video_list x).0;
        active_video_list_lookup_map = Maps.erase a.active_video_list_lookup_map x;
      })
      x

module _ (total : ℕ) (a : ActiveMediaList) (c : IsSeen total a) where
  pub unseen-IsSeen :
      (x : ℕ)
      → is_in x a.active_video_list.items ≡ true
      → IsSeen total (unseen a x)
        × ((unseen a x).active_video_list
            ≡ record (a.active_video_list) { items = remove_first x a.active_video_list.items })
        × (suc (length (remove_first x a.active_video_list.items))
            ≡ length a.active_video_list.items)
        × IsVideoFrame a (unseen a x)
  unfolding remove_from_rewrite_map remove
  unseen-IsSeen x there =
      let (listed, shorter) = remove-IsListed _ _ x c.listed there in
      let nobody : is_in 0 (remove_first x a.active_video_list.items) ≡ false =
        ground
          (arith, c.somebody, is_in-remove_first 0 x a.active_video_list.items c.listed.distinct) in
      let few : length (remove_first x a.active_video_list.items) ≤ a.max_active_list_size =
        omega (arith, c.few, shorter) in
      elim (Option-cases (Maps.find a.video_ssrc_rewrite_map x)) [
        | inl e ↦
            rw (e, remove_from_rewrite_map)
              (
                record {
                  listed = listed;
                  groups = no_group _ _ _ _ c.groups x e c.listed.distinct;
                  few = few;
                  enough = c.enough;
                  map_room = c.map_room;
                  list_room = c.list_room;
                  somebody = nobody;
                },
                refl,
                shorter,
                (refl, refl, refl, refl),
              )
        | inr (group, e) ↦
            rw (e, remove_from_rewrite_map)
              (
                record {
                  listed = listed;
                  groups = give_back _ _ _ _ c.groups x group e c.listed.distinct;
                  few = few;
                  enough = c.enough;
                  map_room = c.map_room;
                  list_room = c.list_room;
                  somebody = nobody;
                },
                refl,
                shorter,
                (refl, refl, refl, refl),
              )
      ]

  drop_unseen :
      {x : ℕ} {xs : List ℕ}
      → a.active_video_list.items ≡ x ∷ xs
      → Maps.size a.active_video_list_lookup_map ≡ a.max_active_list_size
      → drop_oldest_video a ≡ (unseen a x, true)
  unfolding drop_oldest_video remove remove_first
  drop_unseen {x} {xs} e full =
      let drops : remove_first x a.active_video_list.items ≡ xs = rw e (ground arith) in
      let nonzero : (x == 0) ≡ false = ground (arith, c.somebody, e) in
      rw ((==_iff _ _).1 full, pop_from_head_lem a.active_video_list e, nonzero, drops)
        (rw (pop_from_head_lem a.active_video_list e) refl)

  -- There is room afterwards.
  pub drop_oldest_video_lem :
      0 < a.max_active_list_size
      → let (b, room) = drop_oldest_video a in
        (room ≡ true)
        × IsSeen total b
        × (length b.active_video_list.items < b.max_active_list_size)
        × (b.active_video_list.items ≡ (
            if length a.active_video_list.items == a.max_active_list_size
            then tail a.active_video_list.items
            else a.active_video_list.items))
        × IsVideoFrame a b
  unfolding drop_oldest_video remove_first
  drop_oldest_video_lem some_room =
      elim (Bool-cases (Maps.size a.active_video_list_lookup_map == a.max_active_list_size)) [
        | inr room ↦
            let listed_room : (length a.active_video_list.items == a.max_active_list_size) ≡ false =
              ground (arith, room, c.listed.size) in
            rw (room, listed_room)
              (refl, c, ground (arith, c.few, room, c.listed.size), refl, (refl, refl, refl, refl))
        | inl full ↦ elim (List-cases a.active_video_list.items) [
          | inl e ↦ absurd (ground (arith, full, c.listed.size, ap length e, some_room))
          | inr (x, xs, e) ↦
              let (seen, items, shorter, frame) = unseen-IsSeen x (rw e (ground arith)) in
              let listed_full : (length a.active_video_list.items == a.max_active_list_size)
                  ≡ true =
                ground (arith, full, c.listed.size) in
              rw (drop_unseen e ((==_iff _ _).0 full), listed_full)
                (
                  refl,
                  seen,
                  omega (arith, ap (λ l. length l.items) items, shorter, c.few, frame.1),
                  ap (λ l. l.items) items ∙ rw e (ground arith),
                  frame,
                )
        ]
      ]
