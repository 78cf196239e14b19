-- ===== src/Active/Video/Join.antt =====
-- Who is seen from now on in bridge/engine/ActiveMediaList.cpp, with a group of SSRCs.
use symphony_media_bridge.Common.{
  ℕ, suc, ◌≤◌, ◌<◌, ◌≡◌, ◌≢◌, refl, Bool, true, false, ◌||◌, none, List, ◌∷◌, ◌==◌, ==_iff, length,
  arith, Option-cases, inl, inr,
}
use symphony_media_bridge.Common.Maps
use symphony_media_bridge.Common.Maps.{Map, find_entry, erase_entry, find-erase}
use symphony_media_bridge.Common.Values.{is_in, is_distinct}
use symphony_media_bridge.Active.Listed.{IsListed, emplace_new}
use symphony_media_bridge.Active.State.{ActiveMediaList}
use symphony_media_bridge.Active.Video.{add_to_video_rewrite_map, assign_group, assign_group_if}
use symphony_media_bridge.Active.Video.Seen.{IsHeld, IsSeen, held_more, a_group_is_free, take_group}
use symphony_media_bridge.Active.Video.Leave.{IsVideoFrame}

module _ (total : ℕ) (a : ActiveMediaList) (c : IsSeen total a) where
  module _ (endpoint : ℕ) (somebody : endpoint ≢ 0)
      (new : is_in endpoint a.active_video_list.items ≡ false)
      (fits : length a.active_video_list.items < a.max_active_list_size) where
    no_entry : Maps.find a.active_video_list_lookup_map endpoint ≡ none
    no_entry = elim (Option-cases (Maps.find a.active_video_list_lookup_map endpoint)) [
      | inl e ↦ e
      | inr (v, e) ↦ absurd (ground (arith, c.listed.mapped endpoint, e, new))
    ]

    no_group_yet : Maps.find a.video_ssrc_rewrite_map endpoint ≡ none
    no_group_yet = elim (Option-cases (Maps.find a.video_ssrc_rewrite_map endpoint)) [
      | inl e ↦ e
      | inr (v, e) ↦ absurd (ground (arith, c.groups.held endpoint, e, new))
    ]

    module _ (items : List ℕ) (d : is_distinct items ≡ true)
        (more : (k : ℕ) → is_in k items ≡ (is_in k a.active_video_list.items || endpoint == k))
        (long : length items ≡ suc (length a.active_video_list.items)) where
      parts :
          IsListed
            (record (a.active_video_list_lookup_map) {
              entries = (endpoint, endpoint) ∷ a.active_video_list_lookup_map.entries;
            })
            (record (a.active_video_list) { items = items })
          × IsHeld total a.video_ssrcs a.video_ssrc_rewrite_map items
          × (length items ≤ a.max_active_list_size)
          × (is_in 0 items ≡ false)
          × (Maps.size a.active_video_list_lookup_map < a.active_video_list_lookup_map.capacity)
      unfolding find_entry
      parts = (
        record {
          distinct = d;
          unique = (no_entry, c.listed.unique);
          mapped = λ k. ground (arith, c.listed.mapped k, more k);
          size = omega (arith, c.listed.size, long);
        },
        held_more _ _ _ _ c.groups items (λ k h. ground (arith, more k, h)),
        omega (arith, long, fits),
        ground (arith, c.somebody, more 0, ==_iff endpoint 0),
        omega (arith, c.listed.size, c.map_room, fits),
      )

      -- Another endpoint is seen, with a group where it sends video.
      pub seen_too :
          (sends : Bool)
          → let (b, assigned) = assign_group_if sends a endpoint in
            let e : ActiveMediaList = record b {
              active_video_list = record (a.active_video_list) { items = items };
              active_video_list_lookup_map =
                  Maps.emplace b.active_video_list_lookup_map endpoint endpoint;
            } in
            (assigned ≡ true)
            × (b.active_video_list ≡ a.active_video_list)
            × IsSeen total e
            × (Maps.contains e.video_ssrc_rewrite_map endpoint ≡ sends)
            × IsVideoFrame a e
      unfolding assign_group assign_group_if add_to_video_rewrite_map find_entry
      seen_too false =
          let (listed, groups, few, nobody, map_free) = parts in
          rw (emplace_new _ endpoint endpoint no_entry map_free) (
            refl,
            refl,
            record {
              listed = listed;
              groups = groups;
              few = few;
              enough = c.enough;
              map_room = c.map_room;
              list_room = c.list_room;
              somebody = nobody;
            },
            rw no_group_yet refl,
            (refl, refl, refl, refl),
          )
      seen_too true =
          let (listed, groups, few, nobody, map_free) = parts in
          let (group, rest, e) =
            a_group_is_free _ _ _ _ c.groups _ c.listed.distinct fits c.enough in
          let (taken, has) =
            take_group total rest a.video_ssrc_rewrite_map items endpoint group (rw e at groups)
              no_group_yet (ground (arith, more endpoint)) in
          rw (e, emplace_new _ endpoint endpoint no_entry map_free, assign_group)
            (
              refl,
              refl,
              record {
                listed = listed;
                groups = taken;
                few = few;
                enough = c.enough;
                map_room = c.map_room;
                list_room = c.list_room;
                somebody = nobody;
              },
              has,
              (refl, refl, refl, refl),
            )
