-- ===== src/Active/Video/Update.antt =====
-- `updateActiveVideoList` of bridge/engine/ActiveMediaList.cpp.
use symphony_media_bridge.Common.{
  ℕ, ◌<◌, ◌≡◌, ◌≢◌, refl, ap, ◌∙◌, true, false, none, some, List, [], ◌∷◌, ◌++◌, if◌then◌else◌,
  ◌==◌, length, length-append, arith, Bool-cases, inl, inr,
}
use symphony_media_bridge.Common.Maps
use symphony_media_bridge.Common.Maps.{Map, find_entry, erase_entry, find-erase}
use symphony_media_bridge.Common.Values.{is_distinct-append, is_in, is_in-append}
use symphony_media_bridge.Active.Entries.{remove_first, remove}
use symphony_media_bridge.Active.Listed.{
  is_in-remove_first, remove-IsListed, push_to_tail-IsListed, push_to_tail_items, emplace_new,
}
use symphony_media_bridge.Active.State.{ActiveMediaList, VideoParticipant}
use symphony_media_bridge.Active.Video.{
  drop_oldest_video, show_last, update_active_video_list, sends_video_streams,
}
use symphony_media_bridge.Active.Video.Seen.{IsSeen, held_more}
use symphony_media_bridge.Active.Video.Leave.{IsVideoFrame, tail, drop_oldest_video_lem}
use symphony_media_bridge.Active.Video.Join.{seen_too}

is_in-tail : (k : ℕ) (q : List ℕ) → is_in k q ≡ false → is_in k (tail q) ≡ false
is_in-tail k [] h = refl
is_in-tail k (x ∷ q) h = ground (arith, h)

module _ (total : ℕ) (a : ActiveMediaList) (endpoint : ℕ) (c : IsSeen total a)
    (somebody : endpoint ≢ 0) (some_room : 0 < a.max_active_list_size) where
  -- Somebody who is seen already is listed last.
  moved :
      is_in endpoint a.active_video_list.items ≡ true
      → let b =
          show_last
            (record a {
              active_video_list = (remove a.active_video_list endpoint).0;
              active_video_list_lookup_map = Maps.erase a.active_video_list_lookup_map endpoint;
            })
            endpoint in
        IsSeen total b
        × (b.active_video_list.items
            ≡ remove_first endpoint a.active_video_list.items ++ (endpoint ∷ []))
  unfolding remove find_entry
  moved there =
      let q = remove_first endpoint a.active_video_list.items in
      let (listed, shorter) = remove-IsListed _ _ endpoint c.listed there in
      let gone : Maps.find (Maps.erase a.active_video_list_lookup_map endpoint) endpoint ≡ none =
        ground (arith, find-erase endpoint endpoint a.active_video_list_lookup_map.entries) in
      let map_free : Maps.size (Maps.erase a.active_video_list_lookup_map endpoint)
          < a.active_video_list_lookup_map.capacity =
        omega (arith, listed.size, shorter, c.few, c.map_room) in
      let list_free : length q < a.active_video_list.capacity =
        omega (arith, shorter, c.few, c.list_room) in
      let last = push_to_tail-IsListed _ _ endpoint listed endpoint gone in
      rw
        (
          push_to_tail_items (record (a.active_video_list) { items = q }) endpoint list_free,
          emplace_new _ endpoint endpoint gone map_free,
        )
        (
          record {
            listed = last;
            groups = held_more _ _ _ _ c.groups (q ++ (endpoint ∷ [])) (λ k h. ground (
              arith,
              h,
              is_in-append k q (endpoint ∷ []),
              is_in-remove_first k endpoint a.active_video_list.items c.listed.distinct,
            ));
            few = omega (arith, length-append q (endpoint ∷ []), shorter, c.few);
            enough = c.enough;
            map_room = c.map_room;
            list_room = c.list_room;
            somebody = ground (
              arith,
              c.somebody,
              is_in-append 0 q (endpoint ∷ []),
              is_in-remove_first 0 endpoint a.active_video_list.items c.listed.distinct,
              somebody,
            );
          },
          refl,
        )

  -- A participant who becomes the dominant speaker is the newest of those who are seen. The others
  -- keep their order, and the oldest one makes room where all places are taken. Somebody who was not
  -- seen before has a group of SSRCs exactly when it sends video. Only those who are seen hold a
  -- group, and the groups are accounted for. There is room for somebody, and the hash is not 0.
  pub update_active_video_list_lem :
      {p : VideoParticipant}
      → Maps.find a.video_participants endpoint ≡ some p
      → let (b, done) = update_active_video_list a endpoint in
        let old = a.active_video_list.items in
        (done ≡ true)
        × IsSeen total b
        × (b.active_video_list.items
            ≡ (if is_in endpoint old
                then remove_first endpoint old
                else if length old == a.max_active_list_size
                then tail old
                else old)
              ++ (endpoint ∷ []))
        × (is_in endpoint old ≡ false
            → Maps.contains b.video_ssrc_rewrite_map endpoint
              ≡ sends_video_streams p.simulcast_stream p.secondary_simulcast_stream)
        × IsVideoFrame a b
  unfolding update_active_video_list remove
  update_active_video_list_lem {p} known =
      let old = a.active_video_list.items in
      elim (Bool-cases (is_in endpoint old)) [
        | inl there ↦
            let (seen, items) = moved there in
            rw (known, update_active_video_list, there)
              (refl, seen, items, λ new. absurd (ground (arith, new)), (refl, refl, refl, refl))
        | inr new ↦
            let (room, seen, fits, items, (p1, m1, d1, t1)) =
              drop_oldest_video_lem total a c some_room in
            let b = (drop_oldest_video a).0 in
            let kept = b.active_video_list.items in
            let sends = sends_video_streams p.simulcast_stream p.secondary_simulcast_stream in
            let new' : is_in endpoint kept ≡ false =
              rw items (ground (arith, new, is_in-tail endpoint old)) in
            let (assigned, same, seen', has, (p2, m2, d2, t2)) =
              seen_too total b seen endpoint somebody new' fits (kept ++ (endpoint ∷ []))
                (ground (arith, is_distinct-append kept endpoint, seen.listed.distinct, new'))
                (λ k. ground (arith, is_in-append k kept (endpoint ∷ [])))
                (omega (arith, length-append kept (endpoint ∷ []))) sends in
            let free : length kept < b.active_video_list.capacity =
              omega (arith, fits, seen.list_room) in
            rw
              (
                known,
                update_active_video_list,
                new,
                room,
                assigned,
                same,
                push_to_tail_items b.active_video_list endpoint free,
              )
              (
                refl,
                seen',
                ap (λ l. l ++ (endpoint ∷ [])) items,
                λ n. has,
                (p2 ∙ p1, m2 ∙ m1, d2 ∙ d1, t2 ∙ t1),
              )
      ]
