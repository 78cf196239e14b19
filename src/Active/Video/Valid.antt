-- ===== src/Active/Video/Valid.antt =====
-- `removeVideoParticipant` of bridge/engine/ActiveMediaList.cpp.
use symphony_media_bridge.Common.{
  ℕ, ◌<◌, ◌≡◌, refl, ap, true, false, Option, none, List, [], ◌∷◌, ◌==◌, ==_iff, arith, Bool-cases,
  Option-cases, inl, inr,
}
use symphony_media_bridge.Common.Maps
use symphony_media_bridge.Common.Maps.{Map, find_entry, erase_entry, find-erase, erase_absent}
use symphony_media_bridge.Common.Values.{is_in}
use symphony_media_bridge.Active.Entries.{remove_first, remove}
use symphony_media_bridge.Active.Listed.{is_in-remove_first}
use symphony_media_bridge.Active.State.{
  ActiveMediaList, ScreenShare, VideoParticipant, next_revision,
}
use symphony_media_bridge.Active.Video.{remove_from_rewrite_map}
use symphony_media_bridge.Active.Video.Seen.{IsSeen}
use symphony_media_bridge.Active.Video.{remove_video_participant}
use symphony_media_bridge.Active.Video.Leave.{unseen, unseen-IsSeen}

-- Those who are seen are participants, and there is room for one.
pub record IsValid (total : ℕ) (a : ActiveMediaList) : Type 0 where
  pub seen : IsSeen total a
  pub known :
      (k : ℕ)
      → is_in k a.active_video_list.items ≡ true
      → Maps.contains a.video_participants k ≡ true
  pub some_room : 0 < a.max_active_list_size

remove_first_absent : (x : ℕ) (q : List ℕ) → is_in x q ≡ false → remove_first x q ≡ q
unfolding remove_first
remove_first_absent x [] h = refl
remove_first_absent x (y ∷ q) h = ground (arith, remove_first_absent x q)

module _ (total : ℕ) (a : ActiveMediaList) (v : IsValid total a) where
  pub screen-IsValid :
      (s : Option ScreenShare) (r : ℕ)
      → IsValid total (record a { video_screen_share_ssrc_mapping = s; ssrc_map_revision = r })
  screen-IsValid s r = record {
    seen = record {
      listed = v.seen.listed;
      groups = v.seen.groups;
      few = v.seen.few;
      enough = v.seen.enough;
      map_room = v.seen.map_room;
      list_room = v.seen.list_room;
      somebody = v.seen.somebody;
    };
    known = v.known;
    some_room = v.some_room;
  }

module _ (total : ℕ) (a : ActiveMediaList) (endpoint : ℕ) (v : IsValid total a) where
  unseen_absent :
      is_in endpoint a.active_video_list.items ≡ false
      → unseen a endpoint ≡ record a { ssrc_map_revision = next_revision a }
  unfolding remove_from_rewrite_map remove
  unseen_absent new =
      let no_entry : Maps.find a.active_video_list_lookup_map endpoint ≡ none =
        elim (Option-cases (Maps.find a.active_video_list_lookup_map endpoint)) [
          | inl e ↦ e
          | inr (u, e) ↦ absurd (ground (arith, v.seen.listed.mapped endpoint, e, new))
        ] in
      let no_group_yet : Maps.find a.video_ssrc_rewrite_map endpoint ≡ none =
        elim (Option-cases (Maps.find a.video_ssrc_rewrite_map endpoint)) [
          | inl e ↦ e
          | inr (u, e) ↦ absurd (ground (arith, v.seen.groups.held endpoint, e, new))
        ] in
      rw
        (
          no_group_yet,
          remove_from_rewrite_map,
          remove_first_absent endpoint a.active_video_list.items new,
          erase_absent endpoint a.active_video_list_lookup_map.entries no_entry,
        )
        refl

pub people-IsSeen :
    (total : ℕ) (a : ActiveMediaList) (m : Map VideoParticipant)
    → IsSeen total a
    → IsSeen total (record a { video_participants = m })
people-IsSeen total a m c = record {
  listed = c.listed;
  groups = c.groups;
  few = c.few;
  enough = c.enough;
  map_room = c.map_room;
  list_room = c.list_room;
  somebody = c.somebody;
}

-- The last part of `removeVideoParticipant`.
abbrev gone : ActiveMediaList → ℕ → ActiveMediaList
gone a x =
    let d : ActiveMediaList = remove_from_rewrite_map a x in
    record d {
      active_video_list = (remove d.active_video_list x).0;
      active_video_list_lookup_map = Maps.erase d.active_video_list_lookup_map x;
    }

gone-unseen :
    (a : ActiveMediaList) (x : ℕ) (m : Map VideoParticipant)
    → gone (record a { video_participants = m }) x ≡ record (unseen a x) { video_participants = m }
unfolding remove_from_rewrite_map remove
gone-unseen a x m = elim (Option-cases (Maps.find a.video_ssrc_rewrite_map x)) [
  | inl e ↦ rw (e, remove_from_rewrite_map) refl
  | inr (group, e) ↦ rw (e, remove_from_rewrite_map) refl
]

module _ (total : ℕ) (a : ActiveMediaList) (endpoint : ℕ) (v : IsValid total a) where
  gone-IsValid :
      IsValid total
        (gone (record a { video_participants = Maps.erase a.video_participants endpoint }) endpoint)
  gone-IsValid =
      let old = a.active_video_list.items in
      rw (gone-unseen a endpoint (Maps.erase a.video_participants endpoint))
        (elim (Bool-cases (is_in endpoint old)) [
          | inl there ↦
              let (seen, list, shorter, (people, most, d, t)) =
                unseen-IsSeen total a v.seen endpoint there in
              record {
                seen = people-IsSeen total (unseen a endpoint) _ seen;
                known = λ k h. ground (
                  arith,
                  v.known k,
                  rw list at h,
                  find-erase endpoint k a.video_participants.entries,
                  is_in-remove_first k endpoint old v.seen.listed.distinct,
                );
                some_room = rw most v.some_room;
              }
          | inr new ↦
              let same =
                screen-IsValid total a v a.video_screen_share_ssrc_mapping (next_revision a) in
              rw (unseen_absent total a endpoint v new) (record {
                seen = people-IsSeen total _ _ same.seen;
                known = λ k h. ground (
                  arith,
                  v.known k h,
                  h,
                  new,
                  find-erase endpoint k a.video_participants.entries,
                  ==_iff endpoint k,
                );
                some_room = v.some_room;
              })
        ])

module _ (total : ℕ) (a : ActiveMediaList) (endpoint : ℕ) (v : IsValid total a) where
  pub remove_video_participant-IsValid :
      let b = (remove_video_participant a endpoint).0 in
      IsValid total b
      × (Maps.contains a.video_participants endpoint ≡ true
          → b.video_participants ≡ Maps.erase a.video_participants endpoint)
  unfolding remove_video_participant
  remove_video_participant-IsValid =
      let people = λ (b : ActiveMediaList).
        ap (λ c. c.video_participants)
          (gone-unseen b endpoint (Maps.erase a.video_participants endpoint)) in
      elim (Bool-cases (Maps.contains a.video_participants endpoint)) [
        | inr absent ↦ rw (absent, remove_video_participant) (v, λ h. absurd (ground (arith, h)))
        | inl there ↦ elim (Option-cases a.video_screen_share_ssrc_mapping) [
          | inl e ↦ rw (there, e) (gone-IsValid total a endpoint v, λ h. people a)
          | inr (s, e) ↦ elim (Bool-cases (s.endpoint == endpoint)) [
            | inr other ↦ rw (there, e, other) (gone-IsValid total a endpoint v, λ h. people a)
            | inl this ↦
                rw (there, e, this)
                  (
                    gone-IsValid total _ endpoint (screen-IsValid total a v none (next_revision a)),
                    λ h. people (record a {
                      video_screen_share_ssrc_mapping = none;
                      ssrc_map_revision = next_revision a;
                    }),
                  )
          ]
        ]
      ]
