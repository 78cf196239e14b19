-- ===== src/Active/Video/Participants.antt =====
-- Participants with video who join, in bridge/engine/ActiveMediaList.cpp.
use symphony_media_bridge.Common.{
  ℕ, ◌<◌, ◌≡◌, ◌≢◌, refl, sym, ◌∙◌, Bool, true, false, Option, none, some, List, [], ◌∷◌,
  if◌then◌else◌, lt→ltb, ◌==◌, ==_iff, length, arith, Bool-cases, Option-cases, inl, inr, ◌⊎◌,
}
use symphony_media_bridge.Common.Maps
use symphony_media_bridge.Common.Maps.{Map, find_entry, erase_entry, find-erase, erase_absent}
use symphony_media_bridge.Common.Values.{is_in, is_in-append}
use symphony_media_bridge.Active.Entries.{push_to_head, remove_first}
use symphony_media_bridge.Active.Listed.{is_in-remove_first, push_to_head_items}
use symphony_media_bridge.Active.State.{ActiveMediaList, VideoParticipant}
use symphony_media_bridge.Active.Video.{
  assign_group_if, update_active_video_list, sends_video_streams,
}
use symphony_media_bridge.Active.Video.Leave.{tail}
use symphony_media_bridge.Active.Video.Join.{seen_too}
use symphony_media_bridge.Active.Video.{
  share_screen, update_if_dominant, on_video_participant_added, add_video_participant,
}
use symphony_media_bridge.Active.Video.Update.{update_active_video_list_lem}
use symphony_media_bridge.Director.Streams.{SimulcastStream, is_sending_slides}
use symphony_media_bridge.Active.Video.Valid.{IsValid, screen-IsValid, people-IsSeen}
use symphony_media_bridge.Active.Video.Join.{seen_too}

is_in-tail : (k : ℕ) (q : List ℕ) → is_in k (tail q) ≡ true → is_in k q ≡ true
is_in-tail k [] h = h
is_in-tail k (x ∷ q) h = ground (arith, h)

module _ (total : ℕ) (a : ActiveMediaList) (endpoint : ℕ) (v : IsValid total a)
    (somebody : endpoint ≢ 0) where
  update_known-IsValid :
      {p : VideoParticipant}
      → Maps.find a.video_participants endpoint ≡ some p
      → IsValid total (update_active_video_list a endpoint).0
  update_known-IsValid known =
      let old = a.active_video_list.items in
      let (done, seen, items, group, (people, most, d, t)) =
        update_active_video_list_lem total a endpoint v.seen somebody v.some_room known in
      let before : (k : ℕ)
          → is_in k (update_active_video_list a endpoint).0.active_video_list.items ≡ true
          → (endpoint ≡ k) ⊎ (is_in k old ≡ true) =
        λ k h. ground (
          arith,
          rw items at h,
          is_in-append k
              (if is_in endpoint old
                then remove_first endpoint old
                else if length old == a.max_active_list_size
                then tail old
                else old)
              (endpoint ∷ []),
          ==_iff endpoint k,
          is_in-tail k old,
          is_in-remove_first k endpoint old v.seen.listed.distinct,
        ) in
      record {
        seen = seen;
        known = λ k h. rw people (elim (before k h) [
          | inl this ↦ rw (sym this) (ground (arith, known))
          | inr there ↦ v.known k there
        ]);
        some_room = rw most v.some_room;
      }

  pub update-IsValid : IsValid total (update_active_video_list a endpoint).0
  unfolding update_active_video_list
  update-IsValid = elim (Option-cases (Maps.find a.video_participants endpoint)) [
    | inl absent ↦ rw (absent, update_active_video_list) v
    | inr (p, known) ↦ update_known-IsValid known
  ]

share_screen-IsValid :
    (total : ℕ) (a : ActiveMediaList) (endpoint : ℕ) (primary : SimulcastStream)
    (secondary : Option SimulcastStream)
    → IsValid total a
    → let b = share_screen a endpoint primary secondary in
      IsValid total b
      × (b.video_participants ≡ a.video_participants)
      × (b.active_video_list ≡ a.active_video_list)
share_screen-IsValid total a endpoint primary secondary v =
    elim (Bool-cases (is_sending_slides primary)) [
      | inl e ↦ rw e (screen-IsValid total a v _ _, refl, refl)
      | inr e ↦ elim (Option-cases secondary) [
        | inl absent ↦ rw (e, absent) (v, refl, refl)
        | inr (s, there) ↦ elim (Bool-cases (is_sending_slides s)) [
          | inl e2 ↦ rw (e, there, e2) (screen-IsValid total a v _ _, refl, refl)
          | inr e2 ↦ rw (e, there, e2) (v, refl, refl)
        ]
      ]
    ]

update_if_dominant-IsValid :
    (total : ℕ) (a : ActiveMediaList) (endpoint : ℕ)
    → IsValid total a
    → endpoint ≢ 0
    → IsValid total (update_if_dominant a endpoint).0
update_if_dominant-IsValid total a endpoint v somebody =
    elim (Bool-cases (endpoint == a.dominant_speaker)) [
      | inr other ↦ rw other v
      | inl this ↦ rw this (
          update-IsValid total a a.dominant_speaker v
            (λ z. somebody ((==_iff endpoint a.dominant_speaker).0 this ∙ z)))
    ]

-- A new participant, who is in the table of participants already.
module _ (total : ℕ) (a : ActiveMediaList) (endpoint : ℕ) (v : IsValid total a)
    (somebody : endpoint ≢ 0) (there : Maps.contains a.video_participants endpoint ≡ true)
    (new : is_in endpoint a.active_video_list.items ≡ false) where
  shown_first-IsValid :
      (sends : Bool)
      → length a.active_video_list.items < a.max_active_list_size
      → let (b, assigned) = assign_group_if sends a endpoint in
        (assigned ≡ true)
        × IsValid total (record b {
          active_video_list = (push_to_head b.active_video_list endpoint).0;
          active_video_list_lookup_map =
              Maps.emplace b.active_video_list_lookup_map endpoint endpoint;
        })
  shown_first-IsValid sends fits =
      let old = a.active_video_list.items in
      let (assigned, same, seen, has, (people, most, d, t)) =
        seen_too total a v.seen endpoint somebody new fits (endpoint ∷ old)
          (ground (arith, v.seen.listed.distinct, new)) (λ k. ground arith) refl sends in
      let free : length old < a.active_video_list.capacity =
        omega (arith, fits, v.seen.list_room) in
      rw (assigned, same, push_to_head_items a.active_video_list endpoint free)
        (
          refl,
          record {
            seen = seen;
            known = λ k h. rw people (ground (arith, h, there, v.known k, ==_iff endpoint k));
            some_room = rw most v.some_room;
          },
        )

module _ (total : ℕ) (a : ActiveMediaList) (endpoint : ℕ) (v : IsValid total a)
    (somebody : endpoint ≢ 0) (there : Maps.contains a.video_participants endpoint ≡ true)
    (new : is_in endpoint a.active_video_list.items ≡ false) (primary : SimulcastStream)
    (secondary : Option SimulcastStream) where
  pub on_video_participant_added-IsValid :
      IsValid total (on_video_participant_added a endpoint primary secondary).0
  unfolding on_video_participant_added
  on_video_participant_added-IsValid =
      let b = share_screen a endpoint primary secondary in
      let (w, people, list) = share_screen-IsValid total a endpoint primary secondary v in
      let there' : Maps.contains b.video_participants endpoint ≡ true = rw people there in
      let new' : is_in endpoint b.active_video_list.items ≡ false = rw list new in
      elim (Bool-cases (Maps.size b.active_video_list_lookup_map == b.max_active_list_size)) [
        | inl full ↦ rw full (update_if_dominant-IsValid total b endpoint w somebody)
        | inr room ↦
            let fits : length b.active_video_list.items < b.max_active_list_size =
              ground (arith, room, w.seen.listed.size, w.seen.few) in
            let (assigned, x) =
              shown_first-IsValid total b endpoint w somebody there' new'
                (sends_video_streams primary secondary) fits in
            rw (room, assigned) (update_if_dominant-IsValid total _ endpoint x somebody)
      ]

module _ (total : ℕ) (a : ActiveMediaList) (endpoint : ℕ) (p : VideoParticipant)
    (v : IsValid total a) (somebody : endpoint ≢ 0)
    (room : Maps.size a.video_participants < a.video_participants.capacity) where
  pub added-IsValid :
      Maps.find a.video_participants endpoint ≡ none
      → IsValid total
          (on_video_participant_added
            (record a {
              video_participants = record (a.video_participants) {
                entries = (endpoint, p) ∷ a.video_participants.entries;
              };
            })
            endpoint
            p.simulcast_stream
            p.secondary_simulcast_stream).0
  unfolding find_entry
  added-IsValid absent =
      let m : Map VideoParticipant = record (a.video_participants) {
        entries = (endpoint, p) ∷ a.video_participants.entries;
      } in
      let w : IsValid total (record a { video_participants = m }) = record {
        seen = people-IsSeen total a m v.seen;
        known = λ k h. ground (arith, v.known k h);
        some_room = v.some_room;
      } in
      let new : is_in endpoint a.active_video_list.items ≡ false =
        elim (Bool-cases (is_in endpoint a.active_video_list.items)) [
          | inr e ↦ e
          | inl e ↦ absurd (ground (arith, v.known endpoint e, absent))
        ] in
      on_video_participant_added-IsValid total _ endpoint w somebody (ground arith) new
        p.simulcast_stream p.secondary_simulcast_stream

  pub add_video_participant-IsValid : IsValid total (add_video_participant a endpoint p).0
  unfolding add_video_participant
  add_video_participant-IsValid = elim (Option-cases (Maps.find a.video_participants endpoint)) [
    | inr (q, there) ↦ rw (there, add_video_participant) v
    | inl absent ↦ rw (absent, add_video_participant, lt→ltb _ _ room) (added-IsValid absent)
  ]
