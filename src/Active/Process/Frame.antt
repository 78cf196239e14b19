-- ===== src/Active/Process/Frame.antt =====
-- What the lists of bridge/engine/ActiveMediaList.cpp leave alone: the dominant and the nominated
-- speaker, and the times of `process`.
use symphony_media_bridge.Common.{
  ℕ, zero, suc, ◌≡◌, refl, ◌∙◌, Bool, true, false, List, [], ◌∷◌, ◌==◌, Bool-cases, Option-cases,
  List-cases, inl, inr,
}
use symphony_media_bridge.Common.Maps
use symphony_media_bridge.Common.Values.{is_in}
use symphony_media_bridge.Active.Entries.{remove, pop_from_head}
use symphony_media_bridge.Active.State.{ActiveMediaList}
use symphony_media_bridge.Active.Audio.{
  drop_oldest_speaker, activate_speaker, update_active_audio_list,
}
use symphony_media_bridge.Active.Video.{
  remove_from_rewrite_map, assign_group, assign_group_if, add_to_video_rewrite_map,
  drop_oldest_video, update_active_video_list, sends_video_streams,
}
use symphony_media_bridge.Active.Process.{Ranked, update_speakers}

abbrev pub IsFrame : ActiveMediaList → ActiveMediaList → Type 0
IsFrame a b =
    (b.dominant_speaker ≡ a.dominant_speaker)
    × (b.domination_timestamp ≡ a.domination_timestamp)
    × (b.nominated_speaker ≡ a.nominated_speaker)
    × (b.nomination_timestamp ≡ a.nomination_timestamp)
    × (b.last_run_timestamp ≡ a.last_run_timestamp)

trans : (a b c : ActiveMediaList) → IsFrame a b → IsFrame b c → IsFrame a c
trans a b c (d, t, n, m, l) (d', t', n', m', l') = (d' ∙ d, t' ∙ t, n' ∙ n, m' ∙ m, l' ∙ l)

module _ (a : ActiveMediaList) (endpoint : ℕ) where
  activate_speaker-IsFrame : IsFrame a (activate_speaker a endpoint).0
  unfolding activate_speaker
  activate_speaker-IsFrame = elim (List-cases a.audio_ssrcs) [
    | inl e ↦ rw (e, activate_speaker) (refl, refl, refl, refl, refl)
    | inr (ssrc, rest, e) ↦ rw (e, activate_speaker) (refl, refl, refl, refl, refl)
  ]

  drop_oldest_speaker-IsFrame : IsFrame a (drop_oldest_speaker a).0
  unfolding drop_oldest_speaker
  drop_oldest_speaker-IsFrame = elim (Option-cases ((pop_from_head a.active_audio_list).1)) [
    | inl e ↦ rw (e, drop_oldest_speaker) (refl, refl, refl, refl, refl)
    | inr (x, e) ↦ elim (Option-cases (Maps.find a.audio_ssrc_rewrite_map x)) [
      | inl e2 ↦ rw (e, e2, drop_oldest_speaker) (refl, refl, refl, refl, refl)
      | inr (ssrc, e2) ↦ rw (e, e2, drop_oldest_speaker) (refl, refl, refl, refl, refl)
    ]
  ]

update_active_audio_list-IsFrame :
    (a : ActiveMediaList) (endpoint : ℕ) → IsFrame a (update_active_audio_list a endpoint).0
unfolding update_active_audio_list
update_active_audio_list-IsFrame a endpoint =
    elim (Bool-cases (Maps.contains a.audio_ssrc_rewrite_map endpoint)) [
      | inl known ↦ elim (Bool-cases ((remove a.active_audio_list endpoint).1)) [
        | inl e ↦ rw (known, e) (refl, refl, refl, refl, refl)
        | inr e ↦ rw (known, e) (refl, refl, refl, refl, refl)
      ]
      | inr new ↦ elim (Bool-cases (Maps.size a.audio_ssrc_rewrite_map == a.max_speakers)) [
        | inr room ↦ rw (new, room) (activate_speaker-IsFrame a endpoint)
        | inl full ↦
            let b = (drop_oldest_speaker a).0 in
            elim (Bool-cases ((drop_oldest_speaker a).1)) [
              | inr e ↦ rw (new, full, e) (drop_oldest_speaker-IsFrame a endpoint)
              | inl e ↦
                  rw (new, full, e)
                    (trans a b (activate_speaker b endpoint).0
                      (drop_oldest_speaker-IsFrame a endpoint)
                      (activate_speaker-IsFrame b endpoint))
            ]
      ]
    ]

pub update_speakers-IsFrame :
    (n : ℕ) (a : ActiveMediaList) (ranking : List Ranked) (talkers : List ℕ)
    → IsFrame a (update_speakers n a ranking talkers).0
unfolding update_speakers
update_speakers-IsFrame zero a ranking talkers = (refl, refl, refl, refl, refl)
update_speakers-IsFrame (suc n) a [] talkers = (refl, refl, refl, refl, refl)
update_speakers-IsFrame (suc n) a (r ∷ rs) talkers =
    let b = (update_active_audio_list a r.participant).0 in
    trans a b (update_speakers (suc n) a (r ∷ rs) talkers).0
      (update_active_audio_list-IsFrame a r.participant) (update_speakers-IsFrame n b rs _)

module _ (a : ActiveMediaList) (endpoint : ℕ) where
  remove_from_rewrite_map-IsFrame : IsFrame a (remove_from_rewrite_map a endpoint)
  unfolding remove_from_rewrite_map
  remove_from_rewrite_map-IsFrame =
      elim (Option-cases (Maps.find a.video_ssrc_rewrite_map endpoint)) [
        | inl e ↦ rw (e, remove_from_rewrite_map) (refl, refl, refl, refl, refl)
        | inr (group, e) ↦ rw (e, remove_from_rewrite_map) (refl, refl, refl, refl, refl)
      ]

  assign_group_if-IsFrame : (sends : Bool) → IsFrame a (assign_group_if sends a endpoint).0
  unfolding assign_group_if assign_group add_to_video_rewrite_map
  assign_group_if-IsFrame false = (refl, refl, refl, refl, refl)
  assign_group_if-IsFrame true = elim (List-cases a.video_ssrcs) [
    | inl e ↦ rw (e, assign_group) (refl, refl, refl, refl, refl)
    | inr (group, rest, e) ↦ rw (e, assign_group) (refl, refl, refl, refl, refl)
  ]

drop_oldest_video-IsFrame : (a : ActiveMediaList) → IsFrame a (drop_oldest_video a).0
unfolding drop_oldest_video
drop_oldest_video-IsFrame a =
    elim (Bool-cases (Maps.size a.active_video_list_lookup_map == a.max_active_list_size)) [
      | inr room ↦ rw room (refl, refl, refl, refl, refl)
      | inl full ↦ elim (Option-cases ((pop_from_head a.active_video_list).1)) [
        | inl e ↦ rw (full, e) (refl, refl, refl, refl, refl)
        | inr (x, e) ↦ elim (Bool-cases (x == 0)) [
          | inl z ↦ rw (full, e, z) (refl, refl, refl, refl, refl)
          | inr z ↦ rw (full, e, z) (remove_from_rewrite_map-IsFrame _ x)
        ]
      ]
    ]

module _ (a : ActiveMediaList) (endpoint : ℕ) where
  pub update_active_video_list-IsFrame : IsFrame a (update_active_video_list a endpoint).0
  unfolding update_active_video_list
  update_active_video_list-IsFrame = elim (Option-cases (Maps.find a.video_participants endpoint)) [
    | inl e ↦ rw (e, update_active_video_list) (refl, refl, refl, refl, refl)
    | inr (p, e) ↦ elim (Bool-cases (is_in endpoint a.active_video_list.items)) [
      | inl there ↦ rw (e, update_active_video_list, there) (refl, refl, refl, refl, refl)
      | inr new ↦
          let b = (drop_oldest_video a).0 in
          let sends = sends_video_streams p.simulcast_stream p.secondary_simulcast_stream in
          let dropped = drop_oldest_video-IsFrame a in
          let c = (assign_group_if sends b endpoint).0 in
          let both = trans a b c dropped (assign_group_if-IsFrame b endpoint sends) in
          elim (Bool-cases ((drop_oldest_video a).1)) [
            | inr full ↦ rw (e, update_active_video_list, new, full) dropped
            | inl room ↦ elim (Bool-cases ((assign_group_if sends b endpoint).1)) [
              | inl y ↦ rw (e, update_active_video_list, new, room, y) both
              | inr y ↦ rw (e, update_active_video_list, new, room, y) both
            ]
          ]
    ]
  ]
