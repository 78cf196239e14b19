-- ===== src/Active/Video/Same.antt =====
-- What the calls on the audio part of bridge/engine/ActiveMediaList.cpp, and `process` until it
-- changes the dominant speaker, leave of the video part: all of it.
use symphony_media_bridge.Common.{
  ℕ, zero, suc, ◌≡◌, refl, ◌∙◌, List, [], ◌∷◌, ◌==◌, Bool-cases, Option-cases, List-cases, inl, inr,
}
use symphony_media_bridge.Common.Maps
use symphony_media_bridge.Active.Entries.{remove, pop_from_head}
use symphony_media_bridge.Active.State.{ActiveMediaList, AudioParticipant}
use symphony_media_bridge.Active.Audio.{
  on_audio_participant_added, add_audio_participant, remove_audio_participant, drop_oldest_speaker,
  activate_speaker, update_active_audio_list,
}
use symphony_media_bridge.Active.Process.{Ranked, update_speakers, nominate}
use symphony_media_bridge.Active.Video.Valid.{IsValid}

abbrev pub IsSame : ActiveMediaList → ActiveMediaList → Type 0
IsSame a b =
    (b.video_participants ≡ a.video_participants)
    × (b.video_ssrcs ≡ a.video_ssrcs)
    × (b.video_ssrc_rewrite_map ≡ a.video_ssrc_rewrite_map)
    × (b.active_video_list ≡ a.active_video_list)
    × (b.active_video_list_lookup_map ≡ a.active_video_list_lookup_map)
    × (b.max_active_list_size ≡ a.max_active_list_size)

unchanged : (a : ActiveMediaList) → IsSame a a
unchanged a = (refl, refl, refl, refl, refl, refl)

trans : (a b c : ActiveMediaList) → IsSame a b → IsSame b c → IsSame a c
trans a b c (p, s, r, l, m, n) (p', s', r', l', m', n') =
    (p' ∙ p, s' ∙ s, r' ∙ r, l' ∙ l, m' ∙ m, n' ∙ n)

pub same-IsValid :
    (total : ℕ) (a b : ActiveMediaList) → IsSame a b → IsValid total a → IsValid total b
same-IsValid total a b (people, free, held, list, lookup, size) v = record {
  seen = record {
    listed = rw (list, lookup) v.seen.listed;
    groups = rw (free, held, list) v.seen.groups;
    few = rw (list, size) v.seen.few;
    enough = rw size v.seen.enough;
    map_room = rw (size, lookup) v.seen.map_room;
    list_room = rw (size, list) v.seen.list_room;
    somebody = rw list v.seen.somebody;
  };
  known = rw (people, list) v.known;
  some_room = rw size v.some_room;
}

module _ (a : ActiveMediaList) (endpoint : ℕ) where
  on_audio_participant_added-IsSame : IsSame a (on_audio_participant_added a endpoint).0
  unfolding on_audio_participant_added
  on_audio_participant_added-IsSame = elim (List-cases a.audio_ssrcs) [
    | inl e ↦ rw (e, on_audio_participant_added) (unchanged a)
    | inr (ssrc, rest, e) ↦ rw (e, on_audio_participant_added) (unchanged a)
  ]

  pub remove_audio_participant-IsSame : IsSame a (remove_audio_participant a endpoint).0
  unfolding remove_audio_participant
  remove_audio_participant-IsSame =
      elim (Option-cases (Maps.find a.audio_ssrc_rewrite_map endpoint)) [
        | inl e ↦ rw (e, remove_audio_participant) (unchanged a)
        | inr (ssrc, e) ↦ rw (e, remove_audio_participant) (unchanged a)
      ]

  activate_speaker-IsSame : IsSame a (activate_speaker a endpoint).0
  unfolding activate_speaker
  activate_speaker-IsSame = elim (List-cases a.audio_ssrcs) [
    | inl e ↦ rw (e, activate_speaker) (unchanged a)
    | inr (ssrc, rest, e) ↦ rw (e, activate_speaker) (unchanged a)
  ]

  drop_oldest_speaker-IsSame : IsSame a (drop_oldest_speaker a).0
  unfolding drop_oldest_speaker
  drop_oldest_speaker-IsSame = elim (Option-cases ((pop_from_head a.active_audio_list).1)) [
    | inl e ↦ rw (e, drop_oldest_speaker) (unchanged a)
    | inr (x, e) ↦ elim (Option-cases (Maps.find a.audio_ssrc_rewrite_map x)) [
      | inl e2 ↦ rw (e, e2, drop_oldest_speaker) (unchanged a)
      | inr (ssrc, e2) ↦ rw (e, e2, drop_oldest_speaker) (unchanged a)
    ]
  ]

pub add_audio_participant-IsSame :
    (a : ActiveMediaList) (endpoint : ℕ) (p : AudioParticipant)
    → IsSame a (add_audio_participant a endpoint p).0
unfolding add_audio_participant
add_audio_participant-IsSame a endpoint p =
    elim (Bool-cases (Maps.contains a.audio_participants endpoint)) [
      | inl there ↦ rw there (unchanged a)
      | inr new ↦ rw new (on_audio_participant_added-IsSame _ endpoint)
    ]

update_active_audio_list-IsSame :
    (a : ActiveMediaList) (endpoint : ℕ) → IsSame a (update_active_audio_list a endpoint).0
unfolding update_active_audio_list
update_active_audio_list-IsSame a endpoint =
    elim (Bool-cases (Maps.contains a.audio_ssrc_rewrite_map endpoint)) [
      | inl known ↦ elim (Bool-cases ((remove a.active_audio_list endpoint).1)) [
        | inl e ↦ rw (known, e) (unchanged a)
        | inr e ↦ rw (known, e) (unchanged a)
      ]
      | inr new ↦ elim (Bool-cases (Maps.size a.audio_ssrc_rewrite_map == a.max_speakers)) [
        | inr room ↦ rw (new, room) (activate_speaker-IsSame a endpoint)
        | inl full ↦ elim (Bool-cases ((drop_oldest_speaker a).1)) [
          | inr e ↦ rw (new, full, e) (drop_oldest_speaker-IsSame a endpoint)
          | inl e ↦
              let b = (drop_oldest_speaker a).0 in
              rw (new, full, e)
                (trans a b (activate_speaker b endpoint).0 (drop_oldest_speaker-IsSame a endpoint)
                  (activate_speaker-IsSame b endpoint))
        ]
      ]
    ]

pub update_speakers-IsSame :
    (n : ℕ) (a : ActiveMediaList) (ranking : List Ranked) (talkers : List ℕ)
    → IsSame a (update_speakers n a ranking talkers).0
unfolding update_speakers
update_speakers-IsSame zero a ranking talkers = (unchanged a)
update_speakers-IsSame (suc n) a [] talkers = (unchanged a)
update_speakers-IsSame (suc n) a (r ∷ rs) talkers =
    let b = (update_active_audio_list a r.participant).0 in
    trans a b (update_speakers (suc n) a (r ∷ rs) talkers).0
      (update_active_audio_list-IsSame a r.participant) (update_speakers-IsSame n b rs _)

pub nominate-IsSame :
    (a : ActiveMediaList) (participant timestamp : ℕ) → IsSame a (nominate a participant timestamp)
unfolding nominate
nominate-IsSame a participant timestamp = elim (Bool-cases (participant == a.nominated_speaker)) [
  | inl same ↦ rw same (unchanged a)
  | inr other ↦ rw other (unchanged a)
]
