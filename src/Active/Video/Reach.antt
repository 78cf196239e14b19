-- ===== src/Active/Video/Reach.antt =====
-- Every sequence of calls on the video and the audio part of bridge/engine/ActiveMediaList.cpp, with
-- those of `process`.
use symphony_media_bridge.Common.{
  ℕ, ◌<◌, ◌≡◌, ◌≢◌, ◌&&◌, none, some, [], arith, Bool-cases, Option-cases, inl, inr,
}
use symphony_media_bridge.Common.Maps
use symphony_media_bridge.Common.Maps.{Map, erase_entry, find-erase, erase_absent}
use symphony_media_bridge.Common.Values.{length-erase_le}
use symphony_media_bridge.Active.Entries.{no_entries}
use symphony_media_bridge.Active.Listed.{emplace_new}
use symphony_media_bridge.Active.State.{ActiveMediaList, AudioParticipant, VideoParticipant}
use symphony_media_bridge.Active.Audio.{add_audio_participant, remove_audio_participant}
use symphony_media_bridge.Active.Process.{Scores, process}
use symphony_media_bridge.Active.Video.{
  on_video_participant_added, add_video_participant, remove_video_participant,
  add_barbell_video_participant, update_active_video_list, same_stream, same_secondary,
}
use symphony_media_bridge.Active.Video.Ranked.{IsLed}
use symphony_media_bridge.Active.Video.Valid.{IsValid, remove_video_participant-IsValid}
use symphony_media_bridge.Active.Video.Participants.{added-IsValid}

module _ (total : ℕ) (a : ActiveMediaList) (endpoint : ℕ) (p : VideoParticipant)
    (v : IsValid total a) (somebody : endpoint ≢ 0)
    (room : Maps.size a.video_participants < a.video_participants.capacity) where
  replaced-IsValid :
      {q : VideoParticipant}
      → Maps.find a.video_participants endpoint ≡ some q
      → let b = (remove_video_participant a endpoint).0 in
        IsValid total
          (on_video_participant_added
            (record b { video_participants = Maps.emplace b.video_participants endpoint p })
            endpoint
            p.simulcast_stream
            p.secondary_simulcast_stream).0
  replaced-IsValid there =
      let b = (remove_video_participant a endpoint).0 in
      let (w, erased) = remove_video_participant-IsValid total a endpoint v in
      let people = erased (ground (arith, there)) in
      let absent : Maps.find b.video_participants endpoint ≡ none =
        rw people (ground (arith, find-erase endpoint endpoint a.video_participants.entries)) in
      let fits : Maps.size b.video_participants < b.video_participants.capacity =
        rw people (omega (arith, room, length-erase_le endpoint a.video_participants.entries)) in
      rw (emplace_new b.video_participants endpoint p absent fits)
        (added-IsValid total b endpoint p w somebody fits absent)

  pub add_barbell_video_participant-IsValid :
      IsValid total (add_barbell_video_participant a endpoint p).0
  unfolding add_barbell_video_participant
  add_barbell_video_participant-IsValid =
      elim (Option-cases (Maps.find a.video_participants endpoint)) [
        | inl absent ↦
            rw
              (
                absent,
                add_barbell_video_participant,
                emplace_new a.video_participants endpoint p absent room,
              )
              (added-IsValid total a endpoint p v somebody room absent)
        | inr (q, there) ↦
            elim (Bool-cases (
              same_stream q.simulcast_stream p.simulcast_stream
              && same_secondary q.secondary_simulcast_stream p.secondary_simulcast_stream)) [
                | inl same ↦ rw (there, add_barbell_video_participant, same) v
                | inr other ↦
                    rw (there, add_barbell_video_participant, other) (replaced-IsValid there)
              ]
      ]

-- The calls, those on the audio part included. There are at most 2048 participants, and no endpoint
-- has the hash 0.
pub data Step (a b : ActiveMediaList) : Type 0 where
  join :
      (endpoint : ℕ) (p : VideoParticipant)
      → endpoint ≢ 0
      → Maps.size a.video_participants < a.video_participants.capacity
      → b ≡ (add_video_participant a endpoint p).0
      → Step a b
  replace :
      (endpoint : ℕ) (p : VideoParticipant)
      → endpoint ≢ 0
      → Maps.size a.video_participants < a.video_participants.capacity
      → b ≡ (add_barbell_video_participant a endpoint p).0
      → Step a b
  leave : (endpoint : ℕ) → b ≡ (remove_video_participant a endpoint).0 → Step a b
  join_audio :
      (endpoint : ℕ) (p : AudioParticipant) → b ≡ (add_audio_participant a endpoint p).0 → Step a b
  leave_audio : (endpoint : ℕ) → b ≡ (remove_audio_participant a endpoint).0 → Step a b
  rank :
      (timestamp : ℕ) (scores : Scores)
      → IsLed scores.ranking
      → b ≡ (process a timestamp scores).0
      → Step a b
  dominate : (endpoint : ℕ) → endpoint ≢ 0 → b ≡ (update_active_video_list a endpoint).0 → Step a b

pub data Reach (a : ActiveMediaList) : ActiveMediaList → Type 0 where
  here : Reach a a
  next : {b c : ActiveMediaList} → Reach a b → Step b c → Reach a c

-- The configuration puts nobody on the list.
module _ (room : ℕ) where
  abbrev IsEmpty : ActiveMediaList → Type 0
  IsEmpty a =
      (a.active_video_list ≡ no_entries room)
      × (a.active_video_list_lookup_map.entries ≡ [])
      × (a.video_ssrc_rewrite_map.entries ≡ [])
