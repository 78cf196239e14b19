-- ===== src/Active/Audio.antt =====
-- The audio part of bridge/engine/ActiveMediaList.cpp: participants, and the list of active speakers
-- with their SSRCs.
pub mod Ssrcs
pub mod Speakers
pub mod Frame
pub mod Reach
use symphony_media_bridge.Common.{
  ℕ, ◌+◌, Bool, true, false, Option, none, some, List, [], ◌∷◌, ◌++◌, if◌then◌else◌, ◌==◌,
}
use symphony_media_bridge.Common.Maps
use symphony_media_bridge.Common.Maps.{Map}
use symphony_media_bridge.Active.Entries.{push_to_tail, push_to_head, remove, pop_from_head}
use symphony_media_bridge.Active.State.{ActiveMediaList, AudioParticipant, next_revision}

unfoldable pub on_audio_participant_added : ActiveMediaList → ℕ → ActiveMediaList × Bool
on_audio_participant_added a endpoint =
    let b : ActiveMediaList = record a {
      dominant_speaker = if a.dominant_speaker == 0 then endpoint else a.dominant_speaker;
    } in
    (elim b.audio_ssrcs [
      | [] ↦ (b, false)
      | ◌∷◌ ssrc rest ↦ (
        record b {
          audio_ssrcs = rest;
          audio_ssrc_rewrite_map = Maps.emplace b.audio_ssrc_rewrite_map endpoint ssrc;
          active_audio_list = (push_to_head b.active_audio_list endpoint).0;
          ssrc_map_revision = next_revision b;
        },
        true,
      )
    ])

-- `addAudioParticipant` for a local participant, `addBarbellAudioParticipant` for a remote one.
unfoldable pub add_audio_participant :
    ActiveMediaList → ℕ → AudioParticipant → ActiveMediaList × Bool
add_audio_participant a endpoint participant =
    if Maps.contains a.audio_participants endpoint
    then (a, false)
    else on_audio_participant_added
        (record a { audio_participants = Maps.emplace a.audio_participants endpoint participant })
        endpoint

unfoldable pub remove_audio_participant : ActiveMediaList → ℕ → ActiveMediaList × Bool
remove_audio_participant a endpoint =
    let b : ActiveMediaList = record a {
      audio_participants = Maps.erase a.audio_participants endpoint;
    } in
    (elim (Maps.find b.audio_ssrc_rewrite_map endpoint) [
      | none ↦ (b, false)
      | some ssrc ↦ (
        record b {
          audio_ssrc_rewrite_map = Maps.erase b.audio_ssrc_rewrite_map endpoint;
          audio_ssrcs = b.audio_ssrcs ++ (ssrc ∷ []);
          active_audio_list = (remove b.active_audio_list endpoint).0;
          ssrc_map_revision = next_revision b;
        },
        true,
      )
    ])

-- The speaker at the head gives up its SSRC; false where one of the two assertions fails. What the
-- call has changed until then stays.
unfoldable pub drop_oldest_speaker : ActiveMediaList → ActiveMediaList × Bool
drop_oldest_speaker a = elim ((pop_from_head a.active_audio_list).1) [
  | none ↦ (a, false)
  | some removed ↦ elim (Maps.find a.audio_ssrc_rewrite_map removed) [
    | none ↦ (record a { active_audio_list = (pop_from_head a.active_audio_list).0 }, false)
    | some ssrc ↦ (
      record a {
        active_audio_list = (pop_from_head a.active_audio_list).0;
        audio_ssrc_rewrite_map = Maps.erase a.audio_ssrc_rewrite_map removed;
        audio_ssrcs = a.audio_ssrcs ++ (ssrc ∷ []);
      },
      true,
    )
  ]
]

-- A new active speaker takes the next free SSRC.
unfoldable pub activate_speaker : ActiveMediaList → ℕ → ActiveMediaList × Bool
activate_speaker a endpoint = elim a.audio_ssrcs [
  | [] ↦ (a, false)
  | ◌∷◌ ssrc rest ↦ (
    record a {
      audio_ssrcs = rest;
      audio_ssrc_rewrite_map = Maps.emplace a.audio_ssrc_rewrite_map endpoint ssrc;
      active_audio_list = (push_to_tail a.active_audio_list endpoint).0;
      ssrc_map_revision = next_revision a;
    },
    true,
  )
]

unfoldable pub update_active_audio_list : ActiveMediaList → ℕ → ActiveMediaList × Bool
update_active_audio_list a endpoint =
    if Maps.contains a.audio_ssrc_rewrite_map endpoint
    then (let (l, removed) = remove a.active_audio_list endpoint in
        if removed
        then (record a { active_audio_list = (push_to_tail l endpoint).0 }, false)
        else (a, false))
    else if Maps.size a.audio_ssrc_rewrite_map == a.max_speakers
    then (let (b, dropped) = drop_oldest_speaker a in
        if dropped then activate_speaker b endpoint else (b, false))
    else activate_speaker a endpoint
