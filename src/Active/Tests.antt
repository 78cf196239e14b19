-- ===== src/Active/Tests.antt =====
-- Lists of active speakers, and the theorems on bridge/engine/ActiveMediaList.cpp applied to them.
use symphony_media_bridge.Common.{
  ℕ, ◌+◌, ◌*◌, ◌≤◌, ◌≡◌, ◌≢◌, refl, true, false, not, none, List, [], ◌∷◌, if◌then◌else◌, arith,
}
use symphony_media_bridge.Common.Maps
use symphony_media_bridge.Common.Maps.{Map, find_entry}
use symphony_media_bridge.Common.Values.{is_in}
use symphony_media_bridge.Director.Streams.{SimulcastLevel, SimulcastStream, video}
use symphony_media_bridge.Active.Entries.{pop_from_head, push_to_head}
use symphony_media_bridge.Active.State.{
  ActiveMediaList, SsrcPair, SimulcastGroup, AudioParticipant, VideoParticipant,
  new_active_media_list, take_groups,
}
use symphony_media_bridge.Active.Audio.{
  activate_speaker, drop_oldest_speaker, on_audio_participant_added, add_audio_participant,
  update_active_audio_list,
}
use symphony_media_bridge.Active.Audio.Ssrcs.{IsConsistent}
use symphony_media_bridge.Active.Audio.Speakers.{makes_room, update_active_audio_list_lem}
use symphony_media_bridge.Active.Audio.Reach as Speech
use symphony_media_bridge.Active.Video.{add_video_participant, update_active_video_list}
use symphony_media_bridge.Active.Video.Seen.{IsSeen}
use symphony_media_bridge.Active.Video.Leave.{IsVideoFrame}
use symphony_media_bridge.Active.Video.Update.{update_active_video_list_lem}
use symphony_media_bridge.Active.Video.Reach as View
use symphony_media_bridge.Active.Process.{Scores, min_spotlight_duration, process}
use symphony_media_bridge.Active.Process.Runs.{
  Call, run, IsBest, switches_take_time, persistent_speaker_dominates,
}

abbrev configured : List ℕ
configured = 11 ∷ 12 ∷ []

abbrev pair : ℕ → SsrcPair
pair x = record { main = x; feedback = x + 100 }

abbrev groups : List SimulcastGroup
groups = (pair 21 ∷ pair 22 ∷ []) ∷ (pair 31 ∷ pair 32 ∷ []) ∷ []

-- Two SSRCs for audio and two groups for video; two endpoints are seen.
abbrev new_list : ActiveMediaList
new_list = new_active_media_list configured groups 1 3 16

-- Both SSRCs are taken.
abbrev two_speakers : ActiveMediaList
two_speakers = record new_list {
  audio_ssrcs = [];
  audio_ssrc_rewrite_map = record { capacity = 64; entries = (2, 12) ∷ (1, 11) ∷ [] };
  active_audio_list = record { capacity = 16; items = 1 ∷ 2 ∷ [] };
}

two_speakers-IsConsistent : IsConsistent configured two_speakers
unfolding new_active_media_list take_groups find_entry
two_speakers-IsConsistent = record {
  listed = record {
    distinct = refl;
    unique = (refl, (refl, tt));
    mapped = λ k. ground arith;
    size = refl;
  };
  total = refl;
  conserved = λ x. ground arith;
  map_room = omega arith;
  list_room = omega arith;
}

update_active_audio_list_lem_example :
    let (b, changed) = update_active_audio_list two_speakers 3 in
    IsConsistent configured b
    × (Maps.contains b.audio_ssrc_rewrite_map 3 ≡ true)
    × (changed ≡ not (Maps.contains two_speakers.audio_ssrc_rewrite_map 3))
    × ((k : ℕ)
        → k ≢ 3
        → Maps.find b.audio_ssrc_rewrite_map k ≡ (
            if makes_room configured two_speakers 3 k
            then none
            else Maps.find two_speakers.audio_ssrc_rewrite_map k))
unfolding new_active_media_list take_groups
update_active_audio_list_lem_example =
    update_active_audio_list_lem configured two_speakers 3 two_speakers-IsConsistent (omega arith)

abbrev speaker : ℕ → AudioParticipant
speaker id = record { endpoint_id = id; is_local = true }

abbrev joined : ℕ → ActiveMediaList → ActiveMediaList
joined id a = (add_audio_participant a id (speaker id)).0

abbrev spoken : ActiveMediaList
spoken = (update_active_audio_list (joined 3 (joined 2 (joined 1 new_list))) 3).0

spoken-Reach : Speech.Reach new_list spoken
unfolding new_active_media_list take_groups add_audio_participant on_audio_participant_added
    find_entry push_to_head
spoken-Reach =
    Speech.next
      (Speech.next
        (Speech.next (Speech.next Speech.here (Speech.join 1 (speaker 1) (omega arith) refl))
          (Speech.join 2 (speaker 2) (omega arith) refl))
        (Speech.join 3 (speaker 3) (omega arith) refl))
      (Speech.speak 3 refl refl)

speakers_share_no_ssrc_example :
    (◌≡◌ {A = ℕ} 3 3)
    × (is_in 12 configured ≡ true)
    × (Maps.contains spoken.audio_participants 3 ≡ true)
    × (Maps.size spoken.audio_ssrc_rewrite_map ≤ 2)
unfolding new_active_media_list take_groups add_audio_participant on_audio_participant_added
    find_entry push_to_head update_active_audio_list drop_oldest_speaker pop_from_head
    activate_speaker Maps.erase_entry
speakers_share_no_ssrc_example =
    Speech.speakers_share_no_ssrc configured (omega arith) groups 1 3 16 (omega arith) (omega arith)
      refl spoken-Reach 3 3 12 refl refl

abbrev level : ℕ → SimulcastLevel
level x = record { ssrc = x; feedback_ssrc = x + 100; media_active = true }

abbrev stream : ℕ → SimulcastStream
stream x = record {
  num_levels = 2;
  highest_active_level = 1;
  level0 = level x;
  level1 = level (x + 1);
  level2 = level (x + 2);
  content_type = video;
}

abbrev viewed : ℕ → VideoParticipant
viewed id = record {
  endpoint_id = id;
  simulcast_stream = stream (1000 * id);
  secondary_simulcast_stream = none;
  is_local = true;
}

-- Two are seen and hold both groups; the third one is a participant.
abbrev two_seen : ActiveMediaList
two_seen = record new_list {
  video_participants = record {
    capacity = 2048;
    entries = (3, viewed 3) ∷ (2, viewed 2) ∷ (1, viewed 1) ∷ [];
  };
  video_ssrcs = [];
  video_ssrc_rewrite_map = record {
    capacity = 64;
    entries = (2, pair 31 ∷ pair 32 ∷ []) ∷ (1, pair 21 ∷ pair 22 ∷ []) ∷ [];
  };
  active_video_list = record { capacity = 16; items = 1 ∷ 2 ∷ [] };
  active_video_list_lookup_map = record { capacity = 32; entries = (2, 2) ∷ (1, 1) ∷ [] };
}

two_seen-IsSeen : IsSeen 2 two_seen
unfolding new_active_media_list take_groups find_entry
two_seen-IsSeen = record {
  listed = record {
    distinct = refl;
    unique = (refl, (refl, tt));
    mapped = λ k. ground arith;
    size = refl;
  };
  groups = record {
    unique = (refl, (refl, tt));
    held = λ k h. ground arith;
    conserved = refl;
    room = omega arith;
  };
  few = omega arith;
  enough = omega arith;
  map_room = omega arith;
  list_room = omega arith;
  somebody = refl;
}

update_active_video_list_lem_example :
    let (b, done) = update_active_video_list two_seen 3 in
    (done ≡ true)
    × IsSeen 2 b
    × (b.active_video_list.items ≡ 2 ∷ 3 ∷ [])
    × (is_in 3 two_seen.active_video_list.items ≡ false
        → Maps.contains b.video_ssrc_rewrite_map 3 ≡ true)
    × IsVideoFrame two_seen b
unfolding new_active_media_list take_groups find_entry
update_active_video_list_lem_example =
    update_active_video_list_lem 2 two_seen 3 two_seen-IsSeen (λ e. omega (arith, e)) (omega arith)
      refl

-- A participant who is the dominant speaker when its video joins.
abbrev one_heard : ActiveMediaList
one_heard = (add_audio_participant new_list 1 (record { endpoint_id = 1; is_local = true })).0

abbrev one_joins : ActiveMediaList
one_joins = (add_video_participant one_heard 1 (viewed 1)).0

abbrev heard : ℕ → Scores
heard id = record {
  ranking = record { participant = id; is_talking = true } ∷ [];
  top_is_zero = false;
  dominant_is_quiet = false;
}

heard-IsBest : IsBest 1 (heard 1)
heard-IsBest = (refl, record { participant = 1; is_talking = true }, [], refl, refl)

-- A call every second; speaker 1 is nominated from the start.
abbrev seconds : ℕ → ℕ
seconds n = n * 1000000000

abbrev nominated : ActiveMediaList
nominated = record two_speakers {
  nominated_speaker = 1;
  nomination_timestamp = seconds 1;
  domination_timestamp = seconds 1;
}

abbrev calls : List Call
calls = (seconds 2, heard 1) ∷ (seconds 3, heard 1) ∷ []

switches_take_time_example :
    nominated.domination_timestamp + min_spotlight_duration * (run nominated calls).1 ≤ seconds 3
switches_take_time_example =
    switches_take_time nominated (seconds 1) calls (omega arith) refl (omega arith)

persistent_speaker_dominates_example :
    (process (run nominated calls).0 (seconds 4) (heard 1)).0.dominant_speaker ≡ 1
unfolding new_active_media_list take_groups
persistent_speaker_dominates_example =
    persistent_speaker_dominates 1 (seconds 1) nominated calls (seconds 4) (heard 1) refl
      (omega arith) (omega arith) (omega arith) refl (heard-IsBest, (heard-IsBest, tt)) heard-IsBest
      (omega arith) (omega arith) (omega arith)
