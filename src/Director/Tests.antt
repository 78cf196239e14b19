-- ===== src/Director/Tests.antt =====
-- A conference of two endpoints, and the theorems on bridge/engine/EngineStreamDirector.h applied
-- to it.
use symphony_media_bridge.Common.{
  ℕ, ◌+◌, ◌≤◌, ◌≡◌, ◌≢◌, refl, inr, true, false, none, some, [], ◌∷◌, if◌then◌else◌, ltb, ◌==◌, min,
  sub64, sle64, arith,
}
use symphony_media_bridge.Common.Maps
use symphony_media_bridge.Common.Maps.{Map, find_entry, erase_entry}
use symphony_media_bridge.Director.Streams.{
  SimulcastLevel, SimulcastStream, video, has_ssrc, find_main_ssrc,
}
use symphony_media_bridge.Director.State.{
  Director, ParticipantStreams, ssrc_of_streams, is_ssrc_from_participant, highest_active_of,
  drop_quality,
}
use symphony_media_bridge.Director.Pins.{pin}
use symphony_media_bridge.Director.Pins.Counts.{IsConsistent}
use symphony_media_bridge.Director.Pins.Targets.{pin-IsConsistent}
use symphony_media_bridge.Director.Quality.{
  config_cost, top_row, max_receiving_video_streams, get_video_quality_limits, with_estimate,
  set_uplink_estimate_kbps, time_before_scale_up,
}
use symphony_media_bridge.Director.Quality.Ladder.{get_video_quality_limits_best}
use symphony_media_bridge.Director.Quality.Uplink.{set_uplink_estimate_kbps_lem}
use symphony_media_bridge.Director.Forwarding.{
  get_current_quality_and_endpoint_id, main_ssrc_of, from_pinned_endpoint, assigned_quality,
  should_forward_ssrc, is_ssrc_used,
}
use symphony_media_bridge.Director.Forwarding.Levels.{
  IsLevel, ssrc_of_level, active_ssrcs, forwarded, quality_for, should_forward_ssrc_level,
}
use symphony_media_bridge.Director.Forwarding.Used.{is_ssrc_used_of_forwarded}

abbrev level : ℕ → SimulcastLevel
level x = record { ssrc = x; feedback_ssrc = 100 + x; media_active = true }

abbrev stream : ℕ → SimulcastStream
stream x = record {
  num_levels = 3;
  highest_active_level = 2;
  level0 = level x;
  level1 = level (x + 1);
  level2 = level (x + 2);
  content_type = video;
}

abbrev participant : ℕ → ParticipantStreams
participant x = record {
  primary = stream x;
  secondary = none;
  pin_quality_level = 1;
  unpin_quality_level = 0;
  low_estimate_timestamp = 0;
  default_level_bandwidth_limit = 3000;
  estimated_uplink_bandwidth = 3000;
}

-- Endpoint 2 has pinned endpoint 1.
abbrev conference : Director
conference = record {
  participant_streams = record {
    capacity = 2048;
    entries = (2, participant 20) ∷ (1, participant 10) ∷ [];
  };
  pin_map = record { capacity = 2048; entries = (2, 1) ∷ [] };
  reverse_pin_map = record { capacity = 2048; entries = (1, 1) ∷ [] };
  low_quality_ssrcs = record { capacity = 2048; entries = (20, 2) ∷ (10, 1) ∷ [] };
  mid_quality_ssrcs = record { capacity = 2048; entries = (21, 2) ∷ (11, 1) ∷ [] };
  bandwidth_floor = 0;
  required_mid_level_bandwidth = 1000;
  max_default_level_bandwidth_kbps = 3000;
  last_n = 5;
  slides_bitrate_kbps = 0;
  slides_ssrc = 0;
}

conference-IsConsistent : IsConsistent conference
unfolding find_entry
conference-IsConsistent = record {
  unique = (refl, tt);
  room = omega arith;
  counted = λ t nz. ground arith;
}

conference-IsLevel : IsLevel conference 1 (participant 10) 1 11
unfolding get_current_quality_and_endpoint_id find_entry
conference-IsLevel = record { known = refl; registered = refl }

only_sender : (t : ℕ) → is_ssrc_from_participant conference t 11 ≡ true → t ≡ 1
unfolding is_ssrc_from_participant ssrc_of_streams has_ssrc find_entry
only_sender t h = ground arith

is_forwarded : should_forward_ssrc conference 2 11 ≡ true
unfolding should_forward_ssrc is_ssrc_from_participant ssrc_of_streams has_ssrc find_entry
    assigned_quality from_pinned_endpoint get_current_quality_and_endpoint_id
is_forwarded = refl

-- The sender is not in the last-N list and not recently active, but pinned.
is_ssrc_used_of_forwarded_example : is_ssrc_used conference 11 1 false false 0 ≡ true
unfolding find_entry main_ssrc_of find_main_ssrc highest_active_of from_pinned_endpoint
    is_ssrc_from_participant ssrc_of_streams has_ssrc
is_ssrc_used_of_forwarded_example =
    is_ssrc_used_of_forwarded conference 2 1 1 11 0 false false conference-IsConsistent refl
      (omega arith) (omega arith) (inr refl) (inr (omega arith)) conference-IsLevel refl
      (omega arith) only_sender (omega arith) (omega arith) (omega arith) is_forwarded

conference-IsLevels :
    (i : ℕ) → i ≤ 2 → IsLevel conference 1 (participant 10) i (ssrc_of_level (stream 10) i)
unfolding get_current_quality_and_endpoint_id find_entry ssrc_of_level
conference-IsLevels i le = record { known = refl; registered = ground arith }

only_sender_of_levels :
    (i t : ℕ)
    → i ≤ 2
    → is_ssrc_from_participant conference t (ssrc_of_level (stream 10) i) ≡ true
    → t ≡ 1
unfolding is_ssrc_from_participant ssrc_of_streams has_ssrc find_entry ssrc_of_level
only_sender_of_levels i t le h = ground arith

levels_not_slides : (i : ℕ) → i ≤ 2 → ssrc_of_level (stream 10) i ≢ 0
unfolding ssrc_of_level
levels_not_slides i le e = ground arith

should_forward_ssrc_level_example : forwarded conference 2 (active_ssrcs (stream 10)) ≡ (
    if quality_for conference 2 (participant 20) 1 == drop_quality
    then []
    else ssrc_of_level (stream 10) (min (quality_for conference 2 (participant 20) 1) 2) ∷ [])
unfolding find_entry
should_forward_ssrc_level_example =
    should_forward_ssrc_level conference 2 1 refl conference-IsLevels only_sender_of_levels
      levels_not_slides (omega arith) (omega arith) (omega arith) (omega arith) (omega arith)
      (omega arith)

pin-IsConsistent_example : IsConsistent (pin conference 2 3).0
pin-IsConsistent_example =
    pin-IsConsistent conference 2 3 conference-IsConsistent (omega arith) (omega arith)

get_video_quality_limits_best_example :
    (config_cost
        (max_receiving_video_streams conference (participant 20))
        0
        (get_video_quality_limits conference (participant 20))
      ≤ 3000)
    × (config_cost (max_receiving_video_streams conference (participant 20)) 0 top_row
        ≤ config_cost
            (max_receiving_video_streams conference (participant 20))
            0
            (get_video_quality_limits conference (participant 20)))
unfolding max_receiving_video_streams config_cost
get_video_quality_limits_best_example =
    get_video_quality_limits_best conference (participant 20) 0 refl (omega arith)

set_uplink_estimate_kbps_lem_example :
    let limits =
      get_video_quality_limits conference (with_estimate conference (participant 20) 800) in
    let waited = sle64 time_before_scale_up (sub64 7 0) in
    let (d', changed) = set_uplink_estimate_kbps conference 2 800 7 in
    (p' : ParticipantStreams) × (Maps.find d'.participant_streams 2 ≡ some p')
    × (p'.unpin_quality_level ≡ limits.unpinned_quality)
    × (p'.pin_quality_level ≡ (
        if ltb 1 limits.pinned_quality
        then (if waited then limits.pinned_quality else 1)
        else limits.pinned_quality))
    × (p'.low_estimate_timestamp ≡ (if p'.pin_quality_level == limits.pinned_quality then 7 else 0))
    × (changed ≡ (if p'.pin_quality_level == 1 then false else true))
unfolding find_entry
set_uplink_estimate_kbps_lem_example =
    set_uplink_estimate_kbps_lem conference 2 800 7 {p = participant 20} refl
