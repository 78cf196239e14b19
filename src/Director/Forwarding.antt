-- ===== src/Director/Forwarding.antt =====
-- The packet filters of bridge/engine/EngineStreamDirector.h: `isSsrcUsed` for what comes in,
-- `shouldForwardSsrc` and `shouldRecordSsrc` for what goes out, and the active levels that they
-- read.
pub mod Levels
pub mod Used
use symphony_media_bridge.Common.{
  ℕ, ◌+◌, ◌-◌, Bool, true, false, ◌&&◌, ◌||◌, not, Option, none, some, List, [], ◌∷◌, if◌then◌else◌,
  ltb, leb, ◌==◌, min, max,
}
use symphony_media_bridge.Common.Maps
use symphony_media_bridge.Director.Streams.{
  SimulcastStream, SimulcastLevel, VideoContentType, get_levels, get_main_ssrc_for, is_slides,
  find_main_ssrc,
}
use symphony_media_bridge.Director.State.{
  Director, ParticipantStreams, QualityLevel, low_quality, mid_quality, high_quality, drop_quality,
  is_ssrc_from_participant, highest_active_quality,
}

unfoldable pub get_quality_level : Director → ℕ → QualityLevel
get_quality_level d x =
    if Maps.contains d.low_quality_ssrcs x
    then low_quality
    else if Maps.contains d.mid_quality_ssrcs x
    then mid_quality
    else high_quality

-- The quality of an SSRC and its sender; the sender is 0 for the high quality.
unfoldable pub get_current_quality_and_endpoint_id : Director → ℕ → QualityLevel × ℕ
get_current_quality_and_endpoint_id d x = elim (Maps.find d.low_quality_ssrcs x) [
  | some endpoint ↦ (low_quality, endpoint)
  | none ↦ elim (Maps.find d.mid_quality_ssrcs x) [
    | some endpoint ↦ (mid_quality, endpoint)
    | none ↦ (high_quality, 0)
  ]
]

-- The loop over all participants: another endpoint wants this quality unpinned.
unfoldable pub wants_unpinned :
    QualityLevel → QualityLevel → ℕ → List (ℕ × ParticipantStreams) → Bool
wants_unpinned quality highest sender [] = false
wants_unpinned quality highest sender ((j, p) ∷ ps) =
    (not (j == sender) && quality == min p.unpin_quality_level highest)
    || wants_unpinned quality highest sender ps

unfoldable pub is_used_for_unpinned_video : Director → QualityLevel → QualityLevel → ℕ → Bool → Bool
is_used_for_unpinned_video d quality highest sender in_last_n =
    if quality == high_quality
    then false
    else if not in_last_n
    then false
    else wants_unpinned quality highest sender d.participant_streams.entries

-- The loop over all pins: an endpoint that pins the sender wants this quality.
unfoldable pub wants_pinned : Director → QualityLevel → QualityLevel → ℕ → List (ℕ × ℕ) → Bool
wants_pinned d quality highest sender [] = false
wants_pinned d quality highest sender ((j, target) ∷ ps) =
    (not (j == sender || not (target == sender)) && (elim (Maps.find d.participant_streams j) [
      | none ↦ false
      | some p ↦ quality == min p.pin_quality_level highest
    ]))
    || wants_pinned d quality highest sender ps

-- A stored count of 0 says that nobody pins the sender.
abbrev pub is_zero_count : Option ℕ → Bool
is_zero_count none = false
is_zero_count (some n) = n == 0

unfoldable pub is_used_for_pinned_video : Director → QualityLevel → QualityLevel → ℕ → Bool
is_used_for_pinned_video d quality highest sender =
    if is_zero_count (Maps.find d.reverse_pin_map sender)
    then false
    else wants_pinned d quality highest sender d.pin_map.entries

unfoldable pub is_slides_stream : SimulcastStream → ℕ → Bool
is_slides_stream s x = is_slides s.content_type && s.num_levels == 1 && s.level0.ssrc == x

unfoldable pub is_content_slides : Director → ℕ → ℕ → Bool
is_content_slides d x sender = elim (Maps.find d.participant_streams sender) [
  | none ↦ false
  | some p ↦
      if is_slides_stream p.primary x
      then true
      else elim p.secondary [ none ↦ false | some s ↦ is_slides_stream s x ]
]

unfoldable pub is_used_for_recording_slides : Director → ℕ → ℕ → ℕ → Bool
is_used_for_recording_slides d x sender num_recording_streams =
    not (num_recording_streams == 0) && is_content_slides d x sender

-- The main SSRC of a feedback SSRC of the participant, and any other SSRC itself.
unfoldable pub main_ssrc_of : ParticipantStreams → ℕ → ℕ
main_ssrc_of p x = elim (get_main_ssrc_for p.primary x) [
  | some y ↦ y
  | none ↦ elim p.secondary [
    | none ↦ x
    | some s ↦ elim (get_main_ssrc_for s x) [ some y ↦ y | none ↦ x ]
  ]
]

unfoldable pub highest_available : Director → ℕ → ℕ → Bool → QualityLevel
highest_available d sender x recent =
    if recent
    then max (highest_active_quality d sender x) (get_quality_level d x)
    else highest_active_quality d sender x

unfoldable pub is_main_ssrc_used : Director → ℕ → ℕ → Bool → Bool → ℕ → Bool
is_main_ssrc_used d x sender recent in_last_n num_recording_streams =
    let quality = get_quality_level d x in
    let highest = highest_available d sender x recent in
    if highest == drop_quality
    then false
    else if is_used_for_unpinned_video d quality highest sender in_last_n
    then true
    else if is_used_for_pinned_video d quality highest sender
    then true
    else is_used_for_recording_slides d x sender num_recording_streams

unfoldable pub is_ssrc_used : Director → ℕ → ℕ → Bool → Bool → ℕ → Bool
is_ssrc_used d x sender recent in_last_n num_recording_streams =
    elim (Maps.find d.participant_streams sender) [
      | none ↦ false
      | some p ↦
          is_main_ssrc_used d (main_ssrc_of p x) sender recent in_last_n num_recording_streams
    ]

unfoldable pub should_record_ssrc : Director → ℕ → ℕ → Bool
should_record_ssrc d to x =
    let (quality, sender) = get_current_quality_and_endpoint_id d x in
    (if Maps.contains d.pin_map to then highest_active_quality d sender x else low_quality)
    == quality

unfoldable pub from_pinned_endpoint : Director → ℕ → ℕ → Bool
from_pinned_endpoint d to x = elim (Maps.find d.pin_map to) [
  | none ↦ false
  | some target ↦ is_ssrc_from_participant d target x
]

unfoldable pub assigned_quality : Director → ParticipantStreams → ℕ → ℕ → QualityLevel
assigned_quality d viewer to x =
    if from_pinned_endpoint d to x && d.slides_bitrate_kbps == 0
    then viewer.pin_quality_level
    else viewer.unpin_quality_level

unfoldable pub should_forward_ssrc : Director → ℕ → ℕ → Bool
should_forward_ssrc d to x = elim (Maps.find d.participant_streams to) [
  | none ↦ false
  | some viewer ↦
      if is_ssrc_from_participant d to x
      then false
      else if x == d.slides_ssrc
      then true
      else let assigned = assigned_quality d viewer to x in
        let (quality, sender) = get_current_quality_and_endpoint_id d x in
        if assigned == drop_quality
        then false
        else if quality == assigned
        then true
        else if ltb assigned quality
        then false
        else quality == highest_active_quality d sender x
]

-- The new highest active level, and whether the function reports a change.
unfoldable pub set_highest_active_index : Director → ℕ → SimulcastStream → SimulcastStream × Bool
set_highest_active_index d endpoint s =
    let highest : ℕ = if s.level2.media_active then 2 else if s.level1.media_active then 1 else 0 in
    (
      record s { highest_active_level = highest },
      (ltb s.highest_active_level highest && Maps.contains d.reverse_pin_map endpoint)
          || not (s.highest_active_level == highest),
    )

-- The loop over the levels of one stream, up to the first level with the SSRC.
unfoldable pub set_media_active : SimulcastStream → ℕ → Bool → Option SimulcastStream
set_media_active s x active =
    if ltb 0 s.num_levels && x == s.level0.ssrc
    then some (record s { level0 = record (s.level0) { media_active = active } })
    else if ltb 1 s.num_levels && x == s.level1.ssrc
    then some (record s { level1 = record (s.level1) { media_active = active } })
    else if ltb 2 s.num_levels && x == s.level2.ssrc
    then some (record s { level2 = record (s.level2) { media_active = active } })
    else none

unfoldable pub set_stream_active :
    Director → ℕ → SimulcastStream → ℕ → Bool → Option SimulcastStream
unfolding set_media_active
set_stream_active d endpoint s x active = elim (set_media_active s x active) [
  | none ↦ none
  | some s' ↦ some (set_highest_active_index d endpoint s').0
]

unfoldable pub stream_active_state_changed : Director → ℕ → ℕ → Bool → Director
stream_active_state_changed d endpoint x active = elim (Maps.find d.participant_streams endpoint) [
  | none ↦ d
  | some p ↦ elim (set_stream_active d endpoint p.primary x active) [
    | some s ↦ record d {
      participant_streams = Maps.update d.participant_streams endpoint (record p { primary = s });
    }
    | none ↦ elim p.secondary [
      | none ↦ d
      | some t ↦ elim (set_stream_active d endpoint t x active) [
        | none ↦ d
        | some s ↦ record d {
          participant_streams =
              Maps.update d.participant_streams endpoint (record p { secondary = some s });
        }
      ]
    ]
  ]
]

unfoldable pub get_participant_for_default_level_ssrc : Director → ℕ → ℕ
get_participant_for_default_level_ssrc d x = elim (Maps.find d.low_quality_ssrcs x) [
  | none ↦ 0
  | some endpoint ↦ endpoint
]

-- `none` where the function returns false.
unfoldable pub get_feedback_ssrc : Director → ℕ → Option ℕ
get_feedback_ssrc d x = elim (Maps.find d.low_quality_ssrcs x) [
  | none ↦ none
  | some sender ↦ elim (Maps.find d.participant_streams sender) [
    | none ↦ none
    | some p ↦
        if x == p.primary.level0.ssrc
        then some p.primary.level0.feedback_ssrc
        else elim p.secondary [
          | none ↦ none
          | some s ↦ if x == s.level0.ssrc then some s.level0.feedback_ssrc else none
        ]
  ]
]

unfoldable pub get_ssrc : Director → ℕ → ℕ → Option ℕ
get_ssrc d sender feedback = elim (Maps.find d.participant_streams sender) [
  | none ↦ none
  | some p ↦ elim (get_main_ssrc_for p.primary feedback) [
    | some x ↦ some x
    | none ↦ elim p.secondary [ none ↦ none | some s ↦ get_main_ssrc_for s feedback ]
  ]
]
