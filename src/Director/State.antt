-- ===== src/Director/State.antt =====
-- The state of bridge/engine/EngineStreamDirector.h and the constants of EngineStreamDirector.cpp
-- and bwe/BandwidthUtils.cpp. Words are below their modulus; sizes and hashes are 64-bit.
use symphony_media_bridge.Common.{
  ℕ, ◌+◌, ◌*◌, ◌%◌, Bool, true, false, Option, none, some, if◌then◌else◌, ltb, ◌==◌, min, u32_mod,
}
use symphony_media_bridge.Common.Maps
use symphony_media_bridge.Common.Maps.{Map}
use symphony_media_bridge.Director.Streams.{
  SimulcastStream, get_levels, has_ssrc, is_sending_video, is_sending_slides,
}

-- `enum QualityLevel : uint32_t`, compared as numbers and cast from level indices.
abbrev pub QualityLevel : Type 0
QualityLevel = ℕ

abbrev pub low_quality : QualityLevel
low_quality = 0

abbrev pub mid_quality : QualityLevel
mid_quality = 1

abbrev pub high_quality : QualityLevel
high_quality = 2

abbrev pub drop_quality : QualityLevel
drop_quality = 3

pub record ParticipantStreams : Type 0 where
  pub primary : SimulcastStream
  pub secondary : Option SimulcastStream
  pub pin_quality_level : QualityLevel
  pub unpin_quality_level : QualityLevel
  pub low_estimate_timestamp : ℕ
  pub default_level_bandwidth_limit : ℕ
  pub estimated_uplink_bandwidth : ℕ

pub record Director : Type 0 where
  pub participant_streams : Map ParticipantStreams
  pub pin_map : Map ℕ
  pub reverse_pin_map : Map ℕ
  pub low_quality_ssrcs : Map ℕ
  pub mid_quality_ssrcs : Map ℕ
  pub bandwidth_floor : ℕ
  pub required_mid_level_bandwidth : ℕ
  pub max_default_level_bandwidth_kbps : ℕ
  pub last_n : ℕ
  pub slides_bitrate_kbps : ℕ
  pub slides_ssrc : ℕ

abbrev pub max_participants : ℕ
max_participants = 2048

-- The constructor, with the configured bandwidth and `lastN`.
unfoldable pub new_director : ℕ → ℕ → Director
new_director max_kbps last_n = record {
  participant_streams = Maps.empty max_participants;
  pin_map = Maps.empty max_participants;
  reverse_pin_map = Maps.empty max_participants;
  low_quality_ssrcs = Maps.empty max_participants;
  mid_quality_ssrcs = Maps.empty max_participants;
  bandwidth_floor = 0;
  required_mid_level_bandwidth = 0;
  max_default_level_bandwidth_kbps = max_kbps;
  last_n = last_n;
  slides_bitrate_kbps = 0;
  slides_ssrc = 0;
}

-- `simulcastLevelBandwidthKbps`, and 0 out of its range.
abbrev pub simulcast_level_kbps : ℕ → ℕ
simulcast_level_kbps level =
    if ltb 2 level then 0 else if level == 0 then 100 else if level == 1 then 500 else 2500

unfoldable pub calc_bandwidth_floor : ℕ → ℕ → ℕ → ℕ → ℕ
calc_bandwidth_floor level last_n audio_streams video_streams =
    if ltb 2 level
    then 0
    else (30 * min audio_streams last_n + simulcast_level_kbps level * min video_streams last_n)
      % u32_mod

-- A test on the secondary stream, false where there is none.
abbrev pub any_secondary : (SimulcastStream → Bool) → Option SimulcastStream → Bool
any_secondary p none = false
any_secondary p (some s) = p s

abbrev pub sends_video : ParticipantStreams → Bool
sends_video p =
    if is_sending_video p.primary then true else any_secondary is_sending_video p.secondary

abbrev pub sends_slides : ParticipantStreams → Bool
sends_slides p =
    if is_sending_slides p.primary then true else any_secondary is_sending_slides p.secondary

unfoldable pub ssrc_of_streams : ParticipantStreams → ℕ → Bool
ssrc_of_streams p x =
    if has_ssrc x (get_levels p.primary)
    then true
    else any_secondary (λ s. has_ssrc x (get_levels s)) p.secondary

unfoldable pub is_ssrc_from_participant : Director → ℕ → ℕ → Bool
is_ssrc_from_participant d endpoint x = elim (Maps.find d.participant_streams endpoint) [
  | none ↦ false
  | some p ↦ ssrc_of_streams p x
]

abbrev is_level_ssrc : SimulcastStream → ℕ → Bool
is_level_ssrc s x =
    if x == s.level0.ssrc then true else if x == s.level1.ssrc then true else x == s.level2.ssrc

unfoldable pub highest_active_of : ParticipantStreams → ℕ → QualityLevel
highest_active_of p x =
    if is_level_ssrc p.primary x then p.primary.highest_active_level else elim p.secondary [
      | none ↦ drop_quality
      | some s ↦ if is_level_ssrc s x then s.highest_active_level else drop_quality
    ]

unfoldable pub highest_active_quality : Director → ℕ → ℕ → QualityLevel
highest_active_quality d endpoint x = elim (Maps.find d.participant_streams endpoint) [
  | none ↦ drop_quality
  | some p ↦ highest_active_of p x
]

abbrev pub set_slides_ssrc_and_bitrate : Director → ℕ → ℕ → Director
set_slides_ssrc_and_bitrate d x kbps = record d { slides_ssrc = x; slides_bitrate_kbps = kbps }
