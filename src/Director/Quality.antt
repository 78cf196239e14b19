-- ===== src/Director/Quality.antt =====
-- Quality levels by bandwidth in bridge/engine/EngineStreamDirector.h: `getVideoQualityLimits` over
-- the ladder of EngineStreamDirector.cpp, `setUplinkEstimateKbps` and the slides' bitrate.
pub mod Ladder
pub mod Uplink
use symphony_media_bridge.Common.{
  ℕ, ◌+◌, ◌-◌, ◌*◌, ◌%◌, Bool, true, false, ◌&&◌, ◌||◌, Option, none, some, List, [], ◌∷◌,
  if◌then◌else◌, ltb, leb, ◌==◌, min, max, sub64, sub64, u32_mod, u64_mod, sle64, add64, sub32,
}
use symphony_media_bridge.Common.Maps
use symphony_media_bridge.Director.State.{
  Director, ParticipantStreams, QualityLevel, low_quality, mid_quality, high_quality, drop_quality,
  sends_video, sends_slides, calc_bandwidth_floor,
}

abbrev pub low_quality_bitrate : ℕ
low_quality_bitrate = 160

abbrev pub mid_quality_bitrate : ℕ
mid_quality_bitrate = 520

abbrev pub high_quality_bitrate : ℕ
high_quality_bitrate = 2600

-- The margins of a row serve assertions only.
pub record ConfigRow : Type 0 where
  pub base_rate : ℕ
  pub pinned_quality : QualityLevel
  pub unpinned_quality : QualityLevel
  pub overhead_bitrate : ℕ

abbrev pub row : ℕ → QualityLevel → QualityLevel → ℕ → ConfigRow
row base pinned unpinned overhead = record {
  base_rate = base;
  pinned_quality = pinned;
  unpinned_quality = unpinned;
  overhead_bitrate = overhead;
}

abbrev pub top_row : ConfigRow
top_row =
    row (high_quality_bitrate - mid_quality_bitrate) high_quality mid_quality mid_quality_bitrate

abbrev pub lower_rows : List ConfigRow
lower_rows =
    row (mid_quality_bitrate - mid_quality_bitrate) mid_quality mid_quality mid_quality_bitrate
    ∷ row (mid_quality_bitrate - low_quality_bitrate) mid_quality low_quality low_quality_bitrate
    ∷ row (low_quality_bitrate - low_quality_bitrate) low_quality low_quality low_quality_bitrate
    ∷ row low_quality_bitrate low_quality drop_quality 0
    ∷ row 0 drop_quality drop_quality 0
    ∷ []

abbrev pub config_ladder : List ConfigRow
config_ladder = top_row ∷ lower_rows

-- `unsigned long` arithmetic: with `lastN` 0 and a sender of video the subtraction wraps.
unfoldable pub max_receiving_video_streams : Director → ParticipantStreams → ℕ
max_receiving_video_streams d p =
    max 1 (
      sub64 (min (max 1 (Maps.size d.low_quality_ssrcs)) d.last_n) (if sends_video p then 1 else 0))

unfoldable pub config_cost : ℕ → ℕ → ConfigRow → ℕ
config_cost streams slides r = (r.base_rate + streams * r.overhead_bitrate + slides) % u64_mod

-- The loop over the ladder: the best row so far with its cost.
unfoldable pub best_config : ℕ → ℕ → ℕ → ConfigRow → ℕ → List ConfigRow → ConfigRow
best_config streams slides estimate best best_cost [] = best
best_config streams slides estimate best best_cost (r ∷ rs) =
    let cost = config_cost streams slides r in
    let better = (best_cost == 0 || ltb best_cost cost) && leb cost estimate in
    best_config streams slides estimate (if better then r else best)
      (if better then cost else best_cost) rs

abbrev pub uplink_of : Director → ParticipantStreams → ℕ
uplink_of d p =
    if p.estimated_uplink_bandwidth == 0
    then d.max_default_level_bandwidth_kbps
    else p.estimated_uplink_bandwidth

abbrev pub slides_allocation : Director → ParticipantStreams → ℕ
slides_allocation d p = if sends_slides p then 0 else d.slides_bitrate_kbps

-- The row whose qualities `getVideoQualityLimits` gives; `bestConfigId` starts at the top row.
unfoldable pub get_video_quality_limits : Director → ParticipantStreams → ConfigRow
get_video_quality_limits d p =
    best_config (max_receiving_video_streams d p) (slides_allocation d p) (uplink_of d p) top_row 0
      config_ladder

abbrev pub time_before_scale_up : ℕ
time_before_scale_up = 5000 * 1000000

-- What the estimate changes before the pin quality is compared.
unfoldable pub with_estimate : Director → ParticipantStreams → ℕ → ParticipantStreams
with_estimate d p kbps = record p {
  default_level_bandwidth_limit = min kbps d.max_default_level_bandwidth_kbps;
  estimated_uplink_bandwidth = max kbps (min kbps d.max_default_level_bandwidth_kbps);
}

unfoldable pub update_pin_quality :
    ParticipantStreams → QualityLevel → ℕ → ParticipantStreams × Bool
update_pin_quality p desired timestamp =
    if desired == p.pin_quality_level
    then (record p { low_estimate_timestamp = timestamp }, false)
    else if ltb desired p.pin_quality_level
    then (record p { pin_quality_level = desired; low_estimate_timestamp = timestamp }, true)
    else if sle64 time_before_scale_up (sub64 timestamp p.low_estimate_timestamp)
    then (record p { pin_quality_level = desired; low_estimate_timestamp = timestamp }, true)
    else (p, false)

unfoldable pub estimate_participant :
    Director → ParticipantStreams → ℕ → ℕ → ParticipantStreams × Bool
estimate_participant d p kbps timestamp =
    let p' = with_estimate d p kbps in
    let limits = get_video_quality_limits d p' in
    update_pin_quality (record p' { unpin_quality_level = limits.unpinned_quality })
      limits.pinned_quality timestamp

unfoldable pub set_uplink_estimate_kbps : Director → ℕ → ℕ → ℕ → Director × Bool
set_uplink_estimate_kbps d endpoint kbps timestamp =
    elim (Maps.find d.participant_streams endpoint) [
      | none ↦ (d, false)
      | some p ↦
          let (p', changed) = estimate_participant d p kbps timestamp in
          (
            record d { participant_streams = Maps.update d.participant_streams endpoint p' },
            changed,
          )
    ]

unfoldable pub update_bandwidth_floor : Director → ℕ → ℕ → ℕ → Director
update_bandwidth_floor d last_n audio_streams video_streams =
    if d.participant_streams.capacity == 0 then d else record d {
      bandwidth_floor = calc_bandwidth_floor low_quality last_n audio_streams video_streams;
    }

unfoldable pub needs_slides_bitrate_allocation : Director → Bool
needs_slides_bitrate_allocation d = if d.slides_ssrc == 0 then false else d.slides_bitrate_kbps == 0

-- `uint32_t` arithmetic.
unfoldable pub get_bitrate_for_all_thumbnails : Director → ℕ
get_bitrate_for_all_thumbnails d =
    let slides : ℕ = if d.slides_ssrc == 0 then 0 else 1 in
    let shown = min d.last_n (Maps.size d.low_quality_ssrcs % u32_mod) in
    (sub32 (max slides shown) slides * low_quality_bitrate) % u32_mod
