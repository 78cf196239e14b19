-- ===== src/Director/Quality/Uplink.antt =====
-- When `setUplinkEstimateKbps` of bridge/engine/EngineStreamDirector.h changes a pin quality.
use symphony_media_bridge.Common.{
  ℕ, ◌≡◌, refl, List, true, false, some, if◌then◌else◌, ltb, ◌==◌, arith, sub64, sle64,
}
use symphony_media_bridge.Common.Maps
use symphony_media_bridge.Common.Maps.{find-update}
use symphony_media_bridge.Director.State.{Director, ParticipantStreams}
use symphony_media_bridge.Director.Quality.{
  with_estimate, update_pin_quality, estimate_participant, set_uplink_estimate_kbps,
  get_video_quality_limits, time_before_scale_up,
}

-- The participant that an estimate leaves.
pub estimated : Director → ParticipantStreams → ℕ → ℕ → ParticipantStreams
estimated d p kbps timestamp = (estimate_participant d p kbps timestamp).0

pin_quality_level-with_estimate :
    (d : Director) (p : ParticipantStreams) (kbps : ℕ)
    → ((with_estimate d p kbps).pin_quality_level ≡ p.pin_quality_level)
      × ((with_estimate d p kbps).low_estimate_timestamp ≡ p.low_estimate_timestamp)
unfolding with_estimate
pin_quality_level-with_estimate d p kbps = (refl, refl)

-- An estimate for a known participant: the pin quality falls to the affordable one at once, rises
-- to it only where the noted time is at least 5 s ago, and stays otherwise. The time of the estimate is
-- noted exactly if the pin quality is then the affordable one, by a change or a confirmation, and the
-- noted time stays where a rise has to wait. The call reports whether the pin quality changed, and the
-- unpinned quality is always the affordable one.
pub set_uplink_estimate_kbps_lem :
    (d : Director) (endpoint kbps timestamp : ℕ) {p : ParticipantStreams}
    → Maps.find d.participant_streams endpoint ≡ some p
    → let limits = get_video_quality_limits d (with_estimate d p kbps) in
      let waited = sle64 time_before_scale_up (sub64 timestamp p.low_estimate_timestamp) in
      let (d', changed) = set_uplink_estimate_kbps d endpoint kbps timestamp in
      (p' : ParticipantStreams) × (Maps.find d'.participant_streams endpoint ≡ some p')
      × (p'.unpin_quality_level ≡ limits.unpinned_quality)
      × (p'.pin_quality_level ≡ (
          if ltb p.pin_quality_level limits.pinned_quality
          then (if waited then limits.pinned_quality else p.pin_quality_level)
          else limits.pinned_quality))
      × (p'.low_estimate_timestamp ≡ (
          if p'.pin_quality_level == limits.pinned_quality
          then timestamp
          else p.low_estimate_timestamp))
      × (changed ≡ (if p'.pin_quality_level == p.pin_quality_level then false else true))
unfolding set_uplink_estimate_kbps estimated estimate_participant update_pin_quality
set_uplink_estimate_kbps_lem d endpoint kbps timestamp {p} e = (
  estimated d p kbps timestamp,
  ground (arith, e, find-update endpoint endpoint (estimated d p kbps timestamp) entries),
  ground arith,
  ground (arith, pin_quality_level-with_estimate d p kbps),
  ground (arith, pin_quality_level-with_estimate d p kbps),
  ground (arith, e, pin_quality_level-with_estimate d p kbps),
)
  where
    entries : List (ℕ × ParticipantStreams)
    entries = d.participant_streams.entries
