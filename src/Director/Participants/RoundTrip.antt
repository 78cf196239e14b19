-- ===== src/Director/Participants/RoundTrip.antt =====
-- `removeParticipant` takes back what `addParticipant` of bridge/engine/EngineStreamDirector.h did.
use symphony_media_bridge.Common.{ℕ, ◌≡◌, none, some, if◌then◌else◌, sub32}
use symphony_media_bridge.Common.Maps
use symphony_media_bridge.Common.Maps.{find-erase}
use symphony_media_bridge.Director.Streams.{SimulcastStream, is_sending_slides}
use symphony_media_bridge.Director.State.{Director}
use symphony_media_bridge.Director.Participants.{register_stream, make_participant_streams}

-- The state that the two calls leave, next to the state before them.
pub record IsRestored (d d' : Director) : Type 0 where
  pub participants : d'.participant_streams ≡ d.participant_streams
  pub low : d'.low_quality_ssrcs ≡ d.low_quality_ssrcs
  pub mid : d'.mid_quality_ssrcs ≡ d.mid_quality_ssrcs
  pub bandwidth : d'.required_mid_level_bandwidth ≡ d.required_mid_level_bandwidth
  pub pins : d'.pin_map ≡ d.pin_map
  pub counts : d'.reverse_pin_map ≡ d.reverse_pin_map

-- The state between the two calls.
added : Director → ℕ → SimulcastStream → SimulcastStream → Director
added d endpoint primary secondary =
    let d' = register_stream d endpoint primary in
    register_stream
      (record d' {
        participant_streams =
            Maps.emplace d'.participant_streams endpoint
              (make_participant_streams d primary (some secondary));
      })
      endpoint secondary

-- What the removal of a stream with a level does.
cleared : Director → SimulcastStream → Director
cleared d s = record d {
  low_quality_ssrcs = Maps.erase d.low_quality_ssrcs s.level0.ssrc;
  mid_quality_ssrcs = Maps.erase d.mid_quality_ssrcs s.level1.ssrc;
  required_mid_level_bandwidth = sub32 d.required_mid_level_bandwidth 500;
  slides_bitrate_kbps = if is_sending_slides s then 0 else d.slides_bitrate_kbps;
}

-- The state that the removal leaves.
removed : Director → ℕ → SimulcastStream → SimulcastStream → Director
removed d endpoint primary secondary =
    let d' = cleared (cleared d primary) secondary in
    record d' { participant_streams = Maps.erase d'.participant_streams endpoint }

-- The state between the two calls for an endpoint with one stream.
added_one : Director → ℕ → SimulcastStream → Director
added_one d endpoint primary =
    let d' = register_stream d endpoint primary in
    record d' {
      participant_streams =
          Maps.emplace d'.participant_streams endpoint (make_participant_streams d primary none);
    }
