-- ===== src/Director/Participants.antt =====
-- `addParticipant` and `removeParticipant` of bridge/engine/EngineStreamDirector.h: the maps from
-- SSRCs to senders and the bandwidth that the middle levels require.
pub mod RoundTrip
use symphony_media_bridge.Common.{
  ℕ, ◌+◌, ◌-◌, ◌%◌, Bool, true, false, Option, none, some, if◌then◌else◌, ltb, ◌==◌, add32, sub32,
}
use symphony_media_bridge.Common.Maps
use symphony_media_bridge.Director.Streams.{
  SimulcastStream, max_levels, empty_stream, is_sending_slides,
}
use symphony_media_bridge.Director.State.{
  Director, ParticipantStreams, low_quality, mid_quality, simulcast_level_kbps,
  set_slides_ssrc_and_bitrate,
}

unfoldable pub make_participant_streams :
    Director → SimulcastStream → Option SimulcastStream → ParticipantStreams
make_participant_streams d primary secondary = record {
  primary = primary;
  secondary = secondary;
  pin_quality_level = max_levels - 1;
  unpin_quality_level = low_quality;
  low_estimate_timestamp = low_quality;
  default_level_bandwidth_limit = d.max_default_level_bandwidth_kbps;
  estimated_uplink_bandwidth = 0;
}

-- What `addParticipant` does for each of the two streams, `setSlidesSsrcAndBitrate` included.
unfoldable pub register_stream : Director → ℕ → SimulcastStream → Director
register_stream d endpoint s = record d {
  low_quality_ssrcs = Maps.emplace d.low_quality_ssrcs s.level0.ssrc endpoint;
  mid_quality_ssrcs =
      if ltb 1 s.num_levels
      then Maps.emplace d.mid_quality_ssrcs s.level1.ssrc endpoint
      else d.mid_quality_ssrcs;
  required_mid_level_bandwidth =
      add32 d.required_mid_level_bandwidth (simulcast_level_kbps mid_quality);
  slides_ssrc = if is_sending_slides s then s.level0.ssrc else d.slides_ssrc;
  slides_bitrate_kbps = if is_sending_slides s then 0 else d.slides_bitrate_kbps;
}

unfoldable pub add_participant : Director → ℕ → SimulcastStream → Option SimulcastStream → Director
add_participant d endpoint primary secondary =
    if Maps.contains d.participant_streams endpoint
    then d
    else let d' = register_stream d endpoint primary in
      let d'' = record d' {
        participant_streams =
            Maps.emplace d'.participant_streams endpoint
              (make_participant_streams d primary secondary);
      } in
      elim secondary [ none ↦ d'' | some s ↦ register_stream d'' endpoint s ]

-- The overload for an endpoint that sends no video.
unfoldable pub add_viewer : Director → ℕ → Director
add_viewer d endpoint = if Maps.contains d.participant_streams endpoint then d else record d {
  participant_streams =
      Maps.emplace d.participant_streams endpoint (make_participant_streams d empty_stream none);
}

-- What `removeParticipant` does for each of the two streams.
unfoldable pub unregister_stream : Director → SimulcastStream → Director
unregister_stream d s =
    if ltb 0 s.num_levels
    then record d {
      low_quality_ssrcs = Maps.erase d.low_quality_ssrcs s.level0.ssrc;
      mid_quality_ssrcs = Maps.erase d.mid_quality_ssrcs s.level1.ssrc;
      required_mid_level_bandwidth =
          sub32 d.required_mid_level_bandwidth (simulcast_level_kbps mid_quality);
      slides_bitrate_kbps = if is_sending_slides s then 0 else d.slides_bitrate_kbps;
    }
    else d

unfoldable pub remove_participant : Director → ℕ → Director
remove_participant d endpoint = elim (Maps.find d.participant_streams endpoint) [
  | none ↦ d
  | some p ↦
      let d' = unregister_stream d p.primary in
      let d'' : Director = elim p.secondary [ none ↦ d' | some s ↦ unregister_stream d' s ] in
      record d'' { participant_streams = Maps.erase d''.participant_streams endpoint }
]
