-- ===== src/Rewrite/Tests.antt =====
-- A running outbound stream, and the theorems on bridge/engine/SsrcOutboundContext.cpp applied to it.
use symphony_media_bridge.Common.{ℕ, ◌≡◌, refl, true, false, none, some, List, [], ◌∷◌, arith}
use symphony_media_bridge.Codec.Vp8.{
  get_pic_id, get_tl0_pic_idx, get_payload_descriptor_size, extended_size, get_x, get_i, get_l,
  get_t, get_k,
}
use symphony_media_bridge.Rewrite.State.{
  Context, RtpMap, RtpHeader, Format, vp8, opus, tracker_empty, offset_empty, new_context,
  new_tracker,
}
use symphony_media_bridge.Rewrite.Audio.{rewrite_audio}
use symphony_media_bridge.Rewrite.Audio.Sequence.{IsWord, rewrite_audio_switch}
use symphony_media_bridge.Rewrite.Audio.Bounds.{IsStep, rewrite_audio-IsStep}
use symphony_media_bridge.Rewrite.Video.{rewrite_video}
use symphony_media_bridge.Rewrite.Video.Continuity
use symphony_media_bridge.Rewrite.Video.Continuity.{rewrite_video_switch, rewrite_video-IsStep}

abbrev rtp_map : Format → ℕ → RtpMap
rtp_map f payload_type = record {
  format = f;
  payload_type = payload_type;
  audio_level_ext_id = none;
  abs_send_time_ext_id = some 3;
}

-- The newest packet has number 1000 and came from source 7, whose numbers are 500 lower.
abbrev running : Format → Context
running f = record (new_context 99 (rtp_map f 100) (rtp_map Format.telephone_event 110)) {
  last_sent = record (new_tracker) {
    ssrc = 7;
    sequence_number = 1000;
    timestamp = 48000;
    wall_clock = 5000;
    pic_id = 300;
    tl0_pic_idx = 255;
    last_original_sequence_number = 500;
  };
  offset = record { sequence_number = 500; timestamp = 10; pic_id = 3; tl0_pic_idx = 4 };
  sequence_number_start = 400;
  original_ssrc = 7;
}

abbrev header : ℕ → RtpHeader
header ssrc = record {
  payload_type = 111;
  marker = 0;
  sequence_number = 501;
  timestamp = 48960;
  ssrc = ssrc;
  extensions = none;
}

running-IsWord : IsWord (running opus)
running-IsWord = record { last = omega arith; shift = omega arith; start = omega arith }

rewrite_audio_switch_example :
    let (c', h', sent) = rewrite_audio (running opus) (header 8) (rtp_map opus 111) 77 6000 false in
    (sent ≡ true)
    × (c'.last_sent.sequence_number ≡ 1001)
    × (h'.sequence_number ≡ 1001)
    × (h'.ssrc ≡ 99)
    × (h'.marker ≡ 1)
    × (c'.original_ssrc ≡ 8)
unfolding tracker_empty
rewrite_audio_switch_example =
    rewrite_audio_switch (running opus) (header 8) (rtp_map opus 111) 77 6000 false (omega arith)
      (omega arith) (omega arith) refl refl

rewrite_audio-IsStep_example :
    IsStep
      (running opus)
      (header 7)
      (rewrite_audio (running opus) (header 7) (rtp_map opus 111) 40000 6000 true)
unfolding tracker_empty
rewrite_audio-IsStep_example =
    rewrite_audio-IsStep (running opus) (header 7) (rtp_map opus 111) 40000 6000 true running-IsWord
      (omega arith) refl

-- A VP8 payload with a long picture id, 5, the index 9 and a temporal id.
abbrev vp8_payload : List ℕ
vp8_payload = 0x90 ∷ 0xe0 ∷ 0x80 ∷ 5 ∷ 9 ∷ 0x20 ∷ 1 ∷ 2 ∷ []

rewrite_video_switch_example :
    let (c', h', payload', out) =
      rewrite_video (running vp8) (header 8) vp8_payload (rtp_map vp8 111) 77 6000 true in
    (out ≡ some 1001)
    × (h'.sequence_number ≡ 1001)
    × (h'.ssrc ≡ 99)
    × (c'.last_sent.sequence_number ≡ 1001)
    × (get_pic_id payload' ≡ 301)
    × (get_tl0_pic_idx payload' ≡ 0)
unfolding tracker_empty offset_empty get_payload_descriptor_size extended_size get_x get_i get_l
    get_t get_k get_pic_id get_tl0_pic_idx
rewrite_video_switch_example =
    rewrite_video_switch (running vp8) (header 8) vp8_payload (rtp_map vp8 111) 77 6000 true refl
      (omega arith) (omega arith) (omega arith) refl refl (omega arith) (omega arith) (omega arith)

rewrite_video-IsStep_example :
    Continuity.IsStep
      (running vp8)
      (header 7)
      vp8_payload
      (rewrite_video (running vp8) (header 7) vp8_payload (rtp_map vp8 111) 40000 6000 false)
unfolding tracker_empty offset_empty
rewrite_video-IsStep_example =
    rewrite_video-IsStep (running vp8) (header 7) vp8_payload (rtp_map vp8 111) 40000 6000 false
      refl (omega arith) (omega arith)
