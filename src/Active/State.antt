-- ===== src/Active/State.antt =====
-- The state of bridge/engine/ActiveMediaList.h, without the levels and scores, which are floating
-- point numbers. A queue of free SSRCs is a list, the next one first; a pointer to an entry of the
-- active video list is the data of that entry. The nomination time, which the constructor does not
-- set, is 0.
use symphony_media_bridge.Common.{
  ℕ, ◌*◌, Bool, Option, none, List, [], ◌∷◌, ◌++◌, if◌then◌else◌, ◌==◌, length, add32,
}
use symphony_media_bridge.Common.Maps
use symphony_media_bridge.Common.Maps.{Map}
use symphony_media_bridge.Director.Streams.{SimulcastStream}
use symphony_media_bridge.Active.Entries.{Entries, no_entries}

pub record SsrcPair : Type 0 where
  pub main : ℕ
  pub feedback : ℕ

-- At most three pairs; the main SSRCs are looked at.
abbrev pub SimulcastGroup : Type 0
SimulcastGroup = List SsrcPair

pub record AudioParticipant : Type 0 where
  pub endpoint_id : ℕ
  pub is_local : Bool

pub record VideoParticipant : Type 0 where
  pub endpoint_id : ℕ
  pub simulcast_stream : SimulcastStream
  pub secondary_simulcast_stream : Option SimulcastStream
  pub is_local : Bool

-- The endpoint that shares its screen, the SSRC of its slides and that on which they are sent.
pub record ScreenShare : Type 0 where
  pub endpoint : ℕ
  pub ssrc : ℕ
  pub rewrite_ssrc : ℕ

pub record ActiveMediaList : Type 0 where
  pub default_last_n : ℕ
  pub max_active_list_size : ℕ
  pub audio_last_n : ℕ
  pub max_speakers : ℕ
  pub audio_participants : Map AudioParticipant
  pub audio_ssrcs : List ℕ
  pub audio_ssrc_rewrite_map : Map ℕ
  pub active_audio_list : Entries
  pub dominant_speaker : ℕ
  pub nominated_speaker : ℕ
  pub video_participants : Map VideoParticipant
  pub video_ssrcs : List SimulcastGroup
  pub video_feedback_ssrc_lookup_map : Map ℕ
  pub video_screen_share_ssrc : SsrcPair
  pub video_ssrc_rewrite_map : Map SimulcastGroup
  pub reverse_video_ssrc_rewrite_map : Map ℕ
  pub video_screen_share_ssrc_mapping : Option ScreenShare
  pub active_video_list : Entries
  pub active_video_list_lookup_map : Map ℕ
  pub last_run_timestamp : ℕ
  pub domination_timestamp : ℕ
  pub nomination_timestamp : ℕ
  pub ssrc_map_revision : ℕ

abbrev pub max_participants : ℕ
max_participants = 2048

abbrev pub ssrc_array_size : ℕ
ssrc_array_size = 32

-- The loop over the pairs of one group, and over all groups. A group of one pair is the screen share's.
unfoldable pub add_feedback : SimulcastGroup → Map ℕ → Map ℕ
add_feedback [] m = m
add_feedback (p ∷ ps) m = add_feedback ps (Maps.emplace m p.main p.feedback)

unfoldable pub take_groups : List SimulcastGroup → ActiveMediaList → ActiveMediaList
unfolding add_feedback
take_groups [] a = a
take_groups ([] ∷ gs) a = take_groups gs (record a { video_ssrcs = a.video_ssrcs ++ ([] ∷ []) })
take_groups ((p ∷ []) ∷ gs) a = take_groups gs (record a {
  video_screen_share_ssrc = p;
  video_feedback_ssrc_lookup_map = Maps.emplace a.video_feedback_ssrc_lookup_map p.main p.feedback;
})
take_groups ((p ∷ q ∷ ps) ∷ gs) a = take_groups gs (record a {
  video_ssrcs = a.video_ssrcs ++ ((p ∷ q ∷ ps) ∷ []);
  video_feedback_ssrc_lookup_map = add_feedback (p ∷ q ∷ ps) a.video_feedback_ssrc_lookup_map;
})

-- `room` is the number of entries that the allocators of the two lists have.
unfoldable pub new_active_media_list :
    (audio : List ℕ)
    → (groups : List SimulcastGroup) → (last_n audio_last_n room : ℕ) → ActiveMediaList
unfolding take_groups
new_active_media_list audio groups last_n audio_last_n room =
    let video : ℕ → ℕ = λ n. (if length groups == 0 then 0 else n) in
    take_groups groups (record {
      default_last_n = last_n;
      max_active_list_size = add32 last_n 1;
      audio_last_n = audio_last_n;
      max_speakers = length audio;
      audio_participants = Maps.empty max_participants;
      audio_ssrcs = audio;
      audio_ssrc_rewrite_map = Maps.empty (ssrc_array_size * 2);
      active_audio_list = no_entries room;
      dominant_speaker = 0;
      nominated_speaker = 0;
      video_participants = Maps.empty (video max_participants);
      video_ssrcs = [];
      video_feedback_ssrc_lookup_map = Maps.empty (video (ssrc_array_size * 2));
      video_screen_share_ssrc = record { main = 0; feedback = 0 };
      video_ssrc_rewrite_map = Maps.empty (video (ssrc_array_size * 2));
      reverse_video_ssrc_rewrite_map = Maps.empty (video (ssrc_array_size * 2));
      video_screen_share_ssrc_mapping = none;
      active_video_list = no_entries room;
      active_video_list_lookup_map = Maps.empty (video 32);
      last_run_timestamp = 0;
      domination_timestamp = 0;
      nomination_timestamp = 0;
      ssrc_map_revision = 0;
    })

abbrev pub next_revision : ActiveMediaList → ℕ
next_revision a = add32 a.ssrc_map_revision 1
