-- ===== src/Active/Process.antt =====
-- `process` of bridge/engine/ActiveMediaList.cpp and the choice of endpoints for its messages. The
-- scores are floating point numbers: the ranking of the speakers and the comparisons of scores are
-- arguments.
pub mod Frame
pub mod Dominance
pub mod Runs
use symphony_media_bridge.Common.{
  ℕ, zero, suc, ◌+◌, ◌*◌, ◌-◌, Bool, true, false, not, ◌&&◌, ◌||◌, Option, none, some, List, [],
  ◌∷◌, ◌++◌, if◌then◌else◌, ltb, leb, ◌==◌, length, sub64, slt64,
}
use symphony_media_bridge.Common.Maps
use symphony_media_bridge.Active.State.{ActiveMediaList, VideoParticipant}
use symphony_media_bridge.Active.Audio.{update_active_audio_list}
use symphony_media_bridge.Active.Video.{update_active_video_list}

-- A speaker who is not muted, and whether the score exceeds the threshold for active talkers.
pub record Ranked : Type 0 where
  pub participant : ℕ
  pub is_talking : Bool

-- What the floating point part of a call finds.
pub record Scores : Type 0 where
  pub ranking : List Ranked
  pub top_is_zero : Bool
  pub dominant_is_quiet : Bool

pub record Changes : Type 0 where
  pub dominant_speaker : Bool
  pub video_map : Bool
  pub audio_map : Bool
  pub talkers : Option (List ℕ)

abbrev pub no_changes : Changes
no_changes = record {
  dominant_speaker = false;
  video_map = false;
  audio_map = false;
  talkers = none;
}

abbrev pub interval : ℕ
interval = 10 * 1000000

abbrev pub min_spotlight_duration : ℕ
min_spotlight_duration = 2000 * 1000000

abbrev pub max_talkers : ℕ
max_talkers = 1024

-- The loop over the best speakers, at most as many as `audioLastN`: the list, whether its SSRCs
-- changed, and the talkers.
unfoldable pub update_speakers :
    ℕ → ActiveMediaList → List Ranked → List ℕ → ActiveMediaList × Bool × List ℕ
update_speakers zero a ranking talkers = (a, false, talkers)
update_speakers (suc n) a [] talkers = (a, false, talkers)
update_speakers (suc n) a (r ∷ rs) talkers =
    let (b, changed) = update_active_audio_list a r.participant in
    let (c, more, talking) = update_speakers n b rs (
      if r.is_talking && ltb (length talkers) max_talkers
      then talkers ++ (r.participant ∷ [])
      else talkers) in
    (c, changed || more, talking)

unfoldable pub nominate : ActiveMediaList → ℕ → ℕ → ActiveMediaList
nominate a participant timestamp =
    if participant == a.nominated_speaker
    then a
    else record a { nomination_timestamp = timestamp; nominated_speaker = participant }

abbrev pub may_switch : ActiveMediaList → ℕ → ℕ → Bool → Bool
may_switch a participant timestamp quiet =
    not (participant == a.dominant_speaker)
    && slt64 min_spotlight_duration (sub64 timestamp a.domination_timestamp)
    && (slt64 min_spotlight_duration (sub64 timestamp a.nomination_timestamp) || quiet)

unfoldable pub switch_speaker : ActiveMediaList → ℕ → ℕ → ActiveMediaList × Bool
switch_speaker a participant timestamp =
    update_active_video_list
      (record a { domination_timestamp = timestamp; dominant_speaker = participant }) participant

unfoldable pub process : ActiveMediaList → ℕ → Scores → ActiveMediaList × Changes
process a timestamp scores =
    if slt64 (sub64 timestamp a.last_run_timestamp) interval
    then (a, no_changes)
    else let b : ActiveMediaList = record a { last_run_timestamp = timestamp } in
      elim scores.ranking [
        | [] ↦ (b, record no_changes { talkers = some [] })
        | ◌∷◌ top rest ↦
            let (c, audio, talking) = update_speakers b.audio_last_n b (top ∷ rest) [] in
            let heard : Changes = record no_changes { audio_map = audio; talkers = some talking } in
            if scores.top_is_zero
            then (c, heard)
            else let d = nominate c top.participant timestamp in
              if may_switch d top.participant timestamp scores.dominant_is_quiet
              then (let (e, video) = switch_speaker d top.participant timestamp in
                  (e, record heard { dominant_speaker = true; video_map = video }))
              else (d, heard)
      ]

-- The endpoints of `makeLastNListMessage`, the newest first: the loop from the tail of the list. An
-- endpoint without a participant takes a place and is not named.
unfoldable pub last_n_from : ActiveMediaList → ℕ → ℕ → ℕ → List ℕ → List ℕ
last_n_from a n endpoint pin_target [] = []
last_n_from a zero endpoint pin_target (x ∷ xs) = []
last_n_from a (suc n) endpoint pin_target (x ∷ xs) =
    let others = last_n_from a (suc n) endpoint pin_target xs in
    let rest = last_n_from a n endpoint pin_target xs in
    if not (x == pin_target) && not (x == endpoint)
    then (elim (Maps.find a.video_participants x) [ none ↦ rest | some p ↦ p.endpoint_id ∷ rest ])
    else others

abbrev pub reverse_onto : List ℕ → List ℕ → List ℕ
reverse_onto [] ys = ys
reverse_onto (x ∷ xs) ys = reverse_onto xs (x ∷ ys)

-- The ids that the message names, or `none` where it is not made.
unfoldable pub make_last_n_list : ActiveMediaList → ℕ → ℕ → ℕ → Option (List ℕ)
unfolding last_n_from
make_last_n_list a last_n endpoint pin_target =
    if ltb a.default_last_n last_n || last_n == 0
    then none
    else let newest_first = reverse_onto a.active_video_list.items [] in
      let pinned : Option VideoParticipant =
        if pin_target == 0 then none else Maps.find a.video_participants pin_target in
      elim pinned [
        | none ↦ some (last_n_from a last_n endpoint pin_target newest_first)
        | some p ↦
            some (p.endpoint_id ∷ last_n_from a (last_n - 1) endpoint pin_target newest_first)
      ]

-- The id that `makeDominantSpeakerMessage` names.
unfoldable pub dominant_speaker_id : ActiveMediaList → Option ℕ
dominant_speaker_id a =
    if a.dominant_speaker == 0
    then none
    else (elim (Maps.find a.audio_participants a.dominant_speaker) [
      | none ↦ none
      | some p ↦ some p.endpoint_id
    ])
