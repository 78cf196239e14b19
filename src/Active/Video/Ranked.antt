-- ===== src/Active/Video/Ranked.antt =====
-- What `process` of bridge/engine/ActiveMediaList.cpp does to those who are seen when it changes
-- the dominant speaker.
use symphony_media_bridge.Common.{
  ℕ, ◌≢◌, refl, List, [], ◌∷◌, slt64, sub64, Bool-cases, List-cases, inl, inr,
}
use symphony_media_bridge.Active.State.{ActiveMediaList}
use symphony_media_bridge.Active.Process.{
  Ranked, Scores, process, update_speakers, nominate, may_switch, switch_speaker, interval,
}
use symphony_media_bridge.Active.Video.Same.{same-IsValid, update_speakers-IsSame, nominate-IsSame}
use symphony_media_bridge.Active.Video.Valid.{IsValid}
use symphony_media_bridge.Active.Video.Participants.{update-IsValid}

-- Somebody leads the ranking, or nobody is ranked.
abbrev pub IsLed : List Ranked → Type 0
IsLed [] = Unit
IsLed (top ∷ rest) = top.participant ≢ 0

switch_speaker-IsValid :
    (total : ℕ) (a : ActiveMediaList) (participant timestamp : ℕ)
    → participant ≢ 0
    → IsValid total a
    → IsValid total (switch_speaker a participant timestamp).0
unfolding switch_speaker
switch_speaker-IsValid total a participant timestamp somebody v =
    let b : ActiveMediaList = record a {
      domination_timestamp = timestamp;
      dominant_speaker = participant;
    } in
    update-IsValid total b participant
      (same-IsValid total a b (refl, refl, refl, refl, refl, refl) v) somebody

pub process-IsValid :
    (total : ℕ) (a : ActiveMediaList) (timestamp : ℕ) (scores : Scores)
    → IsLed scores.ranking
    → IsValid total a
    → IsValid total (process a timestamp scores).0
unfolding process
process-IsValid total a timestamp scores led v =
    let b : ActiveMediaList = record a { last_run_timestamp = timestamp } in
    let w = same-IsValid total a b (refl, refl, refl, refl, refl, refl) v in
    elim (Bool-cases (slt64 (sub64 timestamp a.last_run_timestamp) interval)) [
      | inl early ↦ rw early v
      | inr due ↦ elim (List-cases scores.ranking) [
        | inl nobody ↦ rw (due, nobody) w
        | inr (top, rest, ranked) ↦
            let somebody : top.participant ≢ 0 = rw ranked at led in
            let c = (update_speakers b.audio_last_n b (top ∷ rest) []).0 in
            let heard =
              same-IsValid total b c (update_speakers-IsSame b.audio_last_n b (top ∷ rest) []) w in
            elim (Bool-cases scores.top_is_zero) [
              | inl silent ↦ rw (due, ranked, silent) heard
              | inr loud ↦
                  let d = nominate c top.participant timestamp in
                  let nominated =
                    same-IsValid total c d (nominate-IsSame c top.participant timestamp) heard in
                  elim (Bool-cases
                    (may_switch d top.participant timestamp scores.dominant_is_quiet)) [
                      | inl switches ↦
                          rw (due, ranked, loud, switches)
                            (switch_speaker-IsValid total d top.participant timestamp somebody
                              nominated)
                      | inr stays ↦ rw (due, ranked, loud, stays) nominated
                    ]
            ]
      ]
    ]
