-- ===== src/Active/Process/Dominance.antt =====
-- When `process` of bridge/engine/ActiveMediaList.cpp changes the dominant speaker.
use symphony_media_bridge.Common.{
  ℕ, ◌+◌, ◌-◌, ◌%◌, ◌^◌, ◌≤◌, ◌<◌, ◌≡◌, ◌≢◌, refl, sym, ◌∙◌, Bool, true, false, not, ◌&&◌, ◌||◌,
  List, [], ◌∷◌, if◌then◌else◌, ltb, ◌==◌, ==_iff, arith, Bool-cases, List-cases, inl, inr, ◌⊎◌,
  sub64, slt64, u64_mod,
}
use symphony_media_bridge.Active.State.{ActiveMediaList}
use symphony_media_bridge.Active.Process.{
  Ranked, Scores, interval, min_spotlight_duration, update_speakers, nominate, may_switch,
  switch_speaker, process,
}
use symphony_media_bridge.Active.Process.Frame.{
  update_speakers-IsFrame, update_active_video_list-IsFrame,
}

-- The difference of two times as a signed number, where the later one is below 2^63.
pub elapsed :
    (from now m : ℕ)
    → from ≤ now
    → now < 2 ^ 63
    → m < 2 ^ 63
    → (slt64 m (sub64 now from) ≡ ltb m (now - from))
      × (slt64 (sub64 now from) m ≡ ltb (now - from) m)
elapsed from now m order small small_m =
    let plain : sub64 now from ≡ now - from = omega arith in
    let big : (m + 2 ^ 63) % u64_mod ≡ m + 2 ^ 63 = omega arith in
    let big' : ((now - from) + 2 ^ 63) % u64_mod ≡ (now - from) + 2 ^ 63 = omega arith in
    rw (plain, big, big') (ground arith, ground arith)

nominate_lem :
    (a : ActiveMediaList) (participant timestamp : ℕ)
    → let b = nominate a participant timestamp in
      (b.nominated_speaker ≡ participant)
      × (b.nomination_timestamp
          ≡ (if participant == a.nominated_speaker then a.nomination_timestamp else timestamp))
      × (b.dominant_speaker ≡ a.dominant_speaker)
      × (b.domination_timestamp ≡ a.domination_timestamp)
      × (b.last_run_timestamp ≡ a.last_run_timestamp)
unfolding nominate
nominate_lem a participant timestamp = elim (Bool-cases (participant == a.nominated_speaker)) [
  | inl this ↦
      rw this (sym ((==_iff participant a.nominated_speaker).0 this), refl, refl, refl, refl)
  | inr other ↦ rw other (refl, refl, refl, refl, refl)
]

module _ (a : ActiveMediaList) (timestamp : ℕ) (scores : Scores) where
  -- When the best speaker of a call was nominated, and whether it becomes the dominant speaker.
  abbrev nominated_at : ℕ → ℕ
  nominated_at best = if best == a.nominated_speaker then a.nomination_timestamp else timestamp

  abbrev pub takes_over : ℕ → Bool
  takes_over best =
      not (best == a.dominant_speaker)
      && slt64 min_spotlight_duration (sub64 timestamp a.domination_timestamp)
      && (slt64 min_spotlight_duration (sub64 timestamp (nominated_at best))
          || scores.dominant_is_quiet)

  pub process_lem :
      {top : Ranked} {rest : List Ranked}
      → slt64 (sub64 timestamp a.last_run_timestamp) interval ≡ false
      → scores.ranking ≡ top ∷ rest
      → scores.top_is_zero ≡ false
      → let (b, changes) = process a timestamp scores in
        let best = top.participant in
        (b.last_run_timestamp ≡ timestamp)
        × (b.nominated_speaker ≡ best)
        × (b.nomination_timestamp ≡ nominated_at best)
        × (changes.dominant_speaker ≡ takes_over best)
        × (b.dominant_speaker ≡ (if takes_over best then best else a.dominant_speaker))
        × (b.domination_timestamp ≡ (if takes_over best then timestamp else a.domination_timestamp))
  unfolding process switch_speaker
  process_lem {top} {rest} due e heard =
      let best = top.participant in
      let b : ActiveMediaList = record a { last_run_timestamp = timestamp } in
      let c = (update_speakers a.audio_last_n b (top ∷ rest) []).0 in
      let (cd, ct, cn, cm, cl) = update_speakers-IsFrame a.audio_last_n b (top ∷ rest) [] in
      let d = nominate c best timestamp in
      let (n, m, dd, dt, l) = nominate_lem c best timestamp in
      let nominated : d.nomination_timestamp ≡ nominated_at best = m ∙ rw (cn, cm) refl in
      let same : may_switch d best timestamp scores.dominant_is_quiet ≡ takes_over best =
        rw (dd ∙ cd, dt ∙ ct, nominated) refl in
      elim (Bool-cases (takes_over best)) [
        | inr stays ↦
            rw (due, e, process, heard, same ∙ stays, stays)
              (l ∙ cl, n, nominated, refl, dd ∙ cd, dt ∙ ct)
        | inl takes ↦
            let f : ActiveMediaList = record d {
              domination_timestamp = timestamp;
              dominant_speaker = best;
            } in
            let (fd, ft, fn, fm, fl) = update_active_video_list-IsFrame f best in
            rw (due, e, process, heard, same ∙ takes, takes)
              (fl ∙ (l ∙ cl), fn ∙ n, fm ∙ nominated, refl, fd, ft)
      ]

  -- A call that does not come to the speakers.
  pub process_rest :
      (slt64 (sub64 timestamp a.last_run_timestamp) interval ≡ true)
        ⊎ (scores.ranking ≡ [])
        ⊎ (scores.top_is_zero ≡ true)
      → let (b, changes) = process a timestamp scores in
        (changes.dominant_speaker ≡ false)
        × (b.dominant_speaker ≡ a.dominant_speaker)
        × (b.domination_timestamp ≡ a.domination_timestamp)
  unfolding process
  process_rest why = elim (Bool-cases (slt64 (sub64 timestamp a.last_run_timestamp) interval)) [
    | inl early ↦ rw early (refl, refl, refl)
    | inr due ↦ elim (List-cases scores.ranking) [
      | inl e ↦ rw (due, e, process) (refl, refl, refl)
      | inr (top, rest, e) ↦
          let silent : scores.top_is_zero ≡ true = elim why [
            | inl early ↦ absurd (ground (arith, early, due))
            | inr (inl nobody) ↦ absurd (ground (arith, nobody, e))
            | inr (inr silent) ↦ silent
          ] in
          let b : ActiveMediaList = record a { last_run_timestamp = timestamp } in
          let (d, t, n, m, l) = update_speakers-IsFrame a.audio_last_n b (top ∷ rest) [] in
          rw (due, e, process, silent) (refl, d, t)
    ]
  ]

  -- The dominant speaker changes only when the last change is more than two seconds ago, and then to
  -- somebody else; the change is reported, and its time kept. Without a report the speaker and the
  -- time stay.
  pub process_dominance :
      let (b, changes) = process a timestamp scores in
      ((changes.dominant_speaker ≡ true)
        × (b.dominant_speaker ≢ a.dominant_speaker)
        × (b.domination_timestamp ≡ timestamp)
        × (slt64 min_spotlight_duration (sub64 timestamp a.domination_timestamp) ≡ true))
      ⊎ ((changes.dominant_speaker ≡ false)
          × (b.dominant_speaker ≡ a.dominant_speaker)
          × (b.domination_timestamp ≡ a.domination_timestamp))
  process_dominance = elim (Bool-cases (slt64 (sub64 timestamp a.last_run_timestamp) interval)) [
    | inl early ↦ inr (process_rest (inl early))
    | inr due ↦ elim (List-cases scores.ranking) [
      | inl e ↦ inr (process_rest (inr (inl e)))
      | inr (top, rest, e) ↦ elim (Bool-cases scores.top_is_zero) [
        | inl silent ↦ inr (process_rest (inr (inr silent)))
        | inr heard ↦
            let (l, n, m, changed, d, t) = process_lem due e heard in
            elim (Bool-cases (takes_over top.participant)) [
              | inr stays ↦ inr (changed ∙ stays, d ∙ rw stays refl, t ∙ rw stays refl)
              | inl takes ↦ inl (
                changed ∙ takes,
                λ same. ground (arith, takes, d, same, ==_iff top.participant a.dominant_speaker),
                t ∙ rw takes refl,
                ground (arith, takes),
              )
            ]
      ]
    ]
  ]
