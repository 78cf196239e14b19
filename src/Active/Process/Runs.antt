-- ===== src/Active/Process/Runs.antt =====
-- Sequences of calls of `process` of bridge/engine/ActiveMediaList.cpp.
use symphony_media_bridge.Common.{
  ℕ, ◌+◌, ◌*◌, ◌^◌, ◌≤◌, ◌<◌, ◌≡◌, sym, ◌∙◌, Bool, true, false, ◌&&◌, List, [], ◌∷◌, if◌then◌else◌,
  leb, ◌==◌, ==_iff, arith, Bool-cases, inl, inr, ◌⊎◌, sub64, slt64,
}
use symphony_media_bridge.Active.State.{ActiveMediaList}
use symphony_media_bridge.Active.Process.{Ranked, Scores, interval, min_spotlight_duration, process}
use symphony_media_bridge.Active.Process.Dominance.{
  elapsed, process_lem, process_dominance, takes_over,
}

-- A call at a time.
abbrev pub Call : Type 0
Call = ℕ × Scores

-- The list after the calls, and how often the dominant speaker was changed.
unfoldable pub run : ActiveMediaList → List Call → ActiveMediaList × ℕ
run a [] = (a, 0)
run a ((t, s) ∷ calls) =
    let (b, changes) = process a t s in
    let (c, switches) = run b calls in (c, (if changes.dominant_speaker then 1 else 0) + switches)

-- The times do not go back, and the last one.
abbrev pub ascends : ℕ → List Call → Bool
ascends t [] = true
ascends t ((u, s) ∷ calls) = leb t u && ascends u calls

abbrev pub last_time : ℕ → List Call → ℕ
last_time t [] = t
last_time t ((u, s) ∷ calls) = last_time u calls

last_time_le : (t : ℕ) (calls : List Call) → ascends t calls ≡ true → t ≤ last_time t calls
last_time_le t [] h = ground arith
last_time_le t ((u, s) ∷ calls) h = ground (arith, last_time_le u calls)

-- The dominant speaker changes at most once in two seconds, however often the function is called:
-- the changes of any sequence of calls, two seconds each, fit between the change before the first
-- call and the last call. The times do not go back and are below 2^63 nanoseconds.
pub switches_take_time :
    (a : ActiveMediaList) (start : ℕ) (calls : List Call)
    → a.domination_timestamp ≤ start
    → ascends start calls ≡ true
    → last_time start calls < 2 ^ 63
    → a.domination_timestamp + min_spotlight_duration * (run a calls).1 ≤ last_time start calls
unfolding run
switches_take_time a start [] before up small = ground arith
switches_take_time a start ((u, s) ∷ calls) before up small =
    let later : start ≤ u = ground arith in
    let up' : ascends u calls ≡ true = ground arith in
    let within = last_time_le u calls up' in
    let b = (process a u s).0 in
    elim (process_dominance a u s) [
      | inr (stays, d, t) ↦
          let rest = switches_take_time b u calls (rw t (omega arith)) up' small in
          rw stays (omega (arith, rest, t))
      | inl (changed, d, t, long) ↦
          let rest = switches_take_time b u calls (rw t (omega arith)) up' small in
          let passed =
            (elapsed a.domination_timestamp u min_spotlight_duration (omega arith) (omega arith)
              (omega arith)).0 in
          rw changed (ground (arith, rest, t, passed, long))
    ]

-- The best speaker of a call is `best`, and is heard.
abbrev pub IsBest : ℕ → Scores → Type 0
IsBest best s =
    (s.top_is_zero ≡ false)
    × (top : Ranked) × (rest : List Ranked) × (s.ranking ≡ top ∷ rest)
    × (top.participant ≡ best)

abbrev pub AreBest : ℕ → List Call → Type 0
AreBest best [] = Unit
AreBest best ((t, s) ∷ calls) = IsBest best s × AreBest best calls

-- Nominated before `start`, and dominant or not until then.
record IsWaiting (best start now : ℕ) (a : ActiveMediaList) : Type 0 where
  pub nominated : a.nominated_speaker ≡ best
  pub since : a.nomination_timestamp ≤ start
  pub ran : a.last_run_timestamp ≤ now
  pub dominates : (a.dominant_speaker ≡ best) ⊎ (a.domination_timestamp ≤ start)

module _ (best start : ℕ) where
  step-IsWaiting :
      (now u : ℕ) (s : Scores) (a : ActiveMediaList)
      → IsWaiting best start now a
      → now ≤ u
      → IsBest best s
      → IsWaiting best start u (process a u s).0
  unfolding process
  step-IsWaiting now u s a w later (heard, top, rest, e, this) =
      elim (Bool-cases (slt64 (sub64 u a.last_run_timestamp) interval)) [
        | inl early ↦ rw early (record {
          nominated = w.nominated;
          since = w.since;
          ran = omega (arith, w.ran, later);
          dominates = w.dominates;
        })
        | inr due ↦
            let (l, n, m, changed, d, t) = process_lem a u s due e heard in
            record {
              nominated = n ∙ this;
              since = ground (
                arith,
                m,
                this,
                w.nominated,
                w.since,
                ==_iff top.participant a.nominated_speaker,
              );
              ran = ground (arith, l);
              dominates = elim (Bool-cases (takes_over a u s top.participant)) [
                | inl takes ↦ inl (d ∙ rw takes this)
                | inr stays ↦ elim w.dominates [
                  | inl already ↦ inl (d ∙ rw stays already)
                  | inr long_ago ↦ inr (ground (arith, t, stays, long_ago))
                ]
              ];
            }
      ]

  run-IsWaiting :
      (now : ℕ) (a : ActiveMediaList) (calls : List Call)
      → IsWaiting best start now a
      → ascends now calls ≡ true
      → AreBest best calls
      → IsWaiting best start (last_time now calls) (run a calls).0
  unfolding run
  run-IsWaiting now a [] w up all = w
  run-IsWaiting now a ((u, s) ∷ calls) w up (b, all) =
      run-IsWaiting u (process a u s).0 calls (step-IsWaiting now u s a w (ground arith) b)
        (ground arith) all

  -- Somebody who has been nominated and stays the best speaker of every call becomes the dominant
  -- speaker, at the latest with the first call that is more than two seconds after the nomination
  -- and after the last change of the dominant speaker, and ten milliseconds after the previous call.
  -- The times do not go back and are below 2^63 nanoseconds.
  pub persistent_speaker_dominates :
      (a : ActiveMediaList) (calls : List Call) (u : ℕ) (s : Scores)
      → a.nominated_speaker ≡ best
      → a.nomination_timestamp ≤ start
      → a.domination_timestamp ≤ start
      → a.last_run_timestamp ≤ start
      → ascends start calls ≡ true
      → AreBest best calls
      → IsBest best s
      → start + min_spotlight_duration < u
      → last_time start calls + interval ≤ u
      → u < 2 ^ 63
      → (process (run a calls).0 u s).0.dominant_speaker ≡ best
  persistent_speaker_dominates a calls u s nominated since dominated ran up all
        (heard, top, rest, e, this) long pause small =
      let b = (run a calls).0 in
      let w =
        run-IsWaiting start a calls
          (record { nominated = nominated; since = since; ran = ran; dominates = inr dominated }) up
          all in
      let due : slt64 (sub64 u b.last_run_timestamp) interval ≡ false = ground (
        arith,
        (elapsed b.last_run_timestamp u interval (omega (arith, w.ran, pause)) small
            (omega arith)).1,
        w.ran,
        pause,
      ) in
      let (l, n, m, changed, d, t) = process_lem b u s due e heard in
      elim (Bool-cases (takes_over b u s top.participant)) [
        | inl takes ↦ d ∙ rw takes this
        | inr stays ↦ elim w.dominates [
          | inl already ↦ d ∙ rw stays already
          | inr long_ago ↦
              let free : slt64 min_spotlight_duration (sub64 u b.domination_timestamp) ≡ true =
                ground (
                  arith,
                  long_ago,
                  long,
                  (elapsed b.domination_timestamp u min_spotlight_duration
                      (omega (arith, long_ago, long)) small (omega arith)).0,
                ) in
              let barged_in : slt64 min_spotlight_duration (sub64 u b.nomination_timestamp) ≡ true =
                ground (
                  arith,
                  w.since,
                  long,
                  (elapsed b.nomination_timestamp u min_spotlight_duration
                      (omega (arith, w.since, long)) small (omega arith)).0,
                ) in
              let again : (top.participant == b.nominated_speaker) ≡ true =
                (==_iff _ _).1 (this ∙ sym w.nominated) in
              elim (Bool-cases (top.participant == b.dominant_speaker)) [
                | inl same ↦
                    d ∙ rw stays (sym ((==_iff top.participant b.dominant_speaker).0 same) ∙ this)
                | inr other ↦ absurd (ground (arith, rw (other, free, again, barged_in) at stays))
              ]
        ]
      ]
