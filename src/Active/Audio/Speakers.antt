-- ===== src/Active/Audio/Speakers.antt =====
-- Every sequence of calls on the audio part of bridge/engine/ActiveMediaList.cpp.
use symphony_media_bridge.Common.{
  ℕ, ◌<◌, ◌≡◌, ◌≢◌, refl, ap, Bool, true, not, ◌&&◌, none, some, List, [], ◌∷◌, ◌++◌, if◌then◌else◌,
  lt→ltb, ◌==◌, length, arith, Bool-cases, Option-cases, List-cases, inl, inr,
}
use symphony_media_bridge.Common.Maps
use symphony_media_bridge.Common.Maps.{Map, find_entry, erase_entry, find-erase}
use symphony_media_bridge.Common.Values.{is_in}
use symphony_media_bridge.Active.Entries.{Entries, remove, pop_from_head, remove_first}
use symphony_media_bridge.Active.Listed.{contains-find}
use symphony_media_bridge.Active.State.{ActiveMediaList}
use symphony_media_bridge.Active.Audio.{
  on_audio_participant_added, remove_audio_participant, drop_oldest_speaker, activate_speaker,
  update_active_audio_list,
}
use symphony_media_bridge.Active.Audio.Ssrcs.{
  IsConsistent, release, take_tail, take_head, move_last,
}

module _ (configured : List ℕ) where
  pub on_audio_participant_added-IsConsistent :
      (a : ActiveMediaList) (endpoint : ℕ)
      → IsConsistent configured a
      → Maps.find a.audio_ssrc_rewrite_map endpoint ≡ none
      → IsConsistent configured (on_audio_participant_added a endpoint).0
  unfolding on_audio_participant_added
  on_audio_participant_added-IsConsistent a endpoint c new = elim (List-cases a.audio_ssrcs) [
    | inl e ↦ rw (e, on_audio_participant_added) c
    | inr (ssrc, rest, e) ↦
        rw (e, on_audio_participant_added)
          (take_head configured a.audio_ssrc_rewrite_map a.active_audio_list a.max_speakers rest
            endpoint ssrc (rw e at c) new)
  ]

  pub remove_audio_participant-IsConsistent :
      (a : ActiveMediaList) (endpoint : ℕ)
      → IsConsistent configured a
      → IsConsistent configured (remove_audio_participant a endpoint).0
  unfolding remove_audio_participant remove
  remove_audio_participant-IsConsistent a endpoint c =
      elim (Option-cases (Maps.find a.audio_ssrc_rewrite_map endpoint)) [
        | inl e ↦ rw (e, remove_audio_participant) c
        | inr (ssrc, e) ↦
            rw (e, remove_audio_participant)
              (release configured a.audio_ssrc_rewrite_map a.active_audio_list a.max_speakers
                a.audio_ssrcs endpoint ssrc c e)
      ]

  pop_from_head_lem :
      (l : Entries) {x : ℕ} {xs : List ℕ}
      → l.items ≡ x ∷ xs
      → pop_from_head l ≡ (record l { items = xs }, some x)
  unfolding pop_from_head
  pop_from_head_lem l e = rw (e, pop_from_head) refl

  module _ (a : ActiveMediaList) {x ssrc : ℕ} {xs : List ℕ} (e : a.active_audio_list.items ≡ x ∷ xs)
      (found : Maps.find a.audio_ssrc_rewrite_map x ≡ some ssrc) where
    -- The speaker at the head leaves the list and the map.
    abbrev dropped : ActiveMediaList
    dropped = record a {
      active_audio_list = record (a.active_audio_list) { items = xs };
      audio_ssrc_rewrite_map = Maps.erase a.audio_ssrc_rewrite_map x;
      audio_ssrcs = a.audio_ssrcs ++ (ssrc ∷ []);
    }

    drop_oldest_speaker_lem : drop_oldest_speaker a ≡ (dropped, true)
    unfolding drop_oldest_speaker
    drop_oldest_speaker_lem =
        rw (pop_from_head_lem a.active_audio_list e, found, drop_oldest_speaker)
          (rw (pop_from_head_lem a.active_audio_list e) refl)

    dropped-IsConsistent : IsConsistent configured a → IsConsistent configured dropped
    unfolding remove_first
    dropped-IsConsistent c =
        let drops : remove_first x a.active_audio_list.items ≡ xs = rw e (ground arith) in
        rw drops at (
          release configured a.audio_ssrc_rewrite_map a.active_audio_list a.max_speakers
            a.audio_ssrcs x ssrc c found)

  -- A new speaker is listed last, with the next free SSRC.
  activate_speaker_lem :
      (a : ActiveMediaList) (endpoint : ℕ)
      → IsConsistent configured a
      → Maps.find a.audio_ssrc_rewrite_map endpoint ≡ none
      → length a.active_audio_list.items < a.max_speakers
      → let (b, done) = activate_speaker a endpoint in
        (done ≡ true)
        × IsConsistent configured b
        × (ssrc : ℕ) × (b.audio_ssrc_rewrite_map.entries
            ≡ (endpoint, ssrc) ∷ a.audio_ssrc_rewrite_map.entries)
  unfolding activate_speaker find_entry
  activate_speaker_lem a endpoint c new room = elim (List-cases a.audio_ssrcs) [
    | inl e ↦ absurd (omega (arith, c.total, ap length e))
    | inr (ssrc, rest, e) ↦
        let fits : Maps.size a.audio_ssrc_rewrite_map < a.audio_ssrc_rewrite_map.capacity =
          omega (arith, c.listed.size, c.map_room) in
        rw (e, activate_speaker)
          (
            refl,
            take_tail configured a.audio_ssrc_rewrite_map a.active_audio_list a.max_speakers rest
                endpoint ssrc (rw e at c) new,
            ssrc,
            rw (new, lt→ltb _ _ fits) refl,
          )
  ]

  abbrev pub oldest_speaker : ActiveMediaList → ℕ
  oldest_speaker a = elim a.active_audio_list.items [ [] ↦ 0 | ◌∷◌ x xs ↦ x ]

  -- The speaker that makes room.
  abbrev pub makes_room : ActiveMediaList → ℕ → ℕ → Bool
  makes_room a endpoint k =
      not (Maps.contains a.audio_ssrc_rewrite_map endpoint)
      && Maps.size a.audio_ssrc_rewrite_map == a.max_speakers
      && oldest_speaker a == k

  -- A speaker who becomes active, or is it already, has an SSRC afterwards, and the call reports
  -- whether that is new. Every other speaker keeps its SSRC, but the one who has been active longest
  -- ago when all SSRCs are taken. The SSRCs are accounted for before and after, and there are some.
  pub update_active_audio_list_lem :
      (a : ActiveMediaList) (endpoint : ℕ)
      → IsConsistent configured a
      → 0 < a.max_speakers
      → let (b, changed) = update_active_audio_list a endpoint in
        IsConsistent configured b
        × (Maps.contains b.audio_ssrc_rewrite_map endpoint ≡ true)
        × (changed ≡ not (Maps.contains a.audio_ssrc_rewrite_map endpoint))
        × ((k : ℕ)
            → k ≢ endpoint
            → Maps.find b.audio_ssrc_rewrite_map k
              ≡ (if makes_room a endpoint k then none else Maps.find a.audio_ssrc_rewrite_map k))
  unfolding update_active_audio_list remove find_entry
  update_active_audio_list_lem a endpoint c some_ssrc =
      elim (Option-cases (Maps.find a.audio_ssrc_rewrite_map endpoint)) [
        | inr (ssrc, known) ↦
            let there : is_in endpoint a.active_audio_list.items ≡ true =
              ground (arith, c.listed.mapped endpoint, known) in
            rw (known, there)
              (
                move_last configured a.audio_ssrc_rewrite_map a.active_audio_list a.max_speakers
                    a.audio_ssrcs endpoint c there,
                ground (arith, known),
                ground (arith, known),
                λ k ne. ground (arith, known),
              )
        | inl new ↦ elim (Bool-cases (Maps.size a.audio_ssrc_rewrite_map == a.max_speakers)) [
          | inr room ↦
              let fits : length a.active_audio_list.items < a.max_speakers =
                ground (arith, c.listed.size, c.total, room) in
              let (done, consistent, ssrc, entries) = activate_speaker_lem a endpoint c new fits in
              rw (new, room)
                (
                  consistent,
                  ground (arith, entries),
                  ground (arith, done, new),
                  λ k ne. ground (arith, entries, new, room),
                )
          | inl full ↦ elim (List-cases a.active_audio_list.items) [
            | inl e ↦ absurd (ground (arith, c.listed.size, full, e))
            | inr (x, xs, e) ↦
                let (old, found) =
                  contains-find a.audio_ssrc_rewrite_map x
                    (rw (c.listed.mapped x, e) (ground arith)) in
                let b = dropped a e found in
                let new' : Maps.find b.audio_ssrc_rewrite_map endpoint ≡ none =
                  ground (arith, find-erase x endpoint a.audio_ssrc_rewrite_map.entries, new) in
                let fits : length xs < a.max_speakers =
                  ground (arith, c.listed.size, full, ap length e) in
                let (done, consistent, ssrc, entries) =
                  activate_speaker_lem b endpoint (dropped-IsConsistent a e found c) new' fits in
                rw (new, full, drop_oldest_speaker_lem a e found)
                  (
                    consistent,
                    ground (arith, entries),
                    ground (arith, done, new),
                    λ k ne. ground (
                      arith,
                      entries,
                      new,
                      full,
                      e,
                      find-erase x k a.audio_ssrc_rewrite_map.entries,
                    ),
                  )
          ]
        ]
      ]
