-- ===== src/Active/Audio/Reach.antt =====
-- Every sequence of calls on the audio part of bridge/engine/ActiveMediaList.cpp.
use symphony_media_bridge.Common.{
  ℕ, ◌*◌, ◌≤◌, ◌<◌, ◌≡◌, refl, sym, ◌∙◌, true, none, some, List, [], ◌∷◌, lt→ltb, ==_iff, length,
  arith, Option-cases, inl, inr,
}
use symphony_media_bridge.Common.Maps
use symphony_media_bridge.Common.Maps.{Map, find_entry, erase_entry, find-erase}
use symphony_media_bridge.Common.Values.{
  count-is_distinct, shared_value, find-count_values, is_in, is_distinct,
}
use symphony_media_bridge.Active.State.{
  ActiveMediaList, AudioParticipant, SimulcastGroup, take_groups, new_active_media_list,
  ssrc_array_size,
}
use symphony_media_bridge.Active.Audio.{
  add_audio_participant, remove_audio_participant, update_active_audio_list,
}
use symphony_media_bridge.Active.Audio.Ssrcs.{IsConsistent}
use symphony_media_bridge.Active.Audio.Speakers.{
  on_audio_participant_added-IsConsistent, remove_audio_participant-IsConsistent,
  update_active_audio_list_lem,
}
use symphony_media_bridge.Active.Audio.Frame.{
  on_audio_participant_added-IsFrame, update_active_audio_list-IsFrame,
}

-- The calls. There are at most 2048 participants, and only participants are ranked as speakers.
pub data Step (a b : ActiveMediaList) : Type 0 where
  join :
      (endpoint : ℕ) (p : AudioParticipant)
      → Maps.size a.audio_participants < a.audio_participants.capacity
      → b ≡ (add_audio_participant a endpoint p).0
      → Step a b
  leave : (endpoint : ℕ) → b ≡ (remove_audio_participant a endpoint).0 → Step a b
  speak :
      (endpoint : ℕ)
      → Maps.contains a.audio_participants endpoint ≡ true
      → b ≡ (update_active_audio_list a endpoint).0
      → Step a b

pub data Reach (a : ActiveMediaList) : ActiveMediaList → Type 0 where
  here : Reach a a
  next : {b c : ActiveMediaList} → Reach a b → Step b c → Reach a c

-- Every endpoint with an SSRC is a participant.
abbrev IsKnown : ActiveMediaList → Type 0
IsKnown a =
    (k : ℕ)
    → Maps.contains a.audio_ssrc_rewrite_map k ≡ true
    → Maps.contains a.audio_participants k ≡ true

record IsValid (configured : List ℕ) (a : ActiveMediaList) : Type 0 where
  pub consistent : IsConsistent configured a
  pub known : IsKnown a
  pub most : a.max_speakers ≡ length configured

module _ (configured : List ℕ) (a : ActiveMediaList) (endpoint : ℕ) (v : IsValid configured a) where
  join-IsValid :
      (p : AudioParticipant)
      → Maps.size a.audio_participants < a.audio_participants.capacity
      → IsValid configured (add_audio_participant a endpoint p).0
  unfolding add_audio_participant find_entry
  join-IsValid p room = elim (Option-cases (Maps.find a.audio_participants endpoint)) [
    | inr (q, old) ↦ rw (old, add_audio_participant) v
    | inl absent ↦
        let new : Maps.find a.audio_ssrc_rewrite_map endpoint ≡ none =
          elim (Option-cases (Maps.find a.audio_ssrc_rewrite_map endpoint)) [
            | inl e ↦ e
            | inr (ssrc, e) ↦ absurd (ground (arith, v.known endpoint, e, absent))
          ] in
        let b : ActiveMediaList = record a {
          audio_participants = record (a.audio_participants) {
            entries = (endpoint, p) ∷ a.audio_participants.entries;
          };
        } in
        let (people, most, adds) = on_audio_participant_added-IsFrame b endpoint in
        rw (absent, add_audio_participant, lt→ltb _ _ room)
          (record {
            consistent =
                on_audio_participant_added-IsConsistent configured b endpoint v.consistent new;
            known = λ k h. rw people (elim (adds k h) [
              | inl this ↦ ground (arith, ==_iff endpoint k)
              | inr old ↦ ground (arith, v.known k old)
            ]);
            most = most ∙ v.most;
          })
  ]

  remove-IsKnown : IsKnown (remove_audio_participant a endpoint).0
  unfolding remove_audio_participant
  remove-IsKnown k = elim (Option-cases (Maps.find a.audio_ssrc_rewrite_map endpoint)) [
    | inl e ↦
        rw (e, remove_audio_participant)
          (λ h. ground (
            arith,
            v.known k h,
            find-erase endpoint k a.audio_participants.entries,
            ==_iff endpoint k,
            e,
          ))
    | inr (ssrc, e) ↦
        rw (e, remove_audio_participant)
          (λ h. ground (
            arith,
            v.known k,
            h,
            find-erase endpoint k a.audio_participants.entries,
            find-erase endpoint k a.audio_ssrc_rewrite_map.entries,
          ))
  ]

  remove_most : (remove_audio_participant a endpoint).0.max_speakers ≡ a.max_speakers
  unfolding remove_audio_participant
  remove_most = elim (Option-cases (Maps.find a.audio_ssrc_rewrite_map endpoint)) [
    | inl e ↦ rw (e, remove_audio_participant) refl
    | inr (ssrc, e) ↦ rw (e, remove_audio_participant) refl
  ]

  leave-IsValid : IsValid configured (remove_audio_participant a endpoint).0
  leave-IsValid = record {
    consistent = remove_audio_participant-IsConsistent configured a endpoint v.consistent;
    known = remove-IsKnown;
    most = remove_most ∙ v.most;
  }

  speak-IsValid :
      0 < a.max_speakers
      → Maps.contains a.audio_participants endpoint ≡ true
      → IsValid configured (update_active_audio_list a endpoint).0
  speak-IsValid some_ssrc there =
      let (consistent, has, changed, others) =
        update_active_audio_list_lem configured a endpoint v.consistent some_ssrc in
      let (people, most, adds) = update_active_audio_list-IsFrame a endpoint in
      record {
        consistent = consistent;
        known = λ k h.
            rw people
              (elim (adds k h) [ inl this ↦ rw (sym this) there | inr old ↦ v.known k old ]);
        most = most ∙ v.most;
      }

module _ (configured : List ℕ) where
  take_groups-IsValid :
      (groups : List SimulcastGroup) (a : ActiveMediaList)
      → IsValid configured a
      → IsValid configured (take_groups groups a)
  unfolding take_groups
  take_groups-IsValid [] a v = v
  take_groups-IsValid ([] ∷ gs) a v =
      take_groups-IsValid gs _
        (record { consistent = v.consistent; known = v.known; most = v.most })
  take_groups-IsValid ((p ∷ []) ∷ gs) a v =
      take_groups-IsValid gs _
        (record { consistent = v.consistent; known = v.known; most = v.most })
  take_groups-IsValid ((p ∷ q ∷ ps) ∷ gs) a v =
      take_groups-IsValid gs _
        (record { consistent = v.consistent; known = v.known; most = v.most })

  new-IsValid :
      (groups : List SimulcastGroup) (last_n audio_last_n room : ℕ)
      → length configured ≤ ssrc_array_size * 2
      → length configured ≤ room
      → IsValid configured (new_active_media_list configured groups last_n audio_last_n room)
  unfolding new_active_media_list find_entry
  new-IsValid groups last_n audio_last_n room few fits = take_groups-IsValid groups _ (record {
    consistent = record {
      listed = record { distinct = refl; unique = tt; mapped = λ k. refl; size = refl };
      total = ground arith;
      conserved = λ x. ground arith;
      map_room = few;
      list_room = fits;
    };
    known = λ k h. absurd (ground (arith, h));
    most = refl;
  })

  module _ (some_ssrc : 0 < length configured) where
    Step-IsValid : {a b : ActiveMediaList} → Step a b → IsValid configured a → IsValid configured b
    Step-IsValid {a} (join endpoint p room e) v = rw e (join-IsValid configured a endpoint v p room)
    Step-IsValid {a} (leave endpoint e) v = rw e (leave-IsValid configured a endpoint v)
    Step-IsValid {a} (speak endpoint there e) v =
        rw e (speak-IsValid configured a endpoint v (rw v.most some_ssrc) there)

    Reach-IsValid :
        {a b : ActiveMediaList} → Reach a b → IsValid configured a → IsValid configured b
    Reach-IsValid here v = v
    Reach-IsValid (next r s) v = Step-IsValid s (Reach-IsValid r v)

    -- Whatever the participants do, from a new list on: no two speakers are sent on one SSRC, where
    -- the configured SSRCs differ from each other. A speaker is a participant, its SSRC is a
    -- configured one, and there are never more speakers than SSRCs. There are some SSRCs, at most as
    -- many as the map and the list can hold.
    pub speakers_share_no_ssrc :
        (groups : List SimulcastGroup) (last_n audio_last_n room : ℕ) {b : ActiveMediaList}
        → length configured ≤ ssrc_array_size * 2
        → length configured ≤ room
        → is_distinct configured ≡ true
        → Reach (new_active_media_list configured groups last_n audio_last_n room) b
        → (j k ssrc : ℕ) → Maps.find b.audio_ssrc_rewrite_map j ≡ some ssrc
        → Maps.find b.audio_ssrc_rewrite_map k ≡ some ssrc
        → (j ≡ k)
          × (is_in ssrc configured ≡ true)
          × (Maps.contains b.audio_participants j ≡ true)
          × (Maps.size b.audio_ssrc_rewrite_map ≤ length configured)
    speakers_share_no_ssrc groups last_n audio_last_n room {b} few fits distinct r j k ssrc ej ek =
        let v = Reach-IsValid r (new-IsValid groups last_n audio_last_n room few fits) in
        let c = v.consistent in
        let once = count-is_distinct ssrc configured distinct in
        (
          elim (shared_value j k ssrc b.audio_ssrc_rewrite_map.entries c.listed.unique ej ek) [
            | inl same ↦ same
            | inr twice ↦ absurd (ground (arith, c.conserved ssrc, twice, once))
          ],
          ground (
            arith,
            once,
            c.conserved ssrc,
            find-count_values j ssrc b.audio_ssrc_rewrite_map.entries ej,
          ),
          v.known j (ground (arith, ej)),
          omega (arith, c.listed.size, c.total, v.most),
        )
