-- ===== src/Active/Audio/Frame.antt =====
-- What the calls on the audio part of bridge/engine/ActiveMediaList.cpp leave alone.
use symphony_media_bridge.Common.{
  ℕ, ◌≡◌, refl, ◌∙◌, true, ◌==◌, ==_iff, arith, Bool-cases, Option-cases, List-cases, inl, inr, ◌⊎◌,
}
use symphony_media_bridge.Common.Maps
use symphony_media_bridge.Common.Maps.{Map, find_entry, erase_entry, find-erase}
use symphony_media_bridge.Active.Entries.{remove, pop_from_head}
use symphony_media_bridge.Active.State.{ActiveMediaList}
use symphony_media_bridge.Active.Audio.{
  on_audio_participant_added, drop_oldest_speaker, activate_speaker, update_active_audio_list,
}

contains-emplace :
    (m : Map ℕ) (endpoint ssrc k : ℕ)
    → Maps.contains (Maps.emplace m endpoint ssrc) k ≡ true
    → (endpoint ≡ k) ⊎ (Maps.contains m k ≡ true)
unfolding find_entry
contains-emplace m endpoint ssrc k h = ground (arith, ==_iff endpoint k)

contains-erase :
    (m : Map ℕ) (x k : ℕ) → Maps.contains (Maps.erase m x) k ≡ true → Maps.contains m k ≡ true
contains-erase m x k h = ground (arith, find-erase x k m.entries)

-- A call leaves the participants alone, and gives an SSRC to nobody but its endpoint.
abbrev pub IsFrame : ActiveMediaList → ℕ → ActiveMediaList → Type 0
IsFrame a endpoint b =
    (b.audio_participants ≡ a.audio_participants)
    × (b.max_speakers ≡ a.max_speakers)
    × ((k : ℕ)
        → Maps.contains b.audio_ssrc_rewrite_map k ≡ true
        → (endpoint ≡ k) ⊎ (Maps.contains a.audio_ssrc_rewrite_map k ≡ true))

module _ (a : ActiveMediaList) (endpoint : ℕ) where
  pub on_audio_participant_added-IsFrame :
      IsFrame a endpoint (on_audio_participant_added a endpoint).0
  unfolding on_audio_participant_added
  on_audio_participant_added-IsFrame = elim (List-cases a.audio_ssrcs) [
    | inl e ↦ rw (e, on_audio_participant_added) (refl, refl, λ k h. inr h)
    | inr (ssrc, rest, e) ↦
        rw (e, on_audio_participant_added)
          (refl, refl, λ k h. contains-emplace a.audio_ssrc_rewrite_map endpoint ssrc k h)
  ]

  activate_speaker-IsFrame : IsFrame a endpoint (activate_speaker a endpoint).0
  unfolding activate_speaker
  activate_speaker-IsFrame = elim (List-cases a.audio_ssrcs) [
    | inl e ↦ rw (e, activate_speaker) (refl, refl, λ k h. inr h)
    | inr (ssrc, rest, e) ↦
        rw (e, activate_speaker)
          (refl, refl, λ k h. contains-emplace a.audio_ssrc_rewrite_map endpoint ssrc k h)
  ]

  drop_oldest_speaker-IsFrame : IsFrame a endpoint (drop_oldest_speaker a).0
  unfolding drop_oldest_speaker
  drop_oldest_speaker-IsFrame = elim (Option-cases ((pop_from_head a.active_audio_list).1)) [
    | inl e ↦ rw (e, drop_oldest_speaker) (refl, refl, λ k h. inr h)
    | inr (x, e) ↦ elim (Option-cases (Maps.find a.audio_ssrc_rewrite_map x)) [
      | inl none_found ↦ rw (e, none_found, drop_oldest_speaker) (refl, refl, λ k h. inr h)
      | inr (ssrc, found) ↦
          rw (e, found, drop_oldest_speaker)
            (refl, refl, λ k h. inr (contains-erase a.audio_ssrc_rewrite_map x k h))
    ]
  ]

module _ (a : ActiveMediaList) (endpoint : ℕ) where
  pub update_active_audio_list-IsFrame : IsFrame a endpoint (update_active_audio_list a endpoint).0
  unfolding update_active_audio_list
  update_active_audio_list-IsFrame =
      elim (Bool-cases (Maps.contains a.audio_ssrc_rewrite_map endpoint)) [
        | inl known ↦ elim (Bool-cases ((remove a.active_audio_list endpoint).1)) [
          | inl removed ↦ rw (known, removed) (refl, refl, λ k h. inr h)
          | inr kept ↦ rw (known, kept) (refl, refl, λ k h. inr h)
        ]
        | inr new ↦ elim (Bool-cases (Maps.size a.audio_ssrc_rewrite_map == a.max_speakers)) [
          | inr room ↦ rw (new, room) (activate_speaker-IsFrame a endpoint)
          | inl full ↦
              let b = (drop_oldest_speaker a).0 in
              let (people, most, adds) = drop_oldest_speaker-IsFrame a endpoint in
              elim (Bool-cases ((drop_oldest_speaker a).1)) [
                | inr failed ↦ rw (new, full, failed) (people, most, adds)
                | inl dropped ↦
                    let (people', most', adds') = activate_speaker-IsFrame b endpoint in
                    rw (new, full, dropped)
                      (
                        people' ∙ people,
                        most' ∙ most,
                        λ k h. elim (adds' k h) [ inl this ↦ inl this | inr other ↦ adds k other ],
                      )
              ]
        ]
      ]
