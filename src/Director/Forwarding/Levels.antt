-- ===== src/Director/Forwarding/Levels.antt =====
-- Which simulcast levels of a sender `shouldForwardSsrc` lets through to a viewer.
use symphony_media_bridge.Common.{
  ℕ, ◌≤◌, ◌<◌, ◌≡◌, ◌≢◌, take, zero, suc, true, false, some, List, [], ◌∷◌, if◌then◌else◌, ◌&&◌,
  ltb, ◌==◌, min, arith, inl, inr, Option-cases, Bool-cases,
}
use symphony_media_bridge.Common.Maps
use symphony_media_bridge.Director.Streams.{SimulcastStream, has_ssrc, max_levels}
use symphony_media_bridge.Director.State.{
  Director, ParticipantStreams, QualityLevel, ssrc_of_streams, is_ssrc_from_participant,
  highest_active_quality, highest_active_of, high_quality, drop_quality,
}
use symphony_media_bridge.Director.Pins.{get_pin_target}
use symphony_media_bridge.Director.Forwarding.{
  get_current_quality_and_endpoint_id, from_pinned_endpoint, assigned_quality, should_forward_ssrc,
}

-- The SSRC is registered as level `i` of the endpoint `sender`, whose stream has it.
pub record IsLevel (d : Director) (sender : ℕ) (p : ParticipantStreams) (i x : ℕ) : Type 0 where
  pub known : Maps.find d.participant_streams sender ≡ some p
  pub registered :
      get_current_quality_and_endpoint_id d x ≡ (i, if i == high_quality then 0 else sender)

unfoldable pub ssrc_of_level : SimulcastStream → ℕ → ℕ
ssrc_of_level s i =
    if i == 0 then s.level0.ssrc else if i == 1 then s.level1.ssrc else s.level2.ssrc

-- The SSRCs of the levels up to the highest active one.
unfoldable pub active_ssrcs : SimulcastStream → List ℕ
active_ssrcs s =
    ssrc_of_level s 0
    ∷ (if ltb 0 s.highest_active_level
        then ssrc_of_level s 1
          ∷ (if ltb 1 s.highest_active_level then ssrc_of_level s 2 ∷ [] else [])
        else [])

-- Of packets with these SSRCs, those that are sent to the viewer.
unfoldable pub forwarded : Director → ℕ → List ℕ → List ℕ
forwarded d to [] = []
forwarded d to (x ∷ xs) =
    let rest = forwarded d to xs in if should_forward_ssrc d to x then x ∷ rest else rest

-- The quality that a viewer has for a sender: that of a pin while no slides are sent.
unfoldable pub quality_for : Director → ℕ → ParticipantStreams → ℕ → QualityLevel
quality_for d to viewer sender =
    if get_pin_target d to == sender && d.slides_bitrate_kbps == 0
    then viewer.pin_quality_level
    else viewer.unpin_quality_level

forward_level :
    (d : Director) (to sender i x : ℕ) {viewer p : ParticipantStreams}
    → Maps.find d.participant_streams to ≡ some viewer
    → IsLevel d sender p i x
    → is_ssrc_from_participant d to x ≡ false
    → x ≢ d.slides_ssrc
    → i ≤ highest_active_of p x
    → highest_active_of p x ≤ high_quality
    → assigned_quality d viewer to x ≤ drop_quality
    → should_forward_ssrc d to x ≡ (
        if assigned_quality d viewer to x == drop_quality
        then false
        else i == min (assigned_quality d viewer to x) (highest_active_of p x))
unfolding should_forward_ssrc highest_active_quality
forward_level d to sender i x v l own not_slides le le2 le3 =
    ground (arith, v, l.known, l.registered, own)

has_level_ssrc :
    (s : SimulcastStream) (n i : ℕ)
    → i < n
    → i ≤ high_quality
    → has_ssrc
        (ssrc_of_level s i)
        (take (if ltb max_levels n then max_levels else n) (s.level0 ∷ s.level1 ∷ s.level2 ∷ []))
      ≡ true
unfolding has_ssrc ssrc_of_level
has_level_ssrc s zero i lt le = ground arith
has_level_ssrc s (suc zero) i lt le = ground arith
has_level_ssrc s (suc (suc zero)) i lt le = ground arith
has_level_ssrc s (suc (suc (suc zero))) i lt le = ground arith
has_level_ssrc s (suc (suc (suc (suc n)))) i lt le = ground arith

level_of_sender :
    (d : Director) (sender i : ℕ) {p : ParticipantStreams}
    → Maps.find d.participant_streams sender ≡ some p
    → p.primary.highest_active_level < p.primary.num_levels
    → i ≤ p.primary.highest_active_level
    → i ≤ high_quality
    → is_ssrc_from_participant d sender (ssrc_of_level p.primary i) ≡ true
unfolding is_ssrc_from_participant ssrc_of_streams
level_of_sender d sender i {p} known room le le2 =
    ground (arith, known, has_level_ssrc p.primary p.primary.num_levels i (omega arith) le2)

assigned_quality_of_sender :
    (d : Director) (to sender x : ℕ) (viewer : ParticipantStreams)
    → is_ssrc_from_participant d sender x ≡ true
    → ((t : ℕ) → is_ssrc_from_participant d t x ≡ true → t ≡ sender)
    → sender ≢ 0
    → assigned_quality d viewer to x ≡ quality_for d to viewer sender
unfolding assigned_quality from_pinned_endpoint quality_for get_pin_target
assigned_quality_of_sender d to sender x viewer owns only nz =
    elim (Option-cases (Maps.find d.pin_map to)) [
      | inl e ↦ ground (arith, e)
      | inr (t, e) ↦ elim (Bool-cases (is_ssrc_from_participant d t x)) [
        | inl own ↦ ground (arith, e, own, only t own)
        | inr other ↦ ground (arith, e, other, owns)
      ]
    ]

highest_active_of_level :
    (p : ParticipantStreams) (i : ℕ)
    → highest_active_of p (ssrc_of_level p.primary i) ≡ p.primary.highest_active_level
unfolding highest_active_of ssrc_of_level
highest_active_of_level p i = ground arith

forward_level_of_stream :
    (d : Director) (to sender i : ℕ) {viewer p : ParticipantStreams}
    → Maps.find d.participant_streams to ≡ some viewer
    → IsLevel d sender p i (ssrc_of_level p.primary i)
    → ((t : ℕ) → is_ssrc_from_participant d t (ssrc_of_level p.primary i) ≡ true → t ≡ sender)
    → ssrc_of_level p.primary i ≢ d.slides_ssrc
    → to ≢ sender
    → sender ≢ 0
    → p.primary.highest_active_level < p.primary.num_levels
    → p.primary.highest_active_level ≤ high_quality
    → viewer.pin_quality_level ≤ drop_quality
    → viewer.unpin_quality_level ≤ drop_quality
    → i ≤ p.primary.highest_active_level
    → should_forward_ssrc d to (ssrc_of_level p.primary i) ≡ (
        if quality_for d to viewer sender == drop_quality
        then false
        else i == min (quality_for d to viewer sender) p.primary.highest_active_level)
unfolding quality_for
forward_level_of_stream d to sender i {viewer} {p} v l only not_slides ne nz room le2 pin_le
      unpin_le le =
    let x : ℕ = ssrc_of_level p.primary i in
    let highest = highest_active_of_level p i in
    let assigned =
      assigned_quality_of_sender d to sender x viewer
        (level_of_sender d sender i l.known room le (omega arith)) only nz in
    elim (Bool-cases (is_ssrc_from_participant d to x)) [
      | inl own ↦ absurd (ne (only to own))
      | inr other ↦
          rw (assigned, highest) at
            (forward_level d to sender i x v l other not_slides (omega (arith, highest))
              (omega (arith, highest)) (ground (arith, assigned)))
    ]

-- A viewer gets exactly one of the active levels of a sender's primary stream, the lower of the
-- highest active one and of the viewer's quality for the sender, and none of them if that quality
-- is `drop`. The quality is that of a pin if the viewer pins the sender and no slides are sent.
-- The levels up to the highest active one are registered as such, belong to the sender alone, and
-- are not the slides; the sender is not the viewer, and its highest active level is one of those
-- that the stream has.
pub should_forward_ssrc_level :
    (d : Director) (to sender : ℕ) {viewer p : ParticipantStreams}
    → Maps.find d.participant_streams to ≡ some viewer
    → ((i : ℕ)
        → i ≤ p.primary.highest_active_level
        → IsLevel d sender p i (ssrc_of_level p.primary i))
    → ((i t : ℕ)
        → i ≤ p.primary.highest_active_level
        → is_ssrc_from_participant d t (ssrc_of_level p.primary i) ≡ true
        → t ≡ sender)
    → ((i : ℕ) → i ≤ p.primary.highest_active_level → ssrc_of_level p.primary i ≢ d.slides_ssrc)
    → to ≢ sender
    → sender ≢ 0
    → p.primary.highest_active_level < p.primary.num_levels
    → p.primary.highest_active_level ≤ high_quality
    → viewer.pin_quality_level ≤ drop_quality
    → viewer.unpin_quality_level ≤ drop_quality
    → forwarded d to (active_ssrcs p.primary) ≡ (
        if quality_for d to viewer sender == drop_quality
        then []
        else ssrc_of_level p.primary
            (min (quality_for d to viewer sender) p.primary.highest_active_level)
          ∷ [])
unfolding forwarded active_ssrcs
should_forward_ssrc_level d to sender {viewer} {p} v l only not_slides ne nz room le2 pin_le
      unpin_le =
    let level = λ (i : ℕ) (le : i ≤ p.primary.highest_active_level).
      forward_level_of_stream d to sender i v (l i le) (λ t. only i t le) (not_slides i le) ne nz
        room le2 pin_le unpin_le le in
    ground (arith, level 0 (omega arith), level 1, level 2)
