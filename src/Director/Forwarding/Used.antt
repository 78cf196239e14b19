-- ===== src/Director/Forwarding/Used.antt =====
-- `isSsrcUsed` against `shouldForwardSsrc`: what the first drops the second would not have sent.
use symphony_media_bridge.Common.{
  ℕ, ◌≤◌, ◌<◌, ◌≡◌, ◌≢◌, ◌⊎◌, inl, inr, Bool, true, false, ◌&&◌, some, List, [], ◌∷◌, ◌==◌, min,
  max, arith, Option-cases, Bool-cases,
}
use symphony_media_bridge.Common.Maps
use symphony_media_bridge.Common.Maps.{find_entry}
use symphony_media_bridge.Director.State.{
  Director, ParticipantStreams, is_ssrc_from_participant, highest_active_quality, highest_active_of,
  high_quality, drop_quality,
}
use symphony_media_bridge.Director.Pins.Counts.{IsConsistent, pins_of}
use symphony_media_bridge.Director.Forwarding.{
  get_quality_level, get_current_quality_and_endpoint_id, assigned_quality, should_forward_ssrc,
  from_pinned_endpoint, wants_unpinned, wants_pinned, is_used_for_unpinned_video,
  is_used_for_pinned_video, highest_available, is_main_ssrc_used, is_ssrc_used, main_ssrc_of,
}
use symphony_media_bridge.Director.Forwarding.Levels.{IsLevel}

wants_unpinned_of_find :
    (quality highest sender j : ℕ) (ps : List (ℕ × ParticipantStreams)) {p : ParticipantStreams}
    → find_entry j ps ≡ some p
    → j ≢ sender
    → quality ≡ min p.unpin_quality_level highest
    → wants_unpinned quality highest sender ps ≡ true
unfolding wants_unpinned find_entry
wants_unpinned_of_find quality highest sender j [] e ne q = cc
wants_unpinned_of_find quality highest sender j ((k, r) ∷ ps) {p} e ne q =
    ground (arith, wants_unpinned_of_find quality highest sender j ps {p = p})

wants_pinned_of_find :
    (d : Director) (quality highest sender j : ℕ) (ps : List (ℕ × ℕ)) {p : ParticipantStreams}
    → find_entry j ps ≡ some sender
    → Maps.find d.participant_streams j ≡ some p
    → j ≢ sender
    → quality ≡ min p.pin_quality_level highest
    → wants_pinned d quality highest sender ps ≡ true
unfolding wants_pinned find_entry
wants_pinned_of_find d quality highest sender j [] e f ne q = cc
wants_pinned_of_find d quality highest sender j ((k, t) ∷ ps) {p} e f ne q =
    ground (arith, wants_pinned_of_find d quality highest sender j ps {p = p})

pins_of_find : (t j : ℕ) (ps : List (ℕ × ℕ)) → find_entry j ps ≡ some t → 0 < pins_of t ps
unfolding find_entry
pins_of_find t j [] e = cc
pins_of_find t j ((k, u) ∷ ps) e = ground (arith, pins_of_find t j ps)

get_quality_level_lem :
    (d : Director) (x : ℕ) → get_quality_level d x ≡ (get_current_quality_and_endpoint_id d x).0
unfolding get_quality_level get_current_quality_and_endpoint_id
get_quality_level_lem d x = ground arith

assigned_quality_le :
    (d : Director) (viewer : ParticipantStreams) (to x : ℕ)
    → viewer.pin_quality_level ≤ drop_quality
    → viewer.unpin_quality_level ≤ drop_quality
    → assigned_quality d viewer to x ≤ drop_quality
unfolding assigned_quality
assigned_quality_le d viewer to x pin_le unpin_le = ground arith

highest_available_of_level :
    (d : Director) (sender i x : ℕ) (recent : Bool) {p : ParticipantStreams}
    → IsLevel d sender p i x
    → (recent ≡ true) ⊎ (i ≤ highest_active_of p x)
    → highest_available d sender x recent ≡ max (highest_active_of p x) i
unfolding highest_available highest_active_quality
highest_available_of_level d sender i x recent l active =
    ground (arith, l.known, l.registered, get_quality_level_lem d x)

-- A forwarded packet has a quality that the viewer's assigned quality asks for.
should_forward_ssrc_quality :
    (d : Director) (to sender i x : ℕ) {viewer p : ParticipantStreams}
    → Maps.find d.participant_streams to ≡ some viewer
    → IsLevel d sender p i x
    → x ≢ d.slides_ssrc
    → highest_active_of p x ≤ high_quality
    → assigned_quality d viewer to x ≤ drop_quality
    → should_forward_ssrc d to x ≡ true
    → (i ≡ min (assigned_quality d viewer to x) (max (highest_active_of p x) i))
      × (assigned_quality d viewer to x ≢ drop_quality)
unfolding should_forward_ssrc highest_active_quality
should_forward_ssrc_quality d to sender i x v l not_slides le2 le3 sent =
    ground (arith, v, l.known, l.registered)

is_used_when_unpinned :
    (d : Director) (i highest sender to : ℕ) {viewer : ParticipantStreams}
    → Maps.find d.participant_streams to ≡ some viewer
    → to ≢ sender
    → i ≢ high_quality
    → i ≡ min viewer.unpin_quality_level highest
    → is_used_for_unpinned_video d i highest sender true ≡ true
unfolding is_used_for_unpinned_video
is_used_when_unpinned d i highest sender to v ne low e =
    ground (arith, wants_unpinned_of_find i highest sender to d.participant_streams.entries v ne e)

is_used_when_pinned :
    (d : Director) (i highest sender to : ℕ) {viewer : ParticipantStreams}
    → IsConsistent d
    → sender ≢ 0
    → Maps.find d.participant_streams to ≡ some viewer
    → Maps.find d.pin_map to ≡ some sender
    → to ≢ sender
    → i ≡ min viewer.pin_quality_level highest
    → is_used_for_pinned_video d i highest sender ≡ true
unfolding is_used_for_pinned_video
is_used_when_pinned d i highest sender to c nz v pinned ne e = ground (
  arith,
  c.counted sender nz,
  pins_of_find sender to d.pin_map.entries pinned,
  wants_pinned_of_find d i highest sender to d.pin_map.entries pinned v ne e,
)

-- The viewer's quality is that of its pin, with the sender pinned, or its unpinned quality.
assigned_quality-cases :
    (d : Director) (viewer : ParticipantStreams) (to sender x : ℕ)
    → ((t : ℕ) → is_ssrc_from_participant d t x ≡ true → t ≡ sender)
    → ((Maps.find d.pin_map to ≡ some sender)
        × (assigned_quality d viewer to x ≡ viewer.pin_quality_level))
      ⊎ (((from_pinned_endpoint d to x && d.slides_bitrate_kbps == 0) ≡ false)
          × (assigned_quality d viewer to x ≡ viewer.unpin_quality_level))
unfolding assigned_quality from_pinned_endpoint
assigned_quality-cases d viewer to sender x only = elim (Option-cases (Maps.find d.pin_map to)) [
  | inl e ↦ inr (ground (arith, e), ground (arith, e))
  | inr (t, e) ↦ elim (Bool-cases (is_ssrc_from_participant d t x)) [
    | inl own ↦ elim (Bool-cases (d.slides_bitrate_kbps == 0)) [
      | inl idle ↦ inl (rw (← only t own) e, ground (arith, e, own, idle))
      | inr busy ↦ inr (ground (arith, e, own, busy), ground (arith, e, own, busy))
    ]
    | inr other ↦ inr (ground (arith, e, other), ground (arith, e, other))
  ]
]

-- A video packet that some viewer is to be sent is not dropped when it arrives: if
-- `shouldForwardSsrc` holds for another endpoint, then `isSsrcUsed` holds for the sender, under
-- these conditions. Either the sender is in the last-N list and this viewer's unpinned quality is
-- not the high one, or the viewer pins the endpoint of the SSRC while no slides are sent. The SSRC
-- had recent activity, or its level is not above the highest active one. It is a main SSRC of this
-- sender alone and not that of the slides, and the pin counts are right.
pub is_ssrc_used_of_forwarded :
    (d : Director) (to sender i x recordings : ℕ) (recent in_last_n : Bool)
    {viewer p : ParticipantStreams}
    → IsConsistent d
    → Maps.find d.participant_streams to ≡ some viewer
    → viewer.pin_quality_level ≤ drop_quality
    → viewer.unpin_quality_level ≤ drop_quality
    → ((in_last_n ≡ true) × (viewer.unpin_quality_level ≢ high_quality))
      ⊎ ((from_pinned_endpoint d to x && d.slides_bitrate_kbps == 0) ≡ true)
    → (recent ≡ true) ⊎ (i ≤ highest_active_of p x)
    → IsLevel d sender p i x
    → main_ssrc_of p x ≡ x
    → highest_active_of p x ≤ high_quality
    → ((t : ℕ) → is_ssrc_from_participant d t x ≡ true → t ≡ sender)
    → sender ≢ 0
    → to ≢ sender
    → x ≢ d.slides_ssrc
    → should_forward_ssrc d to x ≡ true
    → is_ssrc_used d x sender recent in_last_n recordings ≡ true
unfolding is_ssrc_used is_main_ssrc_used
is_ssrc_used_of_forwarded d to sender i x recordings recent in_last_n {viewer} {p} c v pin_le
      unpin_le viewed active l main le2 only nz ne not_slides sent =
    let wanted =
      should_forward_ssrc_quality d to sender i x v l not_slides le2
        (assigned_quality_le d viewer to x pin_le unpin_le) sent in
    let available = highest_available_of_level d sender i x recent l active in
    let level = get_quality_level_lem d x in
    elim (assigned_quality-cases d viewer to sender x only) [
      | inl (pinned, e) ↦ ground (
        arith,
        l.known,
        l.registered,
        main,
        level,
        available,
        wanted,
        is_used_when_pinned d i (max (highest_active_of p x) i) sender to c nz v pinned ne
            (omega (arith, wanted.0, e)),
      )
      | inr (unpinned, e) ↦ elim viewed [
        | inr pinned ↦ ground (arith, unpinned, pinned)
        | inl (listed, low) ↦ ground (
          arith,
          l.known,
          l.registered,
          main,
          level,
          available,
          wanted,
          listed,
          is_used_when_unpinned d i (max (highest_active_of p x) i) sender to v ne
              (omega (arith, wanted, e)) (omega (arith, wanted.0, e)),
        )
      ]
    ]
