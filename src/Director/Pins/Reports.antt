-- ===== src/Director/Pins/Reports.antt =====
-- What `isPinned` of bridge/engine/EngineStreamDirector.h reports, and what `removeParticipantPins`
-- keeps.
use symphony_media_bridge.Common.{
  ℕ, ◌<◌, ◌≡◌, ◌≢◌, refl, ap, true, false, none, some, List, [], ◌∷◌, if◌then◌else◌, ◌==◌, ==_iff,
  arith, Bool-cases, Option-cases, inl, inr,
}
use symphony_media_bridge.Common.Maps
use symphony_media_bridge.Common.Maps.{
  Map, find_entry, erase_entry, find-erase, length-erase_lt, erase_absent,
}
use symphony_media_bridge.Director.State.{Director}
use symphony_media_bridge.Director.Pins.{
  drop_pin_count, get_pin_target, is_pinned, unpin_old_target, pin, erase_targets,
  remove_participant_pins,
}
use symphony_media_bridge.Director.Pins.Counts.{pins_of, count_of, IsConsistent}
use symphony_media_bridge.Common.Values.{count_values-erase}

-- Where the counts are those of the pins, an endpoint, other than 0, that has a pin is one that
-- `isPinned` reports.
is_pinned_of_pins :
    (d : Director) (t : ℕ)
    → IsConsistent d
    → t ≢ 0
    → 0 < pins_of t d.pin_map.entries
    → is_pinned d t ≡ true
unfolding is_pinned
is_pinned_of_pins d t v nz some_pin = ground (arith, v.counted t nz)

-- The other way round it does not hold. Where the counts are those of the pins and the only
-- endpoint that pins `t` unpins it, no pin of `t` is left, and `isPinned` still reports it, since
-- a count of 0 is stored again. The target `t` is not 0.
is_pinned_after_last_unpin :
    (d : Director) (endpoint t : ℕ)
    → IsConsistent d
    → t ≢ 0
    → Maps.find d.pin_map endpoint ≡ some t
    → pins_of t d.pin_map.entries ≡ 1
    → (pins_of t (pin d endpoint 0).0.pin_map.entries ≡ 0)
      × (is_pinned (pin d endpoint 0).0 t ≡ true)
unfolding pin unpin_old_target is_pinned drop_pin_count find_entry
is_pinned_after_last_unpin d endpoint t v nz e only =
    elim (Option-cases (Maps.find d.reverse_pin_map t)) [
      | inl absent ↦ absurd (omega (arith, v.counted t nz, ap count_of absent))
      | inr (c, f) ↦ ground (
        arith,
        f,
        e,
        v.counted t nz,
        v.room,
        count_values-erase t endpoint d.pin_map.entries v.unique,
        find-erase t t d.reverse_pin_map.entries,
        length-erase_lt t d.reverse_pin_map.entries f,
      )
    ]

-- The loop over the pins erases nothing, since the only key that it erases is gone already.
erase_targets_lem :
    (endpoint : ℕ) (es : List (ℕ × ℕ)) (m : Map ℕ)
    → Maps.find m endpoint ≡ none
    → erase_targets endpoint es m ≡ m
unfolding erase_targets
erase_targets_lem endpoint [] m gone = refl
erase_targets_lem endpoint ((i, t) ∷ es) m gone = elim (Bool-cases (t == endpoint)) [
  | inl same ↦
      rw (same, (==_iff t endpoint).0 same, erase_absent endpoint m.entries gone)
        (erase_targets_lem endpoint es m gone)
  | inr other ↦ rw other (erase_targets_lem endpoint es m gone)
]

pin_map-remove_participant_pins :
    (d : Director) (endpoint : ℕ)
    → (remove_participant_pins d endpoint).pin_map ≡ Maps.erase d.pin_map endpoint
unfolding remove_participant_pins
pin_map-remove_participant_pins d endpoint =
    erase_targets_lem endpoint (Maps.erase d.pin_map endpoint).entries
      (Maps.erase d.pin_map endpoint)
      (ground (arith, find-erase endpoint endpoint d.pin_map.entries))

is_pinned-remove :
    (d : Director) (endpoint : ℕ) → is_pinned (remove_participant_pins d endpoint) endpoint ≡ false
unfolding is_pinned remove_participant_pins
is_pinned-remove d endpoint = rw (find-erase endpoint endpoint _) (ground arith)

-- `removeParticipantPins` removes the pin of the endpoint and the count of the pins of it. It keeps
-- the pin of every other endpoint, also where the removed endpoint is the target.
remove_participant_pins_lem :
    (d : Director) (endpoint j : ℕ)
    → (get_pin_target (remove_participant_pins d endpoint) j
        ≡ (if endpoint == j then 0 else get_pin_target d j))
      × (is_pinned (remove_participant_pins d endpoint) endpoint ≡ false)
unfolding get_pin_target
remove_participant_pins_lem d endpoint j = (
  ground
      (arith, pin_map-remove_participant_pins d endpoint, find-erase endpoint j d.pin_map.entries),
  is_pinned-remove d endpoint,
)
