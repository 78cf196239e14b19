-- ===== src/Director/Pins.antt =====
-- Pinning in bridge/engine/EngineStreamDirector.h: `pin`, `unpinOldTarget`, `getPinTarget`,
-- `isPinned` and `removeParticipantPins`. An endpoint hash of 0 stands for no target.
pub mod Counts
pub mod Targets
pub mod Reports
use symphony_media_bridge.Common.{
  ℕ, ◌+◌, ◌-◌, Bool, Option, none, some, List, [], ◌∷◌, if◌then◌else◌, ltb, ◌==◌,
}
use symphony_media_bridge.Common.Maps
use symphony_media_bridge.Common.Maps.{Map}
use symphony_media_bridge.Director.State.{Director}

-- One pin of `target` is taken back; a count of 0 is stored again if there was a positive one.
unfoldable pub drop_pin_count : Map ℕ → ℕ → Map ℕ
drop_pin_count m target = elim (Maps.find m target) [
  | none ↦ m
  | some count ↦
      let m' = Maps.erase m target in if ltb 0 count then Maps.emplace m' target (count - 1) else m'
]

unfoldable pub add_pin_count : Map ℕ → ℕ → Map ℕ
add_pin_count m target = elim (Maps.find m target) [
  | none ↦ Maps.emplace m target 1
  | some count ↦ Maps.emplace (Maps.erase m target) target (count + 1)
]

unfoldable pub get_pin_target : Director → ℕ → ℕ
get_pin_target d endpoint = elim (Maps.find d.pin_map endpoint) [ none ↦ 0 | some t ↦ t ]

unfoldable pub is_pinned : Director → ℕ → Bool
is_pinned d endpoint = Maps.contains d.reverse_pin_map endpoint

unfoldable pub unpin_old_target : Director → ℕ → ℕ → Director × ℕ
unfolding drop_pin_count
unpin_old_target d endpoint target = elim (Maps.find d.pin_map endpoint) [
  | none ↦ (d, 0)
  | some old ↦
      if old == target
      then (d, old)
      else if old == 0
      then (record d { pin_map = Maps.erase d.pin_map endpoint }, 0)
      else (
        record d {
          pin_map = Maps.erase d.pin_map endpoint;
          reverse_pin_map = drop_pin_count d.reverse_pin_map old;
        },
        old,
      )
]

unfoldable pub pin : Director → ℕ → ℕ → Director × ℕ
pin d endpoint target =
    let (d', old) = unpin_old_target d endpoint target in
    if old == target then (d', old) else if target == 0 then (d', old) else (
      record d' {
        reverse_pin_map = add_pin_count d'.reverse_pin_map target;
        pin_map = Maps.emplace d'.pin_map endpoint target;
      },
      old,
    )

-- The loop over the pins erases, for each entry whose target is `endpoint`, the key that equals
-- that target. An erased entry is passed over by the iterator, and erasing the key twice is
-- erasing it once.
unfoldable pub erase_targets : ℕ → List (ℕ × ℕ) → Map ℕ → Map ℕ
erase_targets endpoint [] m = m
erase_targets endpoint ((j, t) ∷ es) m =
    erase_targets endpoint es (if t == endpoint then Maps.erase m t else m)

unfoldable pub remove_participant_pins : Director → ℕ → Director
unfolding drop_pin_count erase_targets
remove_participant_pins d endpoint =
    let target : ℕ = elim (Maps.find d.pin_map endpoint) [ none ↦ 0 | some t ↦ t ] in
    let counts =
      if target == 0 then d.reverse_pin_map else drop_pin_count d.reverse_pin_map target in
    let pins = Maps.erase d.pin_map endpoint in
    record d {
      pin_map = erase_targets endpoint pins.entries pins;
      reverse_pin_map = Maps.erase counts endpoint;
    }
