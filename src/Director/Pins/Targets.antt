-- ===== src/Director/Pins/Targets.antt =====
-- What `pin` of bridge/engine/EngineStreamDirector.h does to the pins and their counts.
use symphony_media_bridge.Common.{
  ℕ, ◌≤◌, ◌<◌, ◌≡◌, ◌≢◌, none, if◌then◌else◌, ◌==◌, arith, Bool-cases, Option-cases, inl, inr,
}
use symphony_media_bridge.Common.Maps
use symphony_media_bridge.Common.Maps.{
  Map, find_entry, erase_entry, find-erase, length-erase_lt, erase_absent,
}
use symphony_media_bridge.Director.State.{Director}
use symphony_media_bridge.Director.Pins.{add_pin_count, get_pin_target, unpin_old_target, pin}
use symphony_media_bridge.Director.Pins.Counts.{
  pins_of, count_of, find-drop_pin_count, capacity-drop_pin_count, size-drop_pin_count_le,
  find-add_pin_count, size-add_pin_count_le, IsConsistent,
}
use symphony_media_bridge.Common.Values.{IsUnique, erase-IsUnique, count_values-erase}

module _ (d : Director) (endpoint target : ℕ) (v : IsConsistent d) where
  -- Every target but 0 that is given up is counted down.
  unpin-counted :
      (t : ℕ)
      → t ≢ 0
      → count_of (Maps.find (unpin_old_target d endpoint target).0.reverse_pin_map t)
        ≡ pins_of t (unpin_old_target d endpoint target).0.pin_map.entries
  unfolding unpin_old_target
  unpin-counted t nz = elim (Option-cases (Maps.find d.pin_map endpoint)) [
    | inl e ↦ ground (arith, e, v.counted t nz)
    | inr (old, e) ↦ ground (
      arith,
      e,
      v.counted t nz,
      count_values-erase t endpoint d.pin_map.entries v.unique,
      find-drop_pin_count d.reverse_pin_map old t v.room,
    )
  ]

  unpin-IsConsistent : IsConsistent (unpin_old_target d endpoint target).0
  unpin-IsConsistent = record { unique = unique'; room = room'; counted = unpin-counted }
    where
      unique' : IsUnique (unpin_old_target d endpoint target).0.pin_map.entries
      unique' =
          unfold unpin_old_target in
          ground (arith, v.unique, erase-IsUnique endpoint d.pin_map.entries)

      room' :
          Maps.size (unpin_old_target d endpoint target).0.reverse_pin_map
          ≤ (unpin_old_target d endpoint target).0.reverse_pin_map.capacity
      room' =
          unfold unpin_old_target in
          elim (Option-cases (Maps.find d.pin_map endpoint)) [
            | inl e ↦ ground (arith, e, v.room)
            | inr (old, e) ↦ ground (
              arith,
              e,
              v.room,
              capacity-drop_pin_count d.reverse_pin_map old,
              size-drop_pin_count_le d.reverse_pin_map old,
            )
          ]

-- What `pin` needs of the state that `unpinOldTarget` leaves.
unpin_frees :
    (d : Director) (endpoint target : ℕ)
    → (unpin_old_target d endpoint target).1 ≢ target
    → target ≢ 0
    → (Maps.find (unpin_old_target d endpoint target).0.pin_map endpoint ≡ none)
      × (Maps.size (unpin_old_target d endpoint target).0.pin_map ≤ Maps.size d.pin_map)
      × ((unpin_old_target d endpoint target).0.pin_map.capacity ≡ d.pin_map.capacity)
      × (Maps.size (unpin_old_target d endpoint target).0.reverse_pin_map
          ≤ Maps.size d.reverse_pin_map)
      × ((unpin_old_target d endpoint target).0.reverse_pin_map.capacity
          ≡ d.reverse_pin_map.capacity)
unfolding unpin_old_target
unpin_frees d endpoint target ne nz = elim (Option-cases (Maps.find d.pin_map endpoint)) [
  | inl e ↦ ground (arith, e)
  | inr (old, e) ↦ ground (
    arith,
    e,
    find-erase endpoint endpoint d.pin_map.entries,
    length-erase_lt endpoint d.pin_map.entries e,
    capacity-drop_pin_count d.reverse_pin_map old,
    size-drop_pin_count_le d.reverse_pin_map old,
  )
]

-- The last step of `pin`, on a state where the endpoint has no pin.
add_pin : Director → ℕ → ℕ → Director
add_pin d endpoint target = record d {
  reverse_pin_map = add_pin_count d.reverse_pin_map target;
  pin_map = Maps.emplace d.pin_map endpoint target;
}

capacity-add_pin_count : (m : Map ℕ) (t : ℕ) → (add_pin_count m t).capacity ≡ m.capacity
unfolding add_pin_count
capacity-add_pin_count m t = ground arith

add_pin-IsConsistent :
    (d : Director) (endpoint target : ℕ)
    → IsConsistent d
    → Maps.find d.pin_map endpoint ≡ none
    → Maps.size d.pin_map < d.pin_map.capacity
    → Maps.size d.reverse_pin_map < d.reverse_pin_map.capacity
    → IsConsistent (add_pin d endpoint target)
unfolding add_pin
add_pin-IsConsistent d endpoint target v absent pin_room count_room = record {
  unique = ground (arith, v.unique);
  room = ground (
    arith,
    capacity-add_pin_count d.reverse_pin_map target,
    size-add_pin_count_le d.reverse_pin_map target,
  );
  counted = λ t nz. ground (arith, v.counted t nz, find-add_pin_count d.reverse_pin_map target t);
}

-- `pin` keeps the count of each target equal to the number of endpoints that pin it, whatever the
-- endpoint had pinned before and with target 0 to unpin, where both maps have a free entry.
pub pin-IsConsistent :
    (d : Director) (endpoint target : ℕ)
    → IsConsistent d
    → Maps.size d.pin_map < d.pin_map.capacity
    → Maps.size d.reverse_pin_map < d.reverse_pin_map.capacity
    → IsConsistent (pin d endpoint target).0
unfolding pin add_pin
pin-IsConsistent d endpoint target v pin_room count_room =
    elim (Bool-cases ((unpin_old_target d endpoint target).1 == target)) [
      | inl same ↦ rw same kept
      | inr other ↦ elim (Bool-cases (target == 0)) [
        | inl zero_target ↦ rw (other, zero_target) kept
        | inr real ↦ rw (other, real) (added (ground arith) (ground arith))
      ]
    ]
  where
    kept : IsConsistent (unpin_old_target d endpoint target).0
    kept = unpin-IsConsistent d endpoint target v

    added :
        (unpin_old_target d endpoint target).1 ≢ target
        → target ≢ 0
        → IsConsistent (add_pin (unpin_old_target d endpoint target).0 endpoint target)
    added ne nz =
        let free = unpin_frees d endpoint target ne nz in
        add_pin-IsConsistent _ endpoint target kept free.0 (omega (arith, free))
          (omega (arith, free))

-- After `pin` the endpoint's target is the new one and that of every other endpoint is unchanged,
-- and the call returns the target that the endpoint had, where the counts are those of the pins
-- and the map of pins has a free entry.
get_pin_target-pin :
    (d : Director) (endpoint target j : ℕ)
    → IsConsistent d
    → Maps.size d.pin_map < d.pin_map.capacity
    → (get_pin_target (pin d endpoint target).0 j
        ≡ (if endpoint == j then target else get_pin_target d j))
      × ((pin d endpoint target).1 ≡ get_pin_target d endpoint)
unfolding pin unpin_old_target get_pin_target find_entry
get_pin_target-pin d endpoint target j v room = elim (Option-cases (Maps.find d.pin_map endpoint)) [
  | inl e ↦ ground (arith, e)
  | inr (old, e) ↦ ground (
    arith,
    e,
    find-erase endpoint j d.pin_map.entries,
    find-erase endpoint endpoint d.pin_map.entries,
    length-erase_lt endpoint d.pin_map.entries e,
  )
]
