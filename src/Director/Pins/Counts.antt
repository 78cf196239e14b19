-- ===== src/Director/Pins/Counts.antt =====
-- The pin counts of bridge/engine/EngineStreamDirector.h against the pins that they count.
use symphony_media_bridge.Common.{
  ℕ, ◌+◌, ◌-◌, ◌≤◌, ◌<◌, ◌≡◌, ◌≢◌, Option, none, some, List, if◌then◌else◌, ◌==◌, arith,
  Option-cases, inl, inr, length,
}
use symphony_media_bridge.Common.Maps
use symphony_media_bridge.Common.Maps.{
  Map, find_entry, erase_entry, find-erase, length-erase_lt, erase_absent,
}
use symphony_media_bridge.Common.Values.{IsUnique, count_values}
use symphony_media_bridge.Director.State.{Director}
use symphony_media_bridge.Director.Pins.{drop_pin_count, add_pin_count}

-- How many endpoints have pinned `t`.
abbrev pub pins_of : ℕ → List (ℕ × ℕ) → ℕ
pins_of t m = count_values t m

abbrev pub count_of : Option ℕ → ℕ
count_of none = 0
count_of (some n) = n

pub find-drop_pin_count :
    (m : Map ℕ) (old t : ℕ)
    → length m.entries ≤ m.capacity
    → count_of (Maps.find (drop_pin_count m old) t)
      ≡ (if old == t then count_of (Maps.find m t) - 1 else count_of (Maps.find m t))
unfolding drop_pin_count find_entry
find-drop_pin_count m old t room = elim (Option-cases (Maps.find m old)) [
  | inl e ↦ ground (arith, e)
  | inr (c, e) ↦ ground (
    arith,
    find-erase old t m.entries,
    find-erase old old m.entries,
    length-erase_lt old m.entries e,
  )
]

pub capacity-drop_pin_count : (m : Map ℕ) (old : ℕ) → (drop_pin_count m old).capacity ≡ m.capacity
unfolding drop_pin_count
capacity-drop_pin_count m old = ground arith

pub size-drop_pin_count_le : (m : Map ℕ) (old : ℕ) → Maps.size (drop_pin_count m old) ≤ Maps.size m
unfolding drop_pin_count
size-drop_pin_count_le m old = elim (Option-cases (Maps.find m old)) [
  | inl e ↦ ground (arith, e)
  | inr (c, e) ↦ ground (arith, length-erase_lt old m.entries e)
]

pub find-add_pin_count :
    (m : Map ℕ) (target t : ℕ)
    → length m.entries < m.capacity
    → count_of (Maps.find (add_pin_count m target) t)
      ≡ (if target == t then count_of (Maps.find m t) + 1 else count_of (Maps.find m t))
unfolding add_pin_count find_entry
find-add_pin_count m target t room = elim (Option-cases (Maps.find m target)) [
  | inl e ↦ ground (arith, e)
  | inr (c, e) ↦ ground (
    arith,
    find-erase target t m.entries,
    find-erase target target m.entries,
    length-erase_lt target m.entries e,
  )
]

pub size-add_pin_count_le :
    (m : Map ℕ) (target : ℕ) → Maps.size (add_pin_count m target) ≤ Maps.size m + 1
unfolding add_pin_count
size-add_pin_count_le m target = elim (Option-cases (Maps.find m target)) [
  | inl e ↦ ground (arith, e)
  | inr (c, e) ↦ ground (arith, length-erase_lt target m.entries e)
]

-- The counts of the reverse map are those of the pins.
pub record IsConsistent (d : Director) : Type 0 where
  pub unique : IsUnique d.pin_map.entries
  pub room : Maps.size d.reverse_pin_map ≤ d.reverse_pin_map.capacity
  pub counted :
      (t : ℕ) → t ≢ 0 → count_of (Maps.find d.reverse_pin_map t) ≡ pins_of t d.pin_map.entries
