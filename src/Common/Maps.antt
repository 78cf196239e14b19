-- ===== src/Common/Maps.antt =====
-- A map of bounded capacity from number keys: the view that the callers of memory/Map.h and
-- concurrency/MpmcHashmap.h have of it. An insertion never overwrites, and fails at capacity.
use symphony_media_bridge.Common.Tests.{ltb, ◌==◌, if◌then◌else◌}
use symphony_media_bridge.Common.Lists.{length}
use Prim.Native.Nat.{ℕ, ◌≤◌, ◌<◌}
use mathlib.Core.Path.{◌≡◌, refl}
use mathlib.Core.Bool.{Bool, true, false}
use mathlib.Core.Option.{Option, none, some}
use mathlib.Core.List.{List, [], ◌∷◌}
use native.Mathlib.Omega.{arith}

pub record Map {ℓ} (V : Type ℓ) : Type ℓ where
  pub capacity : ℕ
  pub entries : List (ℕ × V)

abbrev pub is_some {ℓ} : {A : Type ℓ} → Option A → Bool
is_some none = false
is_some (some a) = true

module _ {ℓ} {V : Type ℓ} where
  abbrev pub empty : ℕ → Map V
  empty n = record { capacity = n; entries = [] }

  unfoldable pub find_entry : ℕ → List (ℕ × V) → Option V
  find_entry k [] = none
  find_entry k ((j, v) ∷ m) = if j == k then some v else find_entry k m

  -- A key has at most one entry, so that dropping each entry of the key drops that one.
  unfoldable pub erase_entry : ℕ → List (ℕ × V) → List (ℕ × V)
  erase_entry k [] = []
  erase_entry k ((j, v) ∷ m) = let rest = erase_entry k m in if j == k then rest else (j, v) ∷ rest

  abbrev pub find : Map V → ℕ → Option V
  find m k = find_entry k m.entries

  abbrev pub contains : Map V → ℕ → Bool
  contains m k = is_some (find m k)

  abbrev pub size : Map V → ℕ
  size m = length m.entries

  abbrev pub emplace : Map V → ℕ → V → Map V
  emplace m k v =
      if contains m k
      then m
      else if ltb (size m) m.capacity
      then record m { entries = (k, v) ∷ m.entries }
      else m

  abbrev pub erase : Map V → ℕ → Map V
  erase m k = record m { entries = erase_entry k m.entries }

  -- The value of a present key is changed in place, through a reference to it.
  unfoldable pub update_entry : ℕ → V → List (ℕ × V) → List (ℕ × V)
  update_entry k w [] = []
  update_entry k w ((j, v) ∷ m) = if j == k then (j, w) ∷ m else (j, v) ∷ update_entry k w m

  abbrev pub update : Map V → ℕ → V → Map V
  update m k w = record m { entries = update_entry k w m.entries }

  pub find-erase :
      (k j : ℕ) (m : List (ℕ × V))
      → find_entry j (erase_entry k m) ≡ (if k == j then none else find_entry j m)
  unfolding find_entry erase_entry
  find-erase k j [] = ground arith
  find-erase k j ((i, v) ∷ m) = ground (arith, find-erase k j m)

  pub find-update :
      (k j : ℕ) (w : V) (m : List (ℕ × V))
      → find_entry j (update_entry k w m)
        ≡ (if k == j then (if is_some (find_entry k m) then some w else none) else find_entry j m)
  unfolding find_entry update_entry
  find-update k j w [] = ground arith
  find-update k j w ((i, v) ∷ m) = ground (arith, find-update k j w m)

  pub length-erase_le : (k : ℕ) (m : List (ℕ × V)) → length (erase_entry k m) ≤ length m
  unfolding erase_entry
  length-erase_le k [] = omega arith
  length-erase_le k ((j, v) ∷ m) = ground (arith, length-erase_le k m)

  pub length-erase_lt :
      (k : ℕ) (m : List (ℕ × V)) {v : V}
      → find_entry k m ≡ some v
      → length (erase_entry k m) < length m
  unfolding find_entry erase_entry
  length-erase_lt k [] h = cc
  length-erase_lt k ((j, w) ∷ m) {v} h =
      ground (arith, length-erase_lt k m {v = v}, length-erase_le k m)

  pub erase_absent : (k : ℕ) (m : List (ℕ × V)) → find_entry k m ≡ none → erase_entry k m ≡ m
  unfolding find_entry erase_entry
  erase_absent k [] h = refl
  erase_absent k ((j, w) ∷ m) h = ground (arith, erase_absent k m)
