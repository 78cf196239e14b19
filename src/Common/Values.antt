-- ===== src/Common/Values.antt =====
-- What the maps hold: keys that have one entry each, and how often a value occurs.
use symphony_media_bridge.Common.{
  ℕ, suc, ◌+◌, ◌≤◌, ◌≡◌, refl, sym, Bool, true, false, not, ◌&&◌, ◌||◌, none, some, List, [], ◌∷◌,
  ◌++◌, if◌then◌else◌, ◌==◌, ==_iff, length, arith, Bool-cases, inl, inr, ◌⊎◌,
}
use symphony_media_bridge.Common.Maps.{find_entry, erase_entry, find-erase, erase_absent}

module _ {ℓ} {V : Type ℓ} where
  -- Each key has one entry.
  abbrev pub IsUnique : List (ℕ × V) → Type ℓ
  IsUnique [] = Unit
  IsUnique ((k, v) ∷ m) = (find_entry k m ≡ none) × IsUnique m

  pub erase-IsUnique : (k : ℕ) (m : List (ℕ × V)) → IsUnique m → IsUnique (erase_entry k m)
  unfolding find_entry erase_entry
  erase-IsUnique k [] u = tt
  erase-IsUnique k ((j, v) ∷ m) u = ground (arith, erase-IsUnique k m, find-erase k j m)

  -- Where each key has one entry, erasing a key that is there drops one entry.
  pub length-erase :
      (k : ℕ) (m : List (ℕ × V)) {v : V}
      → IsUnique m
      → find_entry k m ≡ some v
      → suc (length (erase_entry k m)) ≡ length m
  unfolding find_entry erase_entry
  length-erase k [] u h = cc
  length-erase k ((j, w) ∷ m) {v} u h = elim (Bool-cases (j == k)) [
    | inl this ↦
        let e : j ≡ k = (==_iff j k).0 this in
        let gone : erase_entry k m ≡ m = erase_absent k m (rw (sym e) u.0) in
        ground (arith, this, gone)
    | inr other ↦ ground (arith, other, length-erase k m {v = v} u.1)
  ]

module _ {ℓ} {V : Type ℓ} where
  pub length-erase_le : (k : ℕ) (m : List (ℕ × V)) → length (erase_entry k m) ≤ length m
  unfolding erase_entry
  length-erase_le k [] = ground arith
  length-erase_le k ((j, v) ∷ m) = ground (arith, length-erase_le k m)

-- How many entries have the value.
abbrev pub count_values : ℕ → List (ℕ × ℕ) → ℕ
count_values t [] = 0
count_values t ((j, u) ∷ m) = (if u == t then 1 else 0) + count_values t m

pub count_values-erase :
    (t k : ℕ) (m : List (ℕ × ℕ))
    → IsUnique m
    → count_values t (erase_entry k m)
        + (elim (find_entry k m) [ none ↦ 0 | some u ↦ if u == t then 1 else 0 ])
      ≡ count_values t m
unfolding find_entry erase_entry
count_values-erase t k [] u = refl
count_values-erase t k ((j, v) ∷ m) u = ground (arith, count_values-erase t k m)

-- How often a number stands in a list.
abbrev pub count : ℕ → List ℕ → ℕ
count x [] = 0
count x (y ∷ ys) = (if y == x then 1 else 0) + count x ys

pub count-append : (x : ℕ) (ys zs : List ℕ) → count x (ys ++ zs) ≡ count x ys + count x zs
count-append x [] zs = ground arith
count-append x (y ∷ ys) zs = ground (arith, count-append x ys zs)

abbrev pub is_in : ℕ → List ℕ → Bool
is_in k [] = false
is_in k (x ∷ q) = x == k || is_in k q

abbrev pub is_distinct : List ℕ → Bool
is_distinct [] = true
is_distinct (x ∷ q) = not (is_in x q) && is_distinct q

pub is_in-append : (k : ℕ) (q r : List ℕ) → is_in k (q ++ r) ≡ (is_in k q || is_in k r)
is_in-append k [] r = refl
is_in-append k (x ∷ q) r = ground (arith, is_in-append k q r)

pub is_distinct-append :
    (q : List ℕ) (x : ℕ) → is_distinct (q ++ (x ∷ [])) ≡ (is_distinct q && not (is_in x q))
is_distinct-append [] x = refl
is_distinct-append (y ∷ q) x = ground (arith, is_distinct-append q x, is_in-append y q (x ∷ []))

-- A number stands at most once in a list without repetition.
pub count-is_distinct :
    (x : ℕ) (q : List ℕ) → is_distinct q ≡ true → count x q ≡ (if is_in x q then 1 else 0)
count-is_distinct x [] d = ground arith
count-is_distinct x (y ∷ q) d = ground (arith, count-is_distinct x q, ==_iff y x)

pub find-count_values :
    (k v : ℕ) (m : List (ℕ × ℕ)) → find_entry k m ≡ some v → 1 ≤ count_values v m
unfolding find_entry
find-count_values k v [] h = cc
find-count_values k v ((j, w) ∷ m) h = ground (arith, find-count_values k v m)

-- Two keys with the same value are the same key, or the value occurs twice.
pub shared_value :
    (j k v : ℕ) (m : List (ℕ × ℕ))
    → IsUnique m
    → find_entry j m ≡ some v
    → find_entry k m ≡ some v
    → (j ≡ k) ⊎ (2 ≤ count_values v m)
shared_value j k v m u ej ek = elim (Bool-cases (j == k)) [
  | inl this ↦ inl ((==_iff j k).0 this)
  | inr other ↦
      let stays : find_entry k (erase_entry j m) ≡ some v =
        ground (arith, find-erase j k m, other, ek) in
      inr (
        ground
          (arith, count_values-erase v j m u, ej, find-count_values k v (erase_entry j m) stays))
]
