-- ===== src/Active/Listed.antt =====
-- The pairing that bridge/engine/ActiveMediaList.h keeps twice: a list of endpoints (memory/List.h)
-- and a map whose keys are the endpoints of the list.
use symphony_media_bridge.Common.{
  ℕ, suc, ◌≤◌, ◌<◌, ◌≡◌, refl, ◌∙◌, true, false, not, ◌&&◌, none, some, List, [], ◌∷◌, ◌++◌, lt→ltb,
  ◌==◌, ==_iff, length, length-append, arith, Option-cases, inl, inr,
}
use symphony_media_bridge.Common.Maps
use symphony_media_bridge.Common.Maps.{Map, find_entry, erase_entry, find-erase}
use symphony_media_bridge.Common.Values.{
  IsUnique, erase-IsUnique, length-erase, is_in, is_distinct, is_in-append, is_distinct-append,
}
use symphony_media_bridge.Active.Entries.{Entries, push_to_tail, push_to_head, remove_first}

length-remove_first :
    (x : ℕ) (q : List ℕ) → is_in x q ≡ true → suc (length (remove_first x q)) ≡ length q
unfolding remove_first
length-remove_first x [] h = cc
length-remove_first x (y ∷ q) h = ground (arith, length-remove_first x q)

pub is_in-remove_first :
    (k x : ℕ) (q : List ℕ)
    → is_distinct q ≡ true
    → is_in k (remove_first x q) ≡ (is_in k q && not (x == k))
unfolding remove_first
is_in-remove_first k x [] d = refl
is_in-remove_first k x (y ∷ q) d = ground (arith, is_in-remove_first k x q, ==_iff y x, ==_iff x k)

remove_first-is_distinct :
    (x : ℕ) (q : List ℕ) → is_distinct q ≡ true → is_distinct (remove_first x q) ≡ true
unfolding remove_first
remove_first-is_distinct x [] d = refl
remove_first-is_distinct x (y ∷ q) d =
    ground (arith, remove_first-is_distinct x q, is_in-remove_first y x q)

module _ {ℓ} {V : Type ℓ} where
  pub contains-find :
      (m : Map V) (k : ℕ) → Maps.contains m k ≡ true → (v : V) × (Maps.find m k ≡ some v)
  contains-find m k h = elim (Option-cases (Maps.find m k)) [
    | inl e ↦ absurd (ground (arith, e))
    | inr found ↦ found
  ]

  -- The keys of the map are the endpoints of the list, each once.
  pub record IsListed (m : Map V) (l : Entries) : Type ℓ where
    pub distinct : is_distinct l.items ≡ true
    pub unique : IsUnique m.entries
    pub mapped : (k : ℕ) → Maps.contains m k ≡ is_in k l.items
    pub size : Maps.size m ≡ length l.items

  module _ (m : Map V) (l : Entries) (k : ℕ) (c : IsListed m l) where
    pub remove-IsListed :
        is_in k l.items ≡ true
        → IsListed (Maps.erase m k) (record l { items = remove_first k l.items })
          × (suc (length (remove_first k l.items)) ≡ length l.items)
    unfolding find_entry
    remove-IsListed there =
        let shorter = length-remove_first k l.items there in
        let (v, e) = contains-find m k (c.mapped k ∙ there) in
        (
          record {
            distinct = remove_first-is_distinct k l.items c.distinct;
            unique = erase-IsUnique k m.entries c.unique;
            mapped = λ j. ground (
              arith,
              c.mapped j,
              find-erase k j m.entries,
              is_in-remove_first j k l.items c.distinct,
            );
            size = omega (arith, c.size, length-erase k m.entries c.unique e, shorter);
          },
          shorter,
        )

    -- The endpoint moves to the tail.
    pub move_last-IsListed :
        is_in k l.items ≡ true
        → IsListed m (record l { items = remove_first k l.items ++ (k ∷ []) })
    move_last-IsListed there =
        let q = remove_first k l.items in
        let short = remove_first-is_distinct k l.items c.distinct in
        record {
          distinct =
              ground
                (arith, is_distinct-append q k, short, is_in-remove_first k k l.items c.distinct);
          unique = c.unique;
          mapped = λ j. ground (
            arith,
            c.mapped j,
            is_in-append j q (k ∷ []),
            is_in-remove_first j k l.items c.distinct,
            ==_iff k j,
            there,
          );
          size =
              omega (arith, c.size, length-remove_first k l.items there, length-append q (k ∷ []));
        }

    module _ (v : V) (new : Maps.find m k ≡ none) where
      pub not_there : is_in k l.items ≡ false
      not_there = ground (arith, c.mapped k, new)

      pub push_to_tail-IsListed :
          IsListed
            (record m { entries = (k, v) ∷ m.entries })
            (record l { items = l.items ++ (k ∷ []) })
      unfolding find_entry
      push_to_tail-IsListed = record {
        distinct = ground (arith, is_distinct-append l.items k, c.distinct, not_there);
        unique = (new, c.unique);
        mapped = λ j. ground (arith, c.mapped j, is_in-append j l.items (k ∷ []));
        size = omega (arith, c.size, length-append l.items (k ∷ []));
      }

      pub push_to_head-IsListed :
          IsListed (record m { entries = (k, v) ∷ m.entries }) (record l { items = k ∷ l.items })
      unfolding find_entry
      push_to_head-IsListed = record {
        distinct = ground (arith, c.distinct, not_there);
        unique = (new, c.unique);
        mapped = λ j. ground (arith, c.mapped j);
        size = omega (arith, c.size);
      }

  -- A new key with room for it is the first entry.
  pub emplace_new :
      (m : Map V) (k : ℕ) (v : V)
      → Maps.find m k ≡ none
      → Maps.size m < m.capacity
      → Maps.emplace m k v ≡ record m { entries = (k, v) ∷ m.entries }
  emplace_new m k v new free = rw (new, lt→ltb _ _ free) refl

pub push_to_tail_items :
    (l : Entries) (k : ℕ)
    → length l.items < l.capacity
    → (push_to_tail l k).0 ≡ record l { items = l.items ++ (k ∷ []) }
unfolding push_to_tail
push_to_tail_items l k free = rw (lt→ltb _ _ free) refl

pub push_to_head_items :
    (l : Entries) (k : ℕ)
    → length l.items < l.capacity
    → (push_to_head l k).0 ≡ record l { items = k ∷ l.items }
unfolding push_to_head
push_to_head_items l k free = rw (lt→ltb _ _ free) refl

-- No more entries than a list has elements, where every key is an element.
pub length-keys {ℓ} :
    {V : Type ℓ} (m : List (ℕ × V)) (q : List ℕ)
    → IsUnique m
    → is_distinct q ≡ true
    → ((k : ℕ) → Maps.is_some (find_entry k m) ≡ true → is_in k q ≡ true)
    → length m ≤ length q
unfolding find_entry
length-keys [] q u d keys = ground arith
length-keys ((k, v) ∷ m) q u d keys =
    let there : is_in k q ≡ true = keys k (ground arith) in
    let rest : length m ≤ length (remove_first k q) =
      length-keys m (remove_first k q) u.1 (remove_first-is_distinct k q d)
        (λ j h. ground (arith, keys j, is_in-remove_first j k q d, ==_iff k j, u.0)) in
    omega (arith, rest, length-remove_first k q there)
