-- ===== src/Active/Entries.antt =====
-- memory/List.h: the data of its entries from head to tail, and how many its allocator has.
use symphony_media_bridge.Common.{
  ℕ, Bool, true, false, Option, none, some, List, [], ◌∷◌, ◌++◌, if◌then◌else◌, ltb, ◌==◌, length,
}
use symphony_media_bridge.Common.Values.{is_in}

pub record Entries : Type 0 where
  pub capacity : ℕ
  pub items : List ℕ

abbrev pub no_entries : ℕ → Entries
no_entries capacity = record { capacity = capacity; items = [] }

unfoldable pub push_to_tail : Entries → ℕ → Entries × Bool
push_to_tail l x =
    if ltb (length l.items) l.capacity
    then (record l { items = l.items ++ (x ∷ []) }, true)
    else (l, false)

unfoldable pub push_to_head : Entries → ℕ → Entries × Bool
push_to_head l x =
    if ltb (length l.items) l.capacity then (record l { items = x ∷ l.items }, true) else (l, false)

-- The first entry with the data is unlinked.
unfoldable pub remove_first : ℕ → List ℕ → List ℕ
remove_first x [] = []
remove_first x (y ∷ ys) = let rest = remove_first x ys in if y == x then ys else y ∷ rest

unfoldable pub remove : Entries → ℕ → Entries × Bool
remove l x = (record l { items = remove_first x l.items }, is_in x l.items)

unfoldable pub pop_from_head : Entries → Entries × Option ℕ
pop_from_head l = elim l.items [ [] ↦ (l, none) | ◌∷◌ x xs ↦ (record l { items = xs }, some x) ]
