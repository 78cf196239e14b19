-- ===== src/Jitter/Order.antt =====
-- The order of the packets in rtp/JitterBufferList.cpp.
use symphony_media_bridge.Common.{
  ℕ, suc, ◌+◌, ◌≤◌, ◌<◌, ◌≡◌, ◌∙◌, ◌⊎◌, ap, refl, sym, true, false, not, none, some, List, [], ◌∷◌,
  ◌++◌, if◌then◌else◌, ◌==◌, sub16, slt16, u16_mod, length, length-append, arith, Bool-cases,
  Option-cases, inl, inr,
}
use symphony_media_bridge.Jitter.{Packet, Buffer, buffer_size, tail, insert, place, add, pop}

-- How far a packet is ahead of a base on the ring of 16 bits.
abbrev pub ahead : ℕ → Packet → ℕ
ahead base p = sub16 p.sequence_number base

-- The packets are in a window of half the ring after the base, and in order, the first not before `low`.
abbrev pub IsOrdered : ℕ → ℕ → List Packet → Type 0
IsOrdered base low [] = Unit
IsOrdered base low (p ∷ ps) =
    (p.sequence_number < u16_mod)
    × (low ≤ ahead base p)
    × (ahead base p < 32768)
    × IsOrdered base (ahead base p) ps

-- How many packets of the list have a sequence number.
abbrev pub count_of : ℕ → List Packet → ℕ
count_of x [] = 0
count_of x (p ∷ ps) = (if p.sequence_number == x then 1 else 0) + count_of x ps

-- Each item is used or free, and the used ones are counted.
pub record IsCounted (b : Buffer) : Type 0 where
  pub store : b.free_items + length b.items ≡ buffer_size
  pub counted : b.count ≡ length b.items

List-cases :
    (is : List Packet) → (is ≡ []) ⊎ ((i : Packet) × (rest : List Packet) × (is ≡ i ∷ rest))
List-cases [] = inl refl
List-cases (i ∷ is) = inr (i, is, refl)

tail-none : (is : List Packet) → tail is ≡ none → is ≡ []
unfolding tail
tail-none [] e = refl
tail-none (i ∷ []) e = cc
tail-none (i ∷ j ∷ is) e = absurd (no_empty (tail-none (j ∷ is) e))
  where
    no_empty : j ∷ is ≡ [] → ⊥
    no_empty h = cc

count_of-append :
    (x : ℕ) (p : Packet) (is : List Packet) → count_of x (is ++ (p ∷ [])) ≡ count_of x (p ∷ is)
count_of-append x p [] = refl
count_of-append x p (i ∷ is) = omega (arith, count_of-append x p is)

module _ (base : ℕ) (p : Packet) (small : base < u16_mod) (word : p.sequence_number < u16_mod)
    (near : ahead base p < 32768) where
  insert-IsOrdered :
      (low : ℕ) (is : List Packet) {is' : List Packet}
      → insert p is ≡ some is'
      → low ≤ ahead base p
      → IsOrdered base low is
      → IsOrdered base low is'
        × (length is' ≡ suc (length is))
        × ((x : ℕ) → count_of x is' ≡ count_of x (p ∷ is))
  unfolding insert
  insert-IsOrdered low [] e le o = cc
  insert-IsOrdered low (i ∷ is) {is'} e le o =
      elim (Bool-cases (slt16 0 (sub16 i.sequence_number p.sequence_number))) [
        | inl later ↦
            let here : p ∷ i ∷ is ≡ is' = ground (arith, later, e) in
            rw (sym here)
              ((word, le, near, (o.0, ground (arith, later, o.0, o.2), o.2, o.3)), refl, λ x. refl)
        | inr earlier ↦ elim (Option-cases (insert p is)) [
          | inl missing ↦ absurd (ground (arith, earlier, e, missing))
          | inr (rest, found) ↦
              let (ordered, size, counts) =
                insert-IsOrdered (ahead base i) is found (ground (arith, earlier, o.0, o.2)) o.3 in
              let here : i ∷ rest ≡ is' = ground (arith, earlier, e, found) in
              rw (sym here)
                ((o.0, o.1, o.2, ordered), omega (arith, size), λ x. omega (arith, counts x))
        ]
      ]

  append-IsOrdered :
      (low : ℕ) (is : List Packet) {t : Packet}
      → tail is ≡ some t
      → slt16 (sub16 p.sequence_number t.sequence_number) 0 ≡ false
      → IsOrdered base low is
      → IsOrdered base low (is ++ (p ∷ []))
  unfolding tail
  append-IsOrdered low [] e after o = cc
  append-IsOrdered low (i ∷ []) e after o = ground (arith, o)
  append-IsOrdered low (i ∷ j ∷ is) {t} e after o =
      (o.0, o.1, o.2, append-IsOrdered (ahead base i) (j ∷ is) e after o.3)

  -- Where the newest packet is later, there is a packet to insert before.
  insert-some :
      (low : ℕ) (is : List Packet) {t : Packet}
      → tail is ≡ some t
      → slt16 (sub16 p.sequence_number t.sequence_number) 0 ≡ true
      → IsOrdered base low is
      → (is' : List Packet) × (insert p is ≡ some is')
  unfolding tail insert
  insert-some low [] e before o = cc
  insert-some low (i ∷ []) e before o = (p ∷ i ∷ [], ground (arith, before, o.0, o.2))
  insert-some low (i ∷ j ∷ is) {t} e before o =
      let (rest, found) = insert-some (ahead base i) (j ∷ is) e before o.3 in
      elim (Bool-cases (slt16 0 (sub16 i.sequence_number p.sequence_number))) [
        | inl later ↦ (p ∷ i ∷ j ∷ is, rw later refl)
        | inr earlier ↦ (i ∷ rest, rw (earlier, found) refl)
      ]

  -- Every packet of the window finds its place.
  place-IsOrdered :
      (is : List Packet)
      → IsOrdered base 0 is
      → (is' : List Packet) × (place p is ≡ some is')
        × IsOrdered base 0 is'
        × (length is' ≡ suc (length is))
        × ((x : ℕ) → count_of x is' ≡ count_of x (p ∷ is))
  unfolding place
  place-IsOrdered is o = elim (Option-cases (tail is)) [
    | inl none_yet ↦
        let nothing : is ≡ [] = tail-none is none_yet in
        (
          p ∷ [],
          rw (none_yet, place) refl,
          (word, omega arith, near, tt),
          rw nothing refl,
          λ x. rw nothing refl,
        )
    | inr (t, last) ↦ elim (Bool-cases (slt16 (sub16 p.sequence_number t.sequence_number) 0)) [
      | inr after ↦ (
        is ++ (p ∷ []),
        rw (last, after, place) refl,
        append-IsOrdered 0 is last after o,
        omega (arith, length-append is (p ∷ [])),
        λ x. count_of-append x p is,
      )
      | inl before ↦
          let (is', found) = insert-some 0 is last before o in
          let (ordered, size, counts) = insert-IsOrdered 0 is found (omega arith) o in
          (is', rw (last, before, place) found, ordered, size, counts)
    ]
  ]

-- A packet within half the ring of a base, as the buffered ones are, is taken unless all 300 items
-- are used. The packets stay in the order of their numbers, and they are those before and the new
-- one; the items stay counted. A full buffer keeps its packets.
add-IsOrdered :
    (b : Buffer) (p : Packet) (base : ℕ)
    → base < u16_mod
    → p.sequence_number < u16_mod
    → ahead base p < 32768
    → IsOrdered base 0 b.items
    → IsCounted b
    → let (b', taken) = add b (some p) in
      (taken ≡ not (length b.items == buffer_size))
      × IsOrdered base 0 b'.items
      × IsCounted b'
      × ((x : ℕ)
          → count_of x b'.items ≡ (if taken then count_of x (p ∷ b.items) else count_of x b.items))
unfolding add
add-IsOrdered b p base small word near o c = elim (Bool-cases (b.free_items == 0)) [
  | inl full ↦ rw full (ground (arith, c.store), o, c, λ x. refl)
  | inr room ↦
      let (is', found, ordered, size, counts) = place-IsOrdered base p small word near b.items o in
      rw (room, found)
        (
          ground (arith, c.store),
          ordered,
          record {
            store = ground (arith, c.store, size);
            counted = ground (arith, c.store, c.counted, size);
          },
          counts,
        )
]

-- `pop` takes the first of packets that are in order and counted, behind none of the others; these
-- stay in order and counted.
pop-IsOrdered :
    (b : Buffer) (base x : ℕ)
    → IsOrdered base 0 b.items
    → IsCounted b
    → let (b', first) = pop b in
      IsOrdered base (elim first [ none ↦ 0 | some p ↦ ahead base p ]) b'.items
      × IsCounted b'
      × (count_of x b.items
          ≡ (elim first [ none ↦ 0 | some p ↦ if p.sequence_number == x then 1 else 0 ])
            + count_of x b'.items)
unfolding pop
pop-IsOrdered b base x o c = elim (List-cases b.items) [
  | inl nothing ↦ rw (nothing, pop) (o, c, omega (arith, ap (count_of x) nothing))
  | inr (i, is, e) ↦
      let o' : IsOrdered base 0 (i ∷ is) = rw e at o in
      let used : length b.items ≡ suc (length is) = ap length e in
      rw (e, pop)
        (
          o'.3,
          record {
            store = omega (arith, c.store, used);
            counted = omega (arith, c.counted, c.store, used);
          },
          refl,
        )
]

-- A packet within half the ring of a base, as the buffered ones are, is taken unless all 300 items
-- are used. The packets stay in the order of their numbers and the items stay counted. `pop` then
-- takes the first of them, behind none of the others, and what it takes and leaves are the packets
-- before and the new one where it was taken. What is left stays in order and counted.
pub pop-add :
    (b : Buffer) (p : Packet) (base x : ℕ)
    → base < u16_mod
    → p.sequence_number < u16_mod
    → ahead base p < 32768
    → IsOrdered base 0 b.items
    → IsCounted b
    → let (b', taken) = add b (some p) in
      let (b'', first) = pop b' in
      (taken ≡ not (length b.items == buffer_size))
      × IsOrdered base 0 b'.items
      × IsCounted b'
      × IsOrdered base (elim first [ none ↦ 0 | some q ↦ ahead base q ]) b''.items
      × IsCounted b''
      × ((if taken then count_of x (p ∷ b.items) else count_of x b.items)
          ≡ (elim first [ none ↦ 0 | some q ↦ if q.sequence_number == x then 1 else 0 ])
            + count_of x b''.items)
pop-add b p base x small word near o c =
    let (taken, o', c', counts) = add-IsOrdered b p base small word near o c in
    let (o'', c'', rest) = pop-IsOrdered (add b (some p)).0 base x o' c' in
    (taken, o', c', o'', c'', sym (counts x) ∙ rest)
