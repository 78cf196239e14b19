-- ===== src/Nack/Cache/Eviction.antt =====
-- What bridge/engine/PacketCache.cpp keeps and what it drops.
use symphony_media_bridge.Common.{
  ℕ, suc, ◌≤◌, ◌<◌, ◌≡◌, refl, Bool, true, false, ◌&&◌, not, none, some, List, [], ◌∷◌,
  if◌then◌else◌, leb, ◌==◌, length, arith, Bool-cases, inl, inr, Option-cases, ◌∙◌,
}
use symphony_media_bridge.Common.Maps
use symphony_media_bridge.Common.Maps.{
  find_entry, erase_entry, find-erase, length-erase_le, length-erase_lt,
}
use symphony_media_bridge.Common.Values.{is_in, is_distinct}
use symphony_media_bridge.Nack.Cache.{PacketCache, max_packets, back, pop_back, make_room, add, get}

-- The queue has the cache's sequence numbers, each once, and neither exceeds its bound.
pub record IsConsistent {ℓ} {P : Type ℓ} (c : PacketCache P) : Type ℓ where
  pub distinct : is_distinct c.arrival_queue ≡ true
  pub queued : (k : ℕ) → Maps.contains c.cache k ≡ is_in k c.arrival_queue
  pub size : Maps.size c.cache ≤ length c.arrival_queue
  pub bound : length c.arrival_queue ≤ max_packets
  pub room : c.cache.capacity ≡ 1024

last_is_in : (y : ℕ) (q : List ℕ) → is_in (back (y ∷ q)) (y ∷ q) ≡ true
unfolding back
last_is_in y [] = ground arith
last_is_in y (z ∷ q) = ground (arith, last_is_in z q)

is_in-pop_back :
    (k : ℕ) (q : List ℕ)
    → is_distinct q ≡ true
    → 0 < length q
    → is_in k (pop_back q) ≡ (is_in k q && not (back q == k))
unfolding back pop_back
is_in-pop_back k [] d h = absurd (omega arith)
is_in-pop_back k (x ∷ []) d h = ground arith
is_in-pop_back k (x ∷ y ∷ q) d h =
    ground (arith, is_in-pop_back k (y ∷ q), is_in-pop_back x (y ∷ q), last_is_in y q)

pop_back-is_distinct : (q : List ℕ) → is_distinct q ≡ true → is_distinct (pop_back q) ≡ true
unfolding pop_back
pop_back-is_distinct [] d = d
pop_back-is_distinct (x ∷ []) d = refl
pop_back-is_distinct (x ∷ y ∷ q) d =
    ground (arith, pop_back-is_distinct (y ∷ q), is_in-pop_back x (y ∷ q))

length-pop_back : (q : List ℕ) → 0 < length q → suc (length (pop_back q)) ≡ length q
unfolding pop_back
length-pop_back [] h = absurd (omega arith)
length-pop_back (x ∷ []) h = refl
length-pop_back (x ∷ y ∷ q) h = ground (arith, length-pop_back (y ∷ q))

is_in-back : (q : List ℕ) → 0 < length q → is_in (back q) q ≡ true
is_in-back [] h = absurd (omega arith)
is_in-back (x ∷ q) h = last_is_in x q

module _ {ℓ} {P : Type ℓ} where
  contains-find :
      (m : Maps.Map P) (k : ℕ) → Maps.contains m k ≡ true → (v : P) × (Maps.find m k ≡ some v)
  contains-find m k h = elim (Option-cases (Maps.find m k)) [
    | inl e ↦ ground (arith, e)
    | inr found ↦ found
  ]

  make_room-IsConsistent :
      (c : PacketCache P)
      → IsConsistent c
      → IsConsistent (make_room c) × (length (make_room c).arrival_queue < max_packets)
  unfolding make_room
  make_room-IsConsistent c i = elim (Bool-cases (leb max_packets (length c.arrival_queue))) [
    | inr small ↦ rw small (i, ground (arith, small))
    | inl full ↦ rw full (
        let some_queued : 0 < length c.arrival_queue = ground (arith, full) in
        let (v, found) =
          contains-find c.cache (back c.arrival_queue)
            (i.queued (back c.arrival_queue) ∙ is_in-back c.arrival_queue some_queued) in
        (
          record {
            distinct = pop_back-is_distinct c.arrival_queue i.distinct;
            queued = λ k. ground (
              arith,
              i.queued k,
              find-erase (back c.arrival_queue) k c.cache.entries,
              is_in-pop_back k c.arrival_queue i.distinct some_queued,
            );
            size = omega (
              arith,
              i.size,
              length-pop_back c.arrival_queue some_queued,
              length-erase_lt (back c.arrival_queue) c.cache.entries found,
            );
            bound = omega (arith, i.bound, length-pop_back c.arrival_queue some_queued);
            room = i.room;
          },
          omega (arith, i.bound, length-pop_back c.arrival_queue some_queued),
        ))
  ]

  get-make_room :
      (c : PacketCache P) (k : ℕ)
      → get (make_room c) k ≡ (
          if leb max_packets (length c.arrival_queue) && back c.arrival_queue == k
          then none
          else get c k)
  unfolding make_room get
  get-make_room c k = ground (arith, find-erase (back c.arrival_queue) k c.cache.entries)

  contains-make_room :
      (c : PacketCache P) (k : ℕ)
      → Maps.contains c.cache k ≡ false
      → Maps.contains (make_room c).cache k ≡ false
  unfolding make_room
  contains-make_room c k h = ground (arith, find-erase (back c.arrival_queue) k c.cache.entries)

  -- The sequence numbers of the backlog stay those of the cached packets, each there once, and at
  -- most 512, whatever is added and whether or not the allocator has a packet left.
  pub add-IsConsistent :
      (c : PacketCache P) (packet : P) (sequence_number : ℕ) (allocated : Bool)
      → IsConsistent c
      → IsConsistent (let (c', added) = add c packet sequence_number allocated in c')
  unfolding add find_entry
  add-IsConsistent c packet seq allocated i = elim (Bool-cases (Maps.contains c.cache seq)) [
    | inl known ↦ rw known i
    | inr new ↦ rw new (elim (Bool-cases allocated) [
      | inr none_left ↦ rw none_left ((make_room-IsConsistent c i).0)
      | inl left ↦ rw left (
          let (i', below) = make_room-IsConsistent c i in
          record {
            distinct = ground (arith, i'.distinct, i'.queued seq, contains-make_room c seq new);
            queued =
                λ k. ground (arith, i'.queued k, contains-make_room c seq new, i'.size, i'.room);
            size = ground (arith, i'.size, contains-make_room c seq new, i'.room);
            bound = omega (arith, below);
            room = ground (arith, i'.room, contains-make_room c seq new);
          })
    ])
  ]

  -- Where the backlog has the numbers of the cached packets, each once, a packet that is added can
  -- be got from then on under its number. Adding one, or failing to for want of memory, loses no
  -- other packet, but the oldest when 512 are cached. A number that is cached keeps its packet.
  pub get-add :
      (c : PacketCache P) (packet : P) (sequence_number : ℕ) (allocated : Bool) (k : ℕ)
      → IsConsistent c
      → let (c', added) = add c packet sequence_number allocated in
        (added ≡ (not (Maps.contains c.cache sequence_number) && allocated))
        × (get c' k ≡ (
            if added && sequence_number == k
            then some packet
            else if not (Maps.contains c.cache sequence_number)
                && leb max_packets (length c.arrival_queue)
                && back c.arrival_queue == k
            then none
            else get c k))
  unfolding add get find_entry
  get-add c packet seq allocated k i = elim (Bool-cases (Maps.contains c.cache seq)) [
    | inl known ↦ ground (arith, known)
    | inr new ↦
        let (i', below) = make_room-IsConsistent c i in
        ground (arith, new, get-make_room c k, i'.size, i'.room, contains-make_room c seq new)
  ]
