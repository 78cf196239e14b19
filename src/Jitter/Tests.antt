-- ===== src/Jitter/Tests.antt =====
-- Small buffers, and the theorems on rtp/JitterBufferList.cpp applied to them.
use symphony_media_bridge.Common.{
  ℕ, ◌+◌, ◌≡◌, refl, true, none, some, [], ◌∷◌, if◌then◌else◌, ◌==◌, arith,
}
use symphony_media_bridge.Jitter.{Packet, Buffer, add, pop}
use symphony_media_bridge.Jitter.Order.{ahead, IsOrdered, count_of, IsCounted, pop-add}

abbrev packet : ℕ → Packet
packet n = record { sequence_number = n; timestamp = 960 }

-- Two packets on both sides of the wrap-around.
abbrev wrapping : Buffer
wrapping = record { free_items = 298; items = packet 65535 ∷ packet 3 ∷ []; count = 2 }

wrapping-IsCounted : IsCounted wrapping
wrapping-IsCounted = record { store = refl; counted = refl }

pop-add_example :
    let (b', taken) = add wrapping (some (packet 1)) in
    let (b'', first) = pop b' in
    (taken ≡ true)
    × IsOrdered 65000 0 b'.items
    × IsCounted b'
    × IsOrdered 65000 (elim first [ none ↦ 0 | some p ↦ ahead 65000 p ]) b''.items
    × IsCounted b''
    × ((if taken then count_of 3 (packet 1 ∷ wrapping.items) else count_of 3 wrapping.items)
        ≡ (elim first [ none ↦ 0 | some p ↦ if p.sequence_number == 3 then 1 else 0 ])
          + count_of 3 b''.items)
pop-add_example =
    pop-add wrapping (packet 1) 65000 3 (omega arith) (omega arith) (omega arith)
      (omega arith, omega arith, omega arith, (omega arith, omega arith, omega arith, tt))
      wrapping-IsCounted
