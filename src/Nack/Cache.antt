-- ===== src/Nack/Cache.antt =====
-- bridge/engine/PacketCache.cpp. The backlog of sequence numbers is a list, the newest first.
pub mod Eviction
use symphony_media_bridge.Common.{
  ℕ, zero, suc, Bool, true, false, ◌&&◌, not, Option, none, some, List, [], ◌∷◌, if◌then◌else◌, leb,
  length,
}
use symphony_media_bridge.Common.Maps
use symphony_media_bridge.Common.Maps.{Map}

abbrev pub max_packets : ℕ
max_packets = 512

pub record PacketCache {ℓ} (P : Type ℓ) : Type ℓ where
  pub cache : Map P
  pub arrival_queue : List ℕ

unfoldable pub back : List ℕ → ℕ
back [] = 0
back (x ∷ []) = x
back (x ∷ y ∷ q) = back (y ∷ q)

unfoldable pub pop_back : List ℕ → List ℕ
pop_back [] = []
pop_back (x ∷ []) = []
pop_back (x ∷ y ∷ q) = x ∷ pop_back (y ∷ q)

module _ {ℓ} {P : Type ℓ} where
  abbrev pub new_packet_cache : PacketCache P
  new_packet_cache = record { cache = Maps.empty 1024; arrival_queue = [] }

  unfoldable pub make_room : PacketCache P → PacketCache P
  make_room c =
      if leb max_packets (length c.arrival_queue)
      then record {
        cache = Maps.erase c.cache (back c.arrival_queue);
        arrival_queue = pop_back c.arrival_queue;
      }
      else c

  -- `allocated` says whether the allocator has a packet left for the copy.
  unfoldable pub add : PacketCache P → P → ℕ → Bool → PacketCache P × Bool
  add c packet sequence_number allocated =
      if Maps.contains c.cache sequence_number
      then (c, false)
      else let c' = make_room c in
        if not allocated then (c', false) else (
          record {
            cache = Maps.emplace c'.cache sequence_number packet;
            arrival_queue = sequence_number ∷ c'.arrival_queue;
          },
          true,
        )

  unfoldable pub get : PacketCache P → ℕ → Option P
  get c sequence_number = Maps.find c.cache sequence_number
