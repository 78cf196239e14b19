-- ===== src/Codec/H264/Aggregation.antt =====
-- The loop of codec/H264Header.h over the units of an aggregation packet.
use symphony_media_bridge.Common.{
  ℕ, zero, suc, ◌+◌, ◌*◌, ◌<◌, ◌≤◌, ◌≡◌, ◌≢◌, refl, false, List, [], ◌∷◌, length, arith, ◌++◌, ap,
  ◌/◌, ◌%◌, length-append,
}
use Prim.Native.Nat.add
use symphony_media_bridge.Codec.H264.{byte, get_nal_unit_type, has_parameter_set, is_key_frame}

-- The fuel of `is_key_frame` is enough: once the fuel exceeds the bytes that are left, more of it
-- changes no result.
has_parameter_set_fuel :
    (fuel more : ℕ) (payload : List ℕ) (size offset : ℕ)
    → size < fuel + offset
    → has_parameter_set (fuel + more) payload size offset
      ≡ has_parameter_set fuel payload size offset
unfolding has_parameter_set
has_parameter_set_fuel zero zero payload size offset h = refl
has_parameter_set_fuel zero (suc more) payload size offset h = ground arith
has_parameter_set_fuel (suc fuel) more payload size offset h = rw (add.suc fuel more) (
    ground (
      arith,
      has_parameter_set_fuel fuel more payload size
          (offset + 2 + (1 + (byte payload offset * 256 + byte payload (offset + 1)))),
    ))

get_or-append : (u w : List ℕ) (i : ℕ) → byte (u ++ w) (length u + i) ≡ byte w i
get_or-append [] w i = rw (add.zero i) refl
get_or-append (x ∷ u) w i = rw (add.suc (length u) i) (get_or-append u w i)

unit_byte :
    (a b c u : ℕ) (us w : List ℕ) (k i : ℕ)
    → i ≡ length us + 4 + k
    → byte (a ∷ b ∷ c ∷ u ∷ (us ++ w)) i ≡ byte w k
unit_byte a b c u us w k i e =
    let e' : i ≡ suc (suc (suc (suc (length us + k)))) = omega arith in rw e' (get_or-append us w k)

-- One round of the loop, past a unit that is no parameter set.
has_parameter_set_round :
    (fuel : ℕ) (payload : List ℕ) (size offset next : ℕ)
    → get_nal_unit_type (byte payload (offset + 2)) ≢ 7
    → next ≡ offset + 3 + (byte payload offset * 256 + byte payload (offset + 1))
    → offset + 3 ≤ size
    → has_parameter_set (suc fuel) payload size offset ≡ has_parameter_set fuel payload size next
unfolding has_parameter_set
has_parameter_set_round fuel payload size offset next other e inside =
    let e' : offset + 2 + (1 + (byte payload offset * 256 + byte payload (offset + 1))) ≡ next =
      omega arith in
    ground (arith, ap (has_parameter_set fuel payload size) e')

has_parameter_set_end :
    (fuel : ℕ) (payload : List ℕ) (size offset : ℕ)
    → size < offset + 3
    → has_parameter_set fuel payload size offset ≡ false
unfolding has_parameter_set
has_parameter_set_end zero payload size offset h = refl
has_parameter_set_end (suc fuel) payload size offset h = ground arith

-- An aggregation packet of two units: the size of each in two bytes, then its bytes.
abbrev pub two_units : ℕ → List ℕ → List ℕ → List ℕ
two_units header first second =
    header
    ∷ (length first / 256)
    ∷ (length first % 256)
    ∷ (first ++ (length second / 256) ∷ (length second % 256) ∷ second)

-- A parameter set in the second unit of an aggregation packet is not seen: the loop counts the
-- first unit's header byte twice, and so reads the second unit one byte too late. The second unit
-- has fewer than 256 bytes, and its second byte does not look like a parameter set's header.
pub is_key_frame_misses_second_unit :
    (u s t : ℕ) (us ts : List ℕ)
    → get_nal_unit_type u ≢ 7
    → get_nal_unit_type s ≡ 7
    → get_nal_unit_type t ≢ 7
    → length ts < 254
    → is_key_frame (two_units 24 (u ∷ us) (s ∷ t ∷ ts)) ≡ false
unfolding is_key_frame
is_key_frame_misses_second_unit u s t us ts first second third short = ground (
  arith,
  has_parameter_set_round (suc (suc (suc (length tail)))) payload total 1 (length us + 5) first
      (omega arith) (omega arith),
  has_parameter_set_round (suc (suc (length tail))) payload total (length us + 5) next
      (rw (at 3 (length us + 5 + 2) (omega arith)) third) (omega (arith, low, next_byte))
      (omega (arith, total_lem)),
  has_parameter_set_end (suc (suc (length tail))) payload total next (omega (arith, total_lem)),
)
  where
    tail : List ℕ
    tail = us ++ (suc (suc (length ts)) / 256) ∷ (suc (suc (length ts)) % 256) ∷ s ∷ t ∷ ts

    payload : List ℕ
    payload = two_units 24 (u ∷ us) (s ∷ t ∷ ts)

    total : ℕ
    total = length payload

    next : ℕ
    next = length us + 8 + (suc (suc (length ts)) % 256 * 256 + s)

    at :
        (k i : ℕ)
        → i ≡ length us + 4 + k
        → byte payload i
          ≡ byte ((suc (suc (length ts)) / 256) ∷ (suc (suc (length ts)) % 256) ∷ s ∷ t ∷ ts) k
    at k i e = unit_byte 24 _ _ u us _ k i e

    low : byte payload (length us + 5) ≡ suc (suc (length ts)) % 256
    low = at 1 (length us + 5) (omega arith)

    next_byte : byte payload (length us + 5 + 1) ≡ s
    next_byte = at 2 (length us + 5 + 1) (omega arith)

    total_lem : total ≡ length us + 8 + length ts
    total_lem = omega (
      arith,
      length-append us ((suc (suc (length ts)) / 256) ∷ (suc (suc (length ts)) % 256) ∷ s ∷ t ∷ ts),
    )
