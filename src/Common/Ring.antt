-- ===== src/Common/Ring.antt =====
-- math/Fields.h: `ringDifference`, the signed distance of two numbers on a ring of 2 ^ bits.
use symphony_media_bridge.Common.Tests.{ltb, if◌then◌else◌}
use Prim.Native.Nat.{ℕ, ◌+◌, ◌-◌, ◌/◌, ◌%◌, ◌^◌, ◌<◌}
use mathlib.Core.Path.{◌≡◌}
use native.Mathlib.Omega.{arith}

-- The pattern of (b - a) on the ring, sign-extended to the `width` bits of the type. The operands
-- are below 2 ^ width; the source asserts that they are below 2 ^ bits.
unfoldable pub ring_difference : ℕ → ℕ → ℕ → ℕ → ℕ
ring_difference width bits a b =
    let v = (b + 2 ^ width - a) % 2 ^ bits in
    if ltb ((2 ^ bits - 1) / 2) v then v + (2 ^ width - 2 ^ bits) else v

-- Added to `a` it gives `b` on the ring.
pub add-ring_difference15 :
    (a b : ℕ) → a < 2 ^ 16 → (a + ring_difference 16 15 a b) % 2 ^ 15 ≡ b % 2 ^ 15
unfolding ring_difference
add-ring_difference15 a b h = ground arith

pub add-ring_difference8 :
    (a b : ℕ) → a < 2 ^ 16 → (a + ring_difference 16 8 a b) % 2 ^ 8 ≡ b % 2 ^ 8
unfolding ring_difference
add-ring_difference8 a b h = ground arith

pub ring_difference32 :
    (a b : ℕ) → a < 2 ^ 32 → ring_difference 32 32 a b ≡ (b + 2 ^ 32 - a) % 2 ^ 32
unfolding ring_difference
ring_difference32 a b h = ground arith
