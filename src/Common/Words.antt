-- ===== src/Common/Words.antt =====
-- Machine words as native numbers: wrap-around is written out, and a signed word is the bit
-- pattern of its unsigned type.
use Prim.Native.Nat.{ℕ, ◌+◌, ◌-◌, ◌%◌, ◌^◌}
use mathlib.Core.Bool.{Bool}
use symphony_media_bridge.Common.Tests.{ltb, leb}

abbrev pub u8_mod : ℕ
u8_mod = 2 ^ 8

abbrev pub u16_mod : ℕ
u16_mod = 2 ^ 16

abbrev pub u32_mod : ℕ
u32_mod = 2 ^ 32

abbrev pub u64_mod : ℕ
u64_mod = 2 ^ 64

-- Addition and subtraction of unsigned words. The operands of a subtraction are below the modulus.
abbrev pub add16 : ℕ → ℕ → ℕ
add16 a b = (a + b) % u16_mod

abbrev pub sub16 : ℕ → ℕ → ℕ
sub16 a b = (a + u16_mod - b) % u16_mod

abbrev pub add32 : ℕ → ℕ → ℕ
add32 a b = (a + b) % u32_mod

abbrev pub sub32 : ℕ → ℕ → ℕ
sub32 a b = (a + u32_mod - b) % u32_mod

abbrev pub add64 : ℕ → ℕ → ℕ
add64 a b = (a + b) % u64_mod

abbrev pub sub64 : ℕ → ℕ → ℕ
sub64 a b = (a + u64_mod - b) % u64_mod

-- The pattern of the negative number -k.
abbrev pub neg32 : ℕ → ℕ
neg32 k = u32_mod - k

-- Comparisons of two signed words by their patterns: those of the patterns moved by half the range.
abbrev pub slt16 : ℕ → ℕ → Bool
slt16 a b = ltb ((a + 2 ^ 15) % u16_mod) ((b + 2 ^ 15) % u16_mod)

abbrev pub slt32 : ℕ → ℕ → Bool
slt32 a b = ltb ((a + 2 ^ 31) % u32_mod) ((b + 2 ^ 31) % u32_mod)

abbrev pub sle32 : ℕ → ℕ → Bool
sle32 a b = leb ((a + 2 ^ 31) % u32_mod) ((b + 2 ^ 31) % u32_mod)

abbrev pub slt64 : ℕ → ℕ → Bool
slt64 a b = ltb ((a + 2 ^ 63) % u64_mod) ((b + 2 ^ 63) % u64_mod)

abbrev pub sle64 : ℕ → ℕ → Bool
sle64 a b = leb ((a + 2 ^ 63) % u64_mod) ((b + 2 ^ 63) % u64_mod)
