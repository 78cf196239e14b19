-- ===== src/Nack/Bits.antt =====
-- Single bits of a word, by its digits.
use symphony_media_bridge.Common.{
  ℕ, zero, suc, ◌+◌, ◌*◌, ◌/◌, ◌%◌, ◌<◌, ◌≡◌, Bool, false, ◌||◌, ◌==◌, arith,
}

-- Bit k of a word.
unfoldable pub bit : ℕ → ℕ → Bool
bit zero b = b % 2 == 1
bit (suc k) b = bit k (b / 2)

-- The word with bit k set: b | (1 << k).
unfoldable pub set_bit : ℕ → ℕ → ℕ
set_bit zero b = b / 2 * 2 + 1
set_bit (suc k) b = set_bit k (b / 2) * 2 + b % 2

pub bit-set_bit : (j k b : ℕ) → bit j (set_bit k b) ≡ (j == k || bit j b)
unfolding bit set_bit
bit-set_bit zero zero b = ground arith
bit-set_bit zero (suc k) b = ground arith
bit-set_bit (suc j) zero b =
    let e : (b / 2 * 2 + 1) / 2 ≡ b / 2 = omega arith in rw e (ground arith)
bit-set_bit (suc j) (suc k) b =
    let e : (set_bit k (b / 2) * 2 + b % 2) / 2 ≡ set_bit k (b / 2) = omega arith in
    rw e (ground (arith, bit-set_bit j k (b / 2)))

-- A word of w bits stays one. The bound is written as a number of doublings.
abbrev pub doubled : ℕ → ℕ
doubled zero = 1
doubled (suc w) = 2 * doubled w

pub set_bit-lt : (w k b : ℕ) → k < w → b < doubled w → set_bit k b < doubled w
unfolding set_bit
set_bit-lt zero k b h l = absurd (omega arith)
set_bit-lt (suc w) zero b h l = omega arith
set_bit-lt (suc w) (suc k) b h l = omega (arith, set_bit-lt w k (b / 2) (omega arith) (omega arith))

pub bit-zero : (j : ℕ) → bit j 0 ≡ false
unfolding bit
bit-zero zero = ground arith
bit-zero (suc j) = bit-zero j
