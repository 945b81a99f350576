-- ===== src/Prelude/Int.antt =====
-- Go's `int64`: integers over the native numbers, and the wrap-around of a sum.
use go_tasks.Prelude.{ℕ, ◌+◌, ◌-◌, ◌%◌, ◌^◌, ◌<◌, ◌≡◌, arith, ltb, if◌then◌else◌}

-- `negsuc n` is -(n + 1).
pub data ℤ : Type 0 where
  pos : ℕ → ℤ
  negsuc : ℕ → ℤ

-- The int64 whose value is that of the pattern `n` of 64 bits.
unfoldable pub of_bits : ℕ → ℤ
of_bits n = if ltb n (2 ^ 63) then pos n else negsuc (2 ^ 64 - n - 1)

-- The pattern of 64 bits of an integer.
unfoldable pub to_bits : ℤ → ℕ
to_bits (pos n) = n % 2 ^ 64
to_bits (negsuc n) = 2 ^ 64 - 1 - n % 2 ^ 64

-- `a + n` in int64.
unfoldable pub add_int64 : ℤ → ℕ → ℤ
unfolding of_bits to_bits
add_int64 a n = of_bits ((to_bits a + n) % 2 ^ 64)

-- No wrap-around while the sum of a count stays below 2^63.
pub add_int64-pos : (a n : ℕ) → a + n < 2 ^ 63 → add_int64 (pos a) n ≡ pos (a + n)
unfolding add_int64
add_int64-pos a n h = ground arith
