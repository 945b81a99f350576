-- ===== src/Shell/Formatting/Bounds.antt =====
-- The loop of `FormatBytes` (hw3/internal/shell/commands/formatting.go) on every int64.
use go_tasks.Prelude.{
  ℕ, zero, suc, ◌+◌, ◌*◌, ◌/◌, ◌%◌, ◌^◌, ◌≤◌, ◌<◌, ◌≡◌, refl, some, inl, inr, arith, leb,
  Bool-cases,
}
use go_tasks.Prelude.Int.{pos}
use go_tasks.Prelude.Outcome.{ok}
use go_tasks.Shell.Formatting.{unit, unit_letters, byte_at, scale, scale_fuel, scaled, format_bytes}

-- 1024 to the power `exp + 1`.
abbrev pub unit_size : ℕ → ℕ
unit_size zero = unit
unit_size (suc exp) = unit_size exp * unit

unit_size_pos : (exp : ℕ) → unit ≤ unit_size exp
unit_size_pos zero = omega arith
unit_size_pos (suc exp) = omega (arith, unit_size_pos exp)

unit_size_small : (exp : ℕ) → unit_size exp < 2 ^ 63 → exp ≤ 5
unit_size_small zero h = omega arith
unit_size_small (suc zero) h = omega arith
unit_size_small (suc (suc zero)) h = omega arith
unit_size_small (suc (suc (suc zero))) h = omega arith
unit_size_small (suc (suc (suc (suc zero)))) h = omega arith
unit_size_small (suc (suc (suc (suc (suc zero))))) h = omega arith
unit_size_small (suc (suc (suc (suc (suc (suc exp)))))) h = omega (arith, unit_size_pos exp)

mul_mono : (a c k : ℕ) → a ≤ c → a * k ≤ c * k
mul_mono a c k h = grind arith

step_below : (n div b : ℕ) → n * div ≤ b → n / unit * (div * unit) ≤ b
step_below n div b h = grind (arith, mul_mono (n / unit * unit) n div (omega arith))

step_above : (n div b : ℕ) → b < (n + 1) * div → b < (n / unit + 1) * (div * unit)
step_above n div b h = grind (arith, mul_mono (n + 1) ((n / unit + 1) * unit) div (omega arith))

no_wrap : (n div b : ℕ) → unit ≤ n → n * div ≤ b → b < 2 ^ 63 → div * unit % 2 ^ 64 ≡ div * unit
no_wrap n div b u h s = grind arith

-- What the loop ends with: the largest power of 1024 that is at most `b`.
pub record Scaled (b : ℕ) (div exp : ℕ) : Type 0 where
  pub size : div ≡ unit_size exp
  pub below : div ≤ b
  pub above : b < div * unit

scale_done :
    (n div exp b : ℕ)
    → n < unit
    → div ≡ unit_size exp
    → n * div ≤ b
    → b < (n + 1) * div
    → 1 ≤ n
    → Scaled b div exp
scale_done n div exp b f s lo hi p = record {
  size = s;
  below = grind (arith, mul_mono 1 n div p);
  above = grind (arith, mul_mono (n + 1) unit div (omega arith));
}

scale-Scaled :
    (fuel n div exp b : ℕ)
    → n < unit_size fuel
    → div ≡ unit_size exp
    → n * div ≤ b
    → b < (n + 1) * div
    → 1 ≤ n
    → b < 2 ^ 63
    → (d e : ℕ) × (scale (suc fuel) n div exp ≡ some (d, e)) × Scaled b d e
unfolding scale
scale-Scaled zero n div exp b f s lo hi p h =
    (div, exp, ground arith, scale_done n div exp b f s lo hi p)
scale-Scaled (suc fuel) n div exp b f s lo hi p h = elim (Bool-cases (leb unit n)) [
  | inr e ↦ (div, exp, rw e refl, scale_done n div exp b (ground arith) s lo hi p)
  | inl e ↦
      rw (e, no_wrap n div b (ground arith) lo h)
        (scale-Scaled fuel (n / unit) (div * unit) (exp + 1) b (ground arith) (ground (arith, s))
          (step_below n div b lo) (step_above n div b hi) (ground arith) h)
]

letter : (exp : ℕ) → exp ≤ 5 → (c : ℕ) × (byte_at exp unit_letters ≡ ok c)
unfolding byte_at
letter zero h = (b'K', refl)
letter (suc zero) h = (b'M', refl)
letter (suc (suc zero)) h = (b'G', refl)
letter (suc (suc (suc zero))) h = (b'T', refl)
letter (suc (suc (suc (suc zero)))) h = (b'P', refl)
letter (suc (suc (suc (suc (suc zero))))) h = (b'E', refl)
letter (suc (suc (suc (suc (suc (suc exp)))))) h = absurd (omega arith)

finish :
    (b d e : ℕ)
    → unit ≤ b
    → b < 2 ^ 63
    → scale scale_fuel (b / unit) unit 0 ≡ some (d, e)
    → Scaled b d e
    → (exp c : ℕ) × (format_bytes (pos b) ≡ some (ok (scaled b (unit_size exp) c)))
      × (byte_at exp unit_letters ≡ ok c)
      × (unit_size exp ≤ b)
      × (b < unit_size exp * unit)
unfolding format_bytes
finish b d e u h run good =
    let (c, at) = letter e (unit_size_small e (ground (arith, good.size, good.below))) in
    (
      e,
      c,
      ground (arith, run, at, good.size),
      at,
      ground (arith, good.size, good.below),
      ground (arith, good.size, good.above),
    )

-- Every int64 from one unit on is printed as a number from 1 up to 1024 of a unit: the loop ends
-- within its fuel, the divisor does not overflow and is the power of 1024 that the letter stands
-- for, and the index of the letter is in range.
pub format_bytes_scaled :
    (b : ℕ)
    → unit ≤ b
    → b < 2 ^ 63
    → (exp c : ℕ) × (format_bytes (pos b) ≡ some (ok (scaled b (unit_size exp) c)))
      × (byte_at exp unit_letters ≡ ok c)
      × (unit_size exp ≤ b)
      × (b < unit_size exp * unit)
unfolding format_bytes
format_bytes_scaled b u h =
    let (d, e, run, good) =
      scale-Scaled 7 (b / unit) unit 0 b (omega arith) refl (omega arith) (omega arith)
        (omega arith) h in
    finish b d e u h run good
