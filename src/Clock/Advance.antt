-- ===== src/Clock/Advance.antt =====
-- src/Clock.h: readings and the frequency agree.
use native.Mathlib.Nat.{mul_assoc, add-mul-div_right}
use yardstick.Base.{ℕ, ◌+◌, ◌*◌, ◌/◌, ◌^◌, ◌<◌, ◌≡◌, ap, ◌∙◌, arith}
use yardstick.Base.Words.{u64}
use yardstick.Clock.{Platform, performance, chrono, read_clock, clock_frequency}

-- A clock some whole seconds later.
unfoldable pub seconds_later : ℕ → Platform → Platform
seconds_later s (performance counter frequency) = performance (counter + s * frequency) frequency
seconds_later s (chrono ticks per_second) = chrono (ticks + s * per_second) per_second

-- The clock ticks.
abbrev pub IsTicking : Platform → Type 0
IsTicking (performance counter frequency) = (0 < frequency) × (frequency < 2 ^ 64)
IsTicking (chrono ticks per_second) = 0 < per_second

-- On both kinds of platform, with a clock that ticks and a frequency that fits 64 bits, ReadClock
-- some whole seconds later gives that many times GetClockFrequency more, modulo 2^64.
pub read_clock-seconds_later :
    (s : ℕ) (c : Platform)
    → IsTicking c
    → read_clock (seconds_later s c) ≡ u64 (read_clock c + s * clock_frequency c)
unfolding read_clock seconds_later clock_frequency
read_clock-seconds_later s (performance counter frequency) (h, small) = grind arith
read_clock-seconds_later s (chrono ticks per_second) h =
    let exact : (ticks + s * per_second) * 10 ^ 9 / per_second
        ≡ ticks * 10 ^ 9 / per_second + 10 ^ 9 * s =
      ap (λ n. n / per_second) (omega (arith, mul_assoc (10 ^ 9) s per_second))
      ∙ add-mul-div_right (ticks * 10 ^ 9) (10 ^ 9 * s) h in
    omega (arith, exact)
