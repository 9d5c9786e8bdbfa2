-- ===== src/Clock.antt =====
-- src/Clock.h: the readings of the clock and its frequency, on the two kinds of platform. What the
-- platform's clock stands at is an argument.
pub mod Advance
use yardstick.Base.{ℕ, ◌+◌, ◌*◌, ◌/◌, ◌^◌}
use yardstick.Base.Words.{u64}

-- Windows: `QueryPerformanceCounter` and `QueryPerformanceFrequency`. Elsewhere: the ticks of
-- `std::chrono::high_resolution_clock` since its epoch, and how many of them make a second.
pub data Platform : Type 0 where
  performance : (counter frequency : ℕ) → Platform
  chrono : (ticks per_second : ℕ) → Platform

-- `ReadClock`; `duration_cast` rounds down, and `ysTime` is a uint64.
unfoldable pub read_clock : Platform → ℕ
read_clock (performance counter frequency) = u64 counter
read_clock (chrono ticks per_second) = u64 (ticks * 10 ^ 9 / per_second)

-- `GetClockFrequency`, where `std::nano::den` is 10 ^ 9.
unfoldable pub clock_frequency : Platform → ℕ
clock_frequency (performance counter frequency) = u64 frequency
clock_frequency (chrono ticks per_second) = 10 ^ 9
