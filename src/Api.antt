-- ===== src/Api.antt =====
-- inc/yardstick/yardstick.h: the return codes that every component hands back, and the types of its arguments.
use yardstick.Base.{ℕ, ◌<◌, ◌^◌}

-- `ysResult`
pub data YsResult : Type 0 where
  success invalid_parameter no_memory unknown system uninitialized disabled already_initialized :
      YsResult

pub YsResult-discrete : Discrete YsResult
YsResult-discrete = hlevel

-- `ysTime`, the type of the clock's readings, as a bound on a number.
abbrev pub IsTime : ℕ → Type 0
IsTime n = n < 2 ^ 64

-- `ysStringHandle`
abbrev pub IsStringHandle : ℕ → Type 0
IsStringHandle n = n < 2 ^ 32

-- `ysAllocator`, over the state that it changes: it is given a block, or the null pointer, and a
-- number of bytes, and returns a block.
abbrev pub Allocator {ℓ} : Type ℓ → Type ℓ
Allocator S = (block bytes : ℕ) → S → ℕ × S
