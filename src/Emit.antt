-- ===== src/Emit.antt =====
-- src/yardstick.cpp: the events that the calls of the interface make, and the region that
-- inc/yardstick/yardstick.h closes at the end of a scope.
-- An `int` argument is its 32-bit pattern; `now` is what the clock is read as.
pub mod Shown
pub mod Typed
pub mod Received
use yardstick.Base.{ℕ}
use yardstick.Base.Words.{u32}
use yardstick.Protocol.{EventData}

-- The event of `emit_record`. The assignment to the member `line` converts to a uint32.
unfoldable pub emit_record : (when value name file line : ℕ) → EventData
emit_record when value name file line = EventData.counter_set (u32 line) name file when value

-- The event of `emit_count`.
unfoldable pub emit_count : (amount name : ℕ) → EventData
emit_count amount name = EventData.counter_add name amount

-- The event of `emit_region`.
unfoldable pub emit_region : (start_time end_time name file line : ℕ) → EventData
emit_region start_time end_time name file line =
    EventData.region (u32 line) name file start_time end_time

-- The event of `tick`.
unfoldable pub tick : (now : ℕ) → EventData
tick now = EventData.tick now

-- `ScopedRegion`: its constructor reads the clock, and its destructor emits the region.
pub record ScopedRegion : Type 0 where
  pub start_time : ℕ
  pub name : ℕ
  pub file : ℕ
  pub line : ℕ

unfoldable pub open_region : (now name file line : ℕ) → ScopedRegion
open_region now name file line = record { start_time = now; name = name; file = file; line = line }

unfoldable pub close_region : (now : ℕ) → ScopedRegion → EventData
close_region now r = emit_region r.start_time now r.name r.file r.line

-- The event of `webby_connected`, in src/WebsocketSink.cpp.
unfoldable pub connected_header : (frequency now : ℕ) → EventData
connected_header frequency now = EventData.header frequency now
