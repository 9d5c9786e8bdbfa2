-- ===== src/Emit/Shown.antt =====
-- What the web tool (tools/web/js/ysProtocol.js) shows of the calls of src/yardstick.cpp.
use yardstick.Base.{ℕ, ◌^◌, ◌≤◌, ◌<◌, ◌≡◌, refl, some, arith}
use yardstick.Base.Words.{u32}
use yardstick.PointerHash.{hash_pointer}
use yardstick.Protocol.{Memory}
use yardstick.Client.{counter_set, counter_add, region, tick, header}
use yardstick.Client.RoundTrip.{IsEvent, seen}
use yardstick.Emit.{
  emit_record, emit_count, emit_region, connected_header, open_region, close_region,
}
use yardstick.Emit

-- A JavaScript number holds every whole number up to 2 ^ 53.
abbrev pub IsExact : (ℕ → ℕ) → Type 0
IsExact round = (n : ℕ) → n ≤ 2 ^ 53 → round n ≡ n

module _ (round : ℕ → ℕ) (mem : Memory) (exact : IsExact round) where
  -- With a line number below 2^31 and times up to 2^53, the event of emit_region is one that the
  -- encoder takes, and what the web tool shows of it are the line, the handles of the two strings
  -- and the times that were given.
  pub emit_region-seen :
      (start_time end_time name file line : ℕ)
      → start_time ≤ 2 ^ 53
      → end_time ≤ 2 ^ 53
      → line < 2 ^ 31
      → IsEvent (emit_region start_time end_time name file line)
        × (seen round mem (emit_region start_time end_time name file line)
            ≡ some (region line (hash_pointer name) (hash_pointer file) start_time end_time))
  unfolding emit_region seen
  emit_region-seen start_time end_time name file line hs he hl =
      let l : u32 line ≡ line = omega arith in
      ((omega arith), rw (l, exact start_time hs, exact end_time he))

  -- The region of a scope, as the web tool shows it, runs from the clock at the start of the scope
  -- to the clock at its end.
  pub close_region-seen :
      (start now name file line : ℕ)
      → start ≤ 2 ^ 53
      → now ≤ 2 ^ 53
      → line < 2 ^ 31
      → seen round mem (close_region now (open_region start name file line))
        ≡ some (region line (hash_pointer name) (hash_pointer file) start now)
  unfolding close_region open_region
  close_region-seen start now name file line hs he hl =
      (emit_region-seen start now name file line hs he hl).1

  -- With times and a frequency up to 2^53 and a line below 2^31, a counter that is set or added to,
  -- a tick and the header of a session are events that the encoder takes, and the web tool shows
  -- their values as they were given.
  pub emit-seen :
      (when value name file line frequency : ℕ)
      → when ≤ 2 ^ 53
      → frequency ≤ 2 ^ 53
      → value < 2 ^ 64
      → line < 2 ^ 31
      → (seen round mem (emit_record when value name file line)
          ≡ some (counter_set line (hash_pointer name) (hash_pointer file) when value))
        × (seen round mem (emit_count value name) ≡ some (counter_add (hash_pointer name) value))
        × (seen round mem (Emit.tick when) ≡ some (tick when))
        × (seen round mem (connected_header frequency when) ≡ some (header frequency when))
        × IsEvent (emit_record when value name file line)
        × IsEvent (emit_count value name)
        × IsEvent (Emit.tick when)
        × IsEvent (connected_header frequency when)
  unfolding emit_record emit_count Emit.tick connected_header seen
  emit-seen when value name file line frequency hw hf hv hl =
      let l : u32 line ≡ line = omega arith in
      (
        rw (l, exact when hw),
        refl,
        rw (exact when hw),
        rw (exact frequency hf, exact when hw),
        omega arith,
        omega arith,
        omega arith,
        omega arith,
      )
