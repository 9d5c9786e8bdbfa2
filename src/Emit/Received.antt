-- ===== src/Emit/Received.antt =====
-- src/yardstick.cpp, src/Protocol.cpp and tools/web/js/ysProtocol.js: the calls of the interface up to
-- what the web tool reads of them.
use yardstick.Base.{
  ℕ, ◌+◌, ◌≤◌, ◌<◌, ◌^◌, ◌≡◌, refl, none, some, List, [], ◌++◌, length, drop, arith,
}
use mathlib.Core.Path.{subst}
use yardstick.Base.Words.{u32}
use yardstick.PointerHash.{hash_pointer}
use yardstick.Api.{success}
use yardstick.Protocol.{Memory, EventData, encode_size, encode_event, returned}
use yardstick.Protocol.Encoding.{encoding}
use yardstick.Protocol.Bounds.{encode_event-success}
use yardstick.Client.{Event, counter_set, counter_add, region, tick, read}
use yardstick.Client.RoundTrip.{seen, read-encoding}
use yardstick.Emit.{emit_record, emit_count, emit_region}
use yardstick.Emit
use yardstick.Emit.Typed.{Emitted, recorded, counted, timed, ticked, Emitted-Readable}

-- What the tool is to show of a call: its arguments, with a handle for each string, the line as 32
-- bits, and times as the reader's numbers.
abbrev pub call_shown : (round : ℕ → ℕ) {ev : EventData} → Emitted ev → Event
call_shown round (recorded {when} {value} name file line hw hv) =
    counter_set (u32 line) (hash_pointer name) (hash_pointer file) (round when) value
call_shown round (counted {amount} name ha) = counter_add (hash_pointer name) amount
call_shown round (timed {start_time} {end_time} name file line hs he) =
    region (u32 line) (hash_pointer name) (hash_pointer file) (round start_time) (round end_time)
call_shown round (ticked {now} h) = tick (round now)

module _ (round : ℕ → ℕ) (mem : Memory) where
  call-seen :
      {ev : EventData} (call : Emitted ev) → seen round mem ev ≡ some (call_shown round call)
  unfolding emit_record emit_count emit_region Emit.tick seen
  call-seen (recorded name file line hw hv) = refl
  call-seen (counted name ha) = refl
  call-seen (timed name file line hs he) = refl
  call-seen (ticked h) = refl

  call-size : {ev : EventData} → Emitted ev → encode_size ev ≤ 29
  unfolding emit_record emit_count emit_region Emit.tick encode_size
  call-size (recorded name file line hw hv) = omega arith
  call-size (counted name ha) = omega arith
  call-size (timed name file line hs he) = omega arith
  call-size (ticked h) = omega arith

  -- For the event of every call of emit_record, emit_count, emit_region and tick, with times below
  -- 2^64, doubles of 64 bits and any line, EncodeEvent into a buffer of less than 2^64 bytes, with
  -- 29 bytes of it or more given, returns Success with a length of 29 bytes at most, and the web
  -- tool's reader, started on the buffer, returns the call's own arguments, each in its place, with
  -- a handle for each string, the line as 32 bits and times as the reader rounds them, and steps
  -- over just that length.
  pub emit-received :
      {ev : EventData} (call : Emitted ev) (buffer : List ℕ) (available : ℕ)
      → 29 ≤ available
      → available ≤ length buffer
      → length buffer < 2 ^ 64
      → (out : List ℕ) × (n : ℕ) × (n ≤ 29)
        × (encode_event mem (some buffer) available ev
            ≡ returned success (record { buffer = out; out_length = n }))
        × (read round (record { view = out; pos = 0; error = none })
            ≡ some (some (call_shown round call), record { view = out; pos = n; error = none }))
  emit-received {ev} call buffer available room inside small =
      let size = call-size call in
      let (kind, fits, shown) = Emitted-Readable round mem call in
      let out = encoding mem ev ++ drop (encode_size ev) buffer in
      let start : 0 + encode_size ev ≡ encode_size ev = omega arith in
      (
        out,
        encode_size ev,
        size,
        encode_event-success mem buffer available ev (omega arith) inside small,
        subst
            (λ k.
              read round (record { view = out; pos = 0; error = none })
              ≡ some (some (call_shown round call), record { view = out; pos = k; error = none }))
            start
            (read-encoding round mem [] (drop (encode_size ev) buffer) ev fits (call-seen call)
              none),
      )
