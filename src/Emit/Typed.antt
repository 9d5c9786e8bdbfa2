-- ===== src/Emit/Typed.antt =====
-- src/yardstick.cpp: what holds of every event that a call of the interface puts in a queue.
use yardstick.Base.{ℕ, ◌^◌, ◌<◌, refl, List, All, ◌∷◌, [], arith}
use yardstick.Api.{IsTime}
use yardstick.Protocol.{Memory, EventData, event_type}
use yardstick.Client.RoundTrip.{seen}
use yardstick.Emit.{emit_record, emit_count, emit_region}
use yardstick.Emit
use yardstick.Background.Serving.{Readable}

-- The events of the calls, with arguments of the calls' types; a double is its 64 bits.
pub data Emitted : EventData → Type 0 where
  recorded :
      {when value : ℕ} (name file line : ℕ)
      → IsTime when
      → value < 2 ^ 64
      → Emitted (emit_record when value name file line)
  counted : {amount : ℕ} (name : ℕ) → amount < 2 ^ 64 → Emitted (emit_count amount name)
  timed :
      {start_time end_time : ℕ} (name file line : ℕ)
      → IsTime start_time
      → IsTime end_time
      → Emitted (emit_region start_time end_time name file line)
  ticked : {now : ℕ} → IsTime now → Emitted (Emit.tick now)

module _ (round : ℕ → ℕ) (mem : Memory) where
  -- Every event of emit_record, emit_count, emit_region and tick, with times below 2^64, doubles of
  -- 64 bits and any line, has values that fit the types of its members, is neither of type None nor
  -- a string, and is one that the web tool shows.
  pub Emitted-Readable : {ev : EventData} → Emitted ev → Readable round mem ev
  unfolding emit_record emit_count emit_region Emit.tick event_type seen
  Emitted-Readable (recorded {when} {value} name file line hw hv) =
      (omega arith, (omega arith, hw, hv), (_, refl))
  Emitted-Readable (counted {amount} name ha) = (omega arith, ha, (_, refl))
  Emitted-Readable (timed {start_time} {end_time} name file line hs he) =
      (omega arith, (omega arith, hs, he), (_, refl))
  Emitted-Readable (ticked {now} h) = (omega arith, h, (_, refl))

  pub AllEmitted-Readable : (evs : List EventData) → All Emitted evs → All (Readable round mem) evs
  AllEmitted-Readable [] all = tt
  AllEmitted-Readable (ev ∷ evs) (one, all) = (Emitted-Readable one, AllEmitted-Readable evs all)

  pub ArrivalsEmitted-Readable :
      (arrivals : List (List EventData))
      → All (All Emitted) arrivals
      → All (All (Readable round mem)) arrivals
  ArrivalsEmitted-Readable [] all = tt
  ArrivalsEmitted-Readable (evs ∷ arrivals) (one, all) =
      (AllEmitted-Readable evs one, ArrivalsEmitted-Readable arrivals all)
