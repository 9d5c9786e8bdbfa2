-- ===== src/Registry/Process.antt =====
-- src/GlobalState.cpp: `ProcessThread` against its description.
use yardstick.Base.{ℕ, zero, suc, ◌≡◌, refl, List, [], ◌∷◌, take, drop}
use yardstick.Protocol.{EventData}
use yardstick.Registry.{process_loop, process_thread}
use yardstick.Api.{YsResult, success}

module _ {ℓ} {S : Type ℓ} (write_event : EventData → S → YsResult × S) where
  -- The sink after the events of a list, in order.
  unfoldable pub write_all : List EventData → S → S
  write_all [] s = s
  write_all (ev ∷ evs) s = write_all evs (write_event ev s).1

  -- The sink returns `Success` for each event of a list, in order.
  abbrev pub Accepts : List EventData → S → Type 0
  Accepts [] s = Unit
  Accepts (ev ∷ evs) s = ((write_event ev s).0 ≡ success) × Accepts evs (write_event ev s).1

  process_loop-success :
      (count : ℕ) (queue : List EventData) (s : S)
      → Accepts (take count queue) s
      → process_loop write_event (suc count) queue s
        ≡ (success, drop count queue, write_all (take count queue) s)
  unfolding process_loop write_all
  process_loop-success zero queue s ok = refl
  process_loop-success (suc count) [] s ok = refl
  process_loop-success (suc count) (ev ∷ queue) s (ok, later) =
      rw (ok, process_loop) (process_loop-success count queue (write_event ev s).1 later)

  -- Where the sink takes the events, ProcessThread hands it the oldest 511 events of the queue, or
  -- all of them if there are fewer, each once and in order, and leaves the others queued.
  pub process_thread-success :
      (queue : List EventData) (s : S)
      → Accepts (take 511 queue) s
      → process_thread write_event queue s ≡ (success, drop 511 queue, write_all (take 511 queue) s)
  unfolding process_thread
  process_thread-success queue s ok = process_loop-success 511 queue s ok
