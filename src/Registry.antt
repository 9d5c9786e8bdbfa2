-- ===== src/Registry.antt =====
-- src/GlobalState.cpp: the list of threads, and the loops that take events off their queues.
-- A thread's state is known by its address, 0 is the null pointer. The queue of a thread is the
-- list of the events in it, oldest first; `write_event` is the sink's.
pub mod Process
pub mod Cycle
pub mod Rings
use yardstick.Base.{update, ℕ, zero, suc, ◌==◌, if◌then◌else◌, List, [], ◌∷◌, Bool, true, false}
use yardstick.Protocol.{EventData}
use yardstick.Api.{YsResult, success}

-- `ThreadState::_prev` and `_next`
pub record Links : Type 0 where
  pub prev : ℕ
  pub next : ℕ

-- The links of each thread, and `GlobalState::_threads`.
pub record Registry : Type 0 where
  pub links : ℕ → Links
  pub threads : ℕ

unfoldable pub set_next : ℕ → ℕ → Registry → Registry
set_next p next r = record r { links = update r.links p (record (r.links p) { next = next }) }

unfoldable pub set_prev : ℕ → ℕ → Registry → Registry
set_prev p prev r = record r { links = update r.links p (record (r.links p) { prev = prev }) }

-- `RegisterThread`
unfoldable pub register_thread : ℕ → Registry → Registry
register_thread t r0 =
    let r1 : Registry = set_next t r0.threads r0 in
    let r2 : Registry = if r1.threads == 0 then r1 else set_next r1.threads t r1 in
    record r2 { threads = t }

-- `DeregisterThread`
unfoldable pub deregister_thread : ℕ → Registry → Registry
deregister_thread t r0 =
    let r1 : Registry =
      if (r0.links t).next == 0 then r0 else set_prev (r0.links t).next (r0.links t).prev r0 in
    let r2 : Registry =
      if (r1.links t).prev == 0 then r1 else set_next (r1.links t).prev (r1.links t).next r1 in
    if r2.threads == t then record r2 { threads = (r2.links r2.threads).next } else r2

-- What a flush ends with; `unfinished` is a loop that the fuel does not suffice for.
pub data Flushed {ℓ} (S : Type ℓ) : Type ℓ where
  ended : YsResult → (ℕ → List EventData) → S → Flushed S
  unfinished : Flushed S

module _ {ℓ} {S : Type ℓ} (write_event : EventData → S → YsResult × S) where
  -- The loop of `ProcessThread` at `count`: `while (--count && thread->Deque(ev))`.
  unfoldable pub process_loop : ℕ → List EventData → S → YsResult × List EventData × S
  process_loop zero queue s = (success, queue, s)
  process_loop (suc zero) queue s = (success, queue, s)
  process_loop (suc (suc count)) [] s = (success, [], s)
  process_loop (suc (suc count)) (ev ∷ queue) s =
      let (r, s') = write_event ev s in
      let rest = process_loop (suc count) queue s' in
      elim r [ success ↦ rest | failure ↦ (failure, queue, s') ]

  -- `ProcessThread`
  unfoldable pub process_thread : List EventData → S → YsResult × List EventData × S
  process_thread queue s = process_loop 512 queue s

  -- The loop of `FlushThreads` from the thread `t` on.
  unfoldable pub flush_from : ℕ → Registry → ℕ → (ℕ → List EventData) → S → Flushed S
  flush_from zero r t queues s = unfinished
  flush_from (suc fuel) r t queues s =
      let (code, queue, s') = process_thread (queues t) s in
      let rest = flush_from fuel r (r.links t).next (update queues t queue) s' in
      if t == 0
      then ended success queues s
      else elim code [ success ↦ rest | failure ↦ ended failure (update queues t queue) s' ]

  -- `FlushThreads`
  unfoldable pub flush_threads : ℕ → Registry → (ℕ → List EventData) → S → Flushed S
  flush_threads fuel r queues s = flush_from fuel r r.threads queues s
