-- ===== src/Registry/Rings.antt =====
-- src/GlobalState.cpp: `ProcessThread` and `FlushThreads` on the queues of src/ConcurrentQueue.h.
-- The outcomes of the exchanges in `TryDeque` are an argument, for each count of `ProcessThread` and
-- each round of `FlushThreads`.
pub mod Passing
pub mod Flushing
use yardstick.Base.{
  update, update_self, update-ne, ℕ, zero, suc, ◌+◌, ◌==◌, ◌≡◌, ◌≢◌, ◌⊎◌, inl, inr, refl, sym, ap,
  ◌∙◌, Option, none, some, List, [], ◌∷◌, Bool, if◌then◌else◌, length, arith, Bool-cases, true,
  false,
}
use mathlib.Core.Path.{subst}
use yardstick.Api.{YsResult, success, YsResult-discrete}
use yardstick.Protocol.{EventData}
use yardstick.Queue.{Queue}
use yardstick.Queue.Ring.{Holds}
use yardstick.Queue.Refine.{after_failures, try_deque-empty, try_deque-success}
use yardstick.Thread.{deque}
use yardstick.Registry.{Registry, Flushed, process_loop, process_thread, flush_from, flush_threads}

module _ {ℓ} {S : Type ℓ} (write_event : EventData → S → YsResult × S) where
  -- The loop of `ProcessThread` at `count`; `none` where `TryDeque` is still trying.
  unfoldable pub process_ring :
      ℕ → (ℕ → List Bool) → Queue EventData → S → Option (YsResult × Queue EventData × S)
  process_ring zero outcomes q s = some (success, q, s)
  process_ring (suc zero) outcomes q s = some (success, q, s)
  process_ring (suc (suc count)) outcomes q s = elim (deque (outcomes count) q) [
    | none ↦ none
    | some (none, q') ↦ some (success, q', s)
    | some (some ev, q') ↦
        let (r, s') = write_event ev s in
        elim r [
          | success ↦ process_ring (suc count) outcomes q' s'
          | failure ↦ some (failure, q', s')
        ]
  ]

  -- The loop of `FlushThreads` from the thread `t` on; `none` also where the fuel does not suffice.
  unfoldable pub flush_rings :
      ℕ
      → (ℕ → ℕ → List Bool)
      → Registry
      → ℕ
      → (ℕ → Queue EventData)
      → S
      → Option (YsResult × (ℕ → Queue EventData) × S)
  flush_rings zero outcomes r t rings s = none
  flush_rings (suc fuel) outcomes r t rings s =
      if t == 0
      then some (success, rings, s)
      else elim (process_ring 512 (outcomes fuel) (rings t) s) [
        | none ↦ none
        | some (code, q, s') ↦ elim code [
          | success ↦ flush_rings fuel outcomes r (r.links t).next (update rings t q) s'
          | failure ↦ some (failure, update rings t q, s')
        ]
      ]
