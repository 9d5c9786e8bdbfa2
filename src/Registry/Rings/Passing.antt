-- ===== src/Registry/Rings/Passing.antt =====
-- src/GlobalState.cpp: `ProcessThread` on a queue of src/ConcurrentQueue.h against a list of events.
use yardstick.Base.{
  ℕ, zero, suc, ◌+◌, ◌≡◌, ◌≢◌, ◌⊎◌, inl, inr, refl, sym, Option, some, List, [], ◌∷◌, Bool, arith,
}
use mathlib.Core.Path.{subst}
use yardstick.Api.{YsResult, success, YsResult-discrete}
use yardstick.Protocol.{EventData}
use yardstick.Queue.{Queue}
use yardstick.Queue.Ring.{Holds}
use yardstick.Queue.Refine.{after_failures, try_deque-empty, try_deque-success}
use yardstick.Thread.{deque}
use yardstick.Registry.{process_loop}
use yardstick.Registry.Rings.{process_ring}

pub success_cases : (r : YsResult) → (r ≡ success) ⊎ (r ≢ success)
success_cases r = elim (YsResult-discrete r success) [ yes e ↦ inl e | no e ↦ inr e ]

module _ {ℓ} {S : Type ℓ} (write_event : EventData → S → YsResult × S) where
  -- How a pass over a queue ends, on the list of its events and on the queue.
  abbrev pub Processed :
      (YsResult × List EventData × S) → Option (YsResult × Queue EventData × S) → Type ℓ
  Processed (code, rest, s) o =
      (q : Queue EventData) × (taken : ℕ) × (o ≡ some (code, q, s)) × Holds q taken rest

  loop_success :
      (count : ℕ) (ev : EventData) (queue : List EventData) (s : S)
      → (write_event ev s).0 ≡ success
      → process_loop write_event (suc (suc count)) (ev ∷ queue) s
        ≡ process_loop write_event (suc count) queue (write_event ev s).1
  unfolding process_loop
  loop_success count ev queue s ok = rw (ok, process_loop) refl

  loop_failure :
      (count : ℕ) (ev : EventData) (queue : List EventData) (s : S)
      → (write_event ev s).0 ≢ success
      → process_loop write_event (suc (suc count)) (ev ∷ queue) s
        ≡ ((write_event ev s).0, queue, (write_event ev s).1)
  unfolding process_loop
  loop_failure count ev queue s bad = ground arith

  ring_success :
      (count : ℕ) (outcomes : ℕ → List Bool) (q q' : Queue EventData) (ev : EventData) (s : S)
      → deque (outcomes count) q ≡ some (some ev, q')
      → (write_event ev s).0 ≡ success
      → process_ring write_event (suc (suc count)) outcomes q s
        ≡ process_ring write_event (suc count) outcomes q' (write_event ev s).1
  unfolding process_ring
  ring_success count outcomes q q' ev s e ok = rw (e, process_ring) (rw (ok, process_ring) refl)

  ring_failure :
      (count : ℕ) (outcomes : ℕ → List Bool) (q q' : Queue EventData) (ev : EventData) (s : S)
      → deque (outcomes count) q ≡ some (some ev, q')
      → (write_event ev s).0 ≢ success
      → process_ring write_event (suc (suc count)) outcomes q s
        ≡ some ((write_event ev s).0, q', (write_event ev s).1)
  unfolding process_ring
  ring_failure count outcomes q q' ev s e bad = rw (e, process_ring) (ground arith)

  Processed-cast :
      {x x' : YsResult × List EventData × S} {o o' : Option (YsResult × Queue EventData × S)}
      → x' ≡ x
      → o' ≡ o
      → Processed x o
      → Processed x' o'
  Processed-cast {x} {o' = o'} e f p =
      subst (λ y. Processed y o') (sym e) (subst (λ o. Processed x o) (sym f) p)

  module _ (fails : ℕ → ℕ) where
    abbrev pub outcomes : ℕ → List Bool
    outcomes count = after_failures (fails count) []

    -- ProcessThread on a queue ends, however often the exchanges fail for no reason, and as on the
    -- list of its events: with the same code, the same calls of the sink, and the queue that holds
    -- the events that are left.
    pub process_ring-Processed :
        (count : ℕ) (q : Queue EventData) (taken : ℕ) (queue : List EventData) (s : S)
        → Holds q taken queue
        → Processed
            (process_loop write_event count queue s)
            (process_ring write_event count outcomes q s)
    unfolding process_loop process_ring deque
    process_ring-Processed zero q taken queue s h = (q, taken, refl, h)
    process_ring-Processed (suc zero) q taken queue s h = (q, taken, refl, h)
    process_ring-Processed (suc (suc count)) q taken [] s h =
        (q, taken, rw (try_deque-empty q taken (fails count) [] h, process_ring) refl, h)
    process_ring-Processed (suc (suc count)) q taken (ev ∷ queue) s h =
        let (q', e, h') = try_deque-success q taken ev queue (fails count) [] h in
        elim (success_cases (write_event ev s).0) [
          | inl ok ↦
              Processed-cast (loop_success count ev queue s ok)
                (ring_success count outcomes q q' ev s e ok)
                (process_ring-Processed (suc count) q' (taken + 1) queue (write_event ev s).1 h')
          | inr bad ↦
              Processed-cast (loop_failure count ev queue s bad)
                (ring_failure count outcomes q q' ev s e bad) (q', taken + 1, refl, h')
        ]
