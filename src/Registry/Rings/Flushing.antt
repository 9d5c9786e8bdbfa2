-- ===== src/Registry/Rings/Flushing.antt =====
-- src/GlobalState.cpp: `FlushThreads` on the queues of src/ConcurrentQueue.h against lists of events.
use yardstick.Base.{
  update, ℕ, zero, suc, ◌==◌, ◌≡◌, ◌≢◌, inl, inr, refl, sym, Option, none, some, List, [], Bool,
  arith, Bool-cases, false,
}
use mathlib.Core.Path.{subst}
use yardstick.Api.{YsResult, success}
use yardstick.Protocol.{EventData}
use yardstick.Queue.{Queue}
use yardstick.Queue.Ring.{Holds}
use yardstick.Queue.Refine.{after_failures}
use yardstick.Registry.{Registry, Flushed, process_thread, flush_from}
use yardstick.Registry.Rings.{process_ring, flush_rings}
use yardstick.Registry.Rings.Passing.{success_cases, process_ring-Processed}

-- Queues and what is queued in each.
abbrev pub AllHold : (ℕ → Queue EventData) → (ℕ → ℕ) → (ℕ → List EventData) → Type 0
AllHold rings taken lists = (p : ℕ) → Holds (rings p) (taken p) (lists p)

pub AllHold-update :
    (rings : ℕ → Queue EventData) (taken : ℕ → ℕ) (lists : ℕ → List EventData) (t : ℕ)
    (q : Queue EventData) (n : ℕ) (rest : List EventData)
    → AllHold rings taken lists
    → Holds q n rest
    → AllHold (update rings t q) (update taken t n) (update lists t rest)
AllHold-update rings taken lists t q n rest h one p = elim (Bool-cases (t == p)) [
  | inl e ↦ rw e one
  | inr ne ↦ rw ne (h p)
]

-- Each exchange fails some number of times for no reason, and then succeeds.
abbrev pub passes : (ℕ → ℕ → ℕ) → ℕ → ℕ → List Bool
passes fails fuel count = after_failures (fails fuel count) []

module _ {ℓ} {S : Type ℓ} (write_event : EventData → S → YsResult × S) where
  -- How FlushThreads ends, on the lists of the events and on the queues.
  abbrev pub FlushedBoth : Flushed S → Option (YsResult × (ℕ → Queue EventData) × S) → Type ℓ
  FlushedBoth Flushed.unfinished o = o ≡ none
  FlushedBoth (Flushed.ended code lists s) o =
      (rings : ℕ → Queue EventData) × (taken : ℕ → ℕ) × (o ≡ some (code, rings, s))
      × AllHold rings taken lists

  FlushedBoth-cast :
      {x x' : Flushed S} {o o' : Option (YsResult × (ℕ → Queue EventData) × S)}
      → x' ≡ x
      → o' ≡ o
      → FlushedBoth x o
      → FlushedBoth x' o'
  FlushedBoth-cast {x} {o' = o'} e f p =
      subst (λ y. FlushedBoth y o') (sym e) (subst (λ o. FlushedBoth x o) (sym f) p)

  module _ (fuel : ℕ) (r : Registry) (t : ℕ) (some_thread : (t == 0) ≡ false) where
    module _ (lists : ℕ → List EventData) (s : S) where
      lists_success :
          (process_thread write_event (lists t) s).0 ≡ success
          → flush_from write_event (suc fuel) r t lists s
            ≡ flush_from write_event fuel r
                (r.links t).next
                (update lists t (process_thread write_event (lists t) s).1)
                (process_thread write_event (lists t) s).2
      unfolding flush_from
      lists_success ok = rw (some_thread, flush_from) (rw (ok, flush_from) refl)

      lists_failure :
          (process_thread write_event (lists t) s).0 ≢ success
          → flush_from write_event (suc fuel) r t lists s
            ≡ Flushed.ended
                (process_thread write_event (lists t) s).0
                (update lists t (process_thread write_event (lists t) s).1)
                (process_thread write_event (lists t) s).2
      unfolding flush_from
      lists_failure bad = rw (some_thread, flush_from) (ground arith)

    module _ (outcomes : ℕ → ℕ → List Bool) (rings : ℕ → Queue EventData) (s : S) (code : YsResult)
        (q : Queue EventData) (s' : S)
        (passed : process_ring write_event 512 (outcomes fuel) (rings t) s
          ≡ some (code, q, s')) where
      rings_success :
          code ≡ success
          → flush_rings write_event (suc fuel) outcomes r t rings s
            ≡ flush_rings write_event fuel outcomes r (r.links t).next (update rings t q) s'
      unfolding flush_rings
      rings_success ok =
          rw (some_thread, flush_rings) (rw (passed, flush_rings) (rw (ok, flush_rings) refl))

      rings_failure :
          code ≢ success
          → flush_rings write_event (suc fuel) outcomes r t rings s
            ≡ some (code, update rings t q, s')
      unfolding flush_rings
      rings_failure bad = rw (some_thread, flush_rings) (rw (passed, flush_rings) (ground arith))

  module _ (fails : ℕ → ℕ → ℕ) where
    -- On queues of 512 slots, each holding a list of events, at any position of the 32-bit counters
    -- and however often the exchanges fail for no reason, the loop of FlushThreads ends as on the
    -- lists, with the same code and the sink as after the same calls, and each queue then holds the
    -- list that is left; where it does not end on the lists, it does not end on the queues.
    pub flush_rings-FlushedBoth :
        (fuel : ℕ) (r : Registry) (t : ℕ) (rings : ℕ → Queue EventData) (taken : ℕ → ℕ)
        (lists : ℕ → List EventData) (s : S)
        → AllHold rings taken lists
        → FlushedBoth
            (flush_from write_event fuel r t lists s)
            (flush_rings write_event fuel (passes fails) r t rings s)
    unfolding flush_from flush_rings process_thread
    flush_rings-FlushedBoth zero r t rings taken lists s h = refl
    flush_rings-FlushedBoth (suc fuel) r t rings taken lists s h = elim (Bool-cases (t == 0)) [
      | inl null ↦
          FlushedBoth-cast {x = Flushed.ended success lists s} {o = some (success, rings, s)}
            (rw (null, flush_from) refl) (rw (null, flush_rings) refl) (rings, taken, refl, h)
      | inr some_thread ↦
          let (q, n, passed, one) =
            process_ring-Processed write_event (fails fuel) 512 (rings t) (taken t) (lists t) s
              (h t) in
          let rest = (process_thread write_event (lists t) s).1 in
          let held = AllHold-update rings taken lists t q n rest h one in
          elim (success_cases (process_thread write_event (lists t) s).0) [
            | inl ok ↦
                FlushedBoth-cast (lists_success fuel r t some_thread lists s ok)
                  (rings_success fuel r t some_thread (passes fails) rings s _ q _ passed ok)
                  (flush_rings-FlushedBoth fuel r (r.links t).next (update rings t q)
                    (update taken t n) (update lists t rest) _ held)
            | inr bad ↦
                FlushedBoth-cast (lists_failure fuel r t some_thread lists s bad)
                  (rings_failure fuel r t some_thread (passes fails) rings s _ q _ passed bad)
                  (update rings t q, update taken t n, refl, held)
          ]
    ]
