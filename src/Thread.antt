-- ===== src/Thread.antt =====
-- src/ThreadState.cpp: `Enque`, which waits for room in the thread's queue while the library is
-- active.
-- Each round of the wait is an argument: what `IsActive` answers, the outcomes of the exchange in
-- `TryEnque`, and what the other threads do to the queue before the next round.
pub mod Waiting
pub mod State
pub mod Life
use yardstick.Base.{Bool, true, false, if◌then◌else◌, Option, none, some, List, [], ◌∷◌}
use yardstick.Queue.{Queue, try_enque, try_deque}

pub record Round {ℓ} (A : Type ℓ) : Type ℓ where
  pub active : Bool
  pub outcomes : List Bool
  pub between : Queue A → Queue A

-- How `Enque` ends: whether the value went in, whether the signal was posted, and the queue.
pub data Enqued {ℓ} (A : Type ℓ) : Type ℓ where
  finished : (stored posted : Bool) → Queue A → Enqued A
  waiting : Enqued A

module _ {ℓ} {A : Type ℓ} where
  -- `while (gs.IsActive() && !_queue.TryEnque(ev))`
  unfoldable pub enque_loop : List (Round A) → A → Queue A → Enqued A
  enque_loop [] value q = waiting
  enque_loop (r ∷ rounds) value q =
      let later : Queue A → Enqued A = enque_loop rounds value in
      if r.active
      then elim (try_enque r.outcomes value q) [
        | none ↦ waiting
        | some (true, q') ↦ finished true true q'
        | some (false, q') ↦ later (r.between q')
      ]
      else finished false true q

  -- `ThreadState::Enque`; the first round is the test of its `if`.
  unfoldable pub enque : Round A → List (Round A) → A → Queue A → Enqued A
  enque r rounds value q =
      if r.active
      then elim (try_enque r.outcomes value q) [
        | none ↦ waiting
        | some (true, q') ↦ finished true false q'
        | some (false, q') ↦ enque_loop rounds value (r.between q')
      ]
      else finished false false q

  -- `ThreadState::Deque`
  unfoldable pub deque : List Bool → Queue A → Option (Option A × Queue A)
  deque outcomes q = try_deque outcomes q
