-- ===== src/Signal.antt =====
-- src/Signal.h: the signal that wakes the background thread.
-- Away from Windows it is a mutex, a condition variable and a flag. One thread waits; any number of
-- threads post, and `pending` of them have set the flag and not called `notify_all` yet. A wait
-- tests the flag, blocks if it is not set, tests it again when it is notified or wakes for no
-- reason, and gives up when its time is over; the blocking is a step of its own, since `Post` does
-- not take the mutex.
pub mod Waking
pub mod Windows
use yardstick.Base.{ℕ, suc, ◌*◌, ◌^◌, ◌≡◌, Bool, true, false}

-- Where the waiting thread stands: outside `Wait`, before the test of the flag, after a test that
-- failed, blocked, before `_ready = false`.
pub data Waiter : Type 0 where
  away checking missed asleep clearing : Waiter

pub record Signal : Type 0 where
  pub ready : Bool
  pub pending : ℕ
  pub waiter : Waiter

-- The constructor.
abbrev pub fresh_signal : Signal
fresh_signal = record { ready = false; pending = 0; waiter = away }

-- What `notify_all` does to the waiting thread.
unfoldable pub notified : Waiter → Waiter
notified asleep = checking
notified w = w

-- The steps of `Wait`.
pub data WaitStep (s : Signal) : Signal → Type 0 where
  arrive : s.waiter ≡ away → WaitStep s (record s { waiter = checking })
  see : s.waiter ≡ checking → s.ready ≡ true → WaitStep s (record s { waiter = clearing })
  miss : s.waiter ≡ checking → s.ready ≡ false → WaitStep s (record s { waiter = missed })
  block : s.waiter ≡ missed → WaitStep s (record s { waiter = asleep })
  wake : s.waiter ≡ asleep → WaitStep s (record s { waiter = checking })
  expire : s.waiter ≡ asleep → WaitStep s (record s { waiter = clearing })
  clear : s.waiter ≡ clearing → WaitStep s (record s { waiter = away; ready = false })

-- The steps of `Post`.
pub data PostStep (s : Signal) : Signal → Type 0 where
  raise : PostStep s (record s { ready = true; pending = suc s.pending })
  notify :
      {n : ℕ}
      → s.pending ≡ suc n
      → PostStep s (record s { pending = n; waiter = notified s.waiter })

-- How long a wait lasts at most, in nanoseconds.
unfoldable pub wait_limit : (microseconds : ℕ) → ℕ
wait_limit microseconds = microseconds * 10 ^ 3
