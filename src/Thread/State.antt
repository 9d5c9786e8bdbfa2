-- ===== src/Thread/State.antt =====
-- src/ThreadState.h, src/ThreadState.cpp and src/yardstick.cpp: the state of each thread, which is
-- made at the thread's first call and goes with the thread, and `EmitEvent`.
use yardstick.Base.{update, ℕ, Bool, true, false, if◌then◌else◌, Option, none, some, List}
use yardstick.Api.{YsResult, success}
use yardstick.Protocol.{EventData}
use yardstick.Queue.{Queue, empty_queue}
use yardstick.Thread.{Round, enque, finished, waiting}
use yardstick.Registry.{Registry, register_thread, deregister_thread}

-- The states of the threads by their addresses: `_queue` and `_thread`, and whether the variable
-- `state` of the thread has been made; `GlobalState` with its list of threads; and whether the
-- signal has been posted.
pub record Threads : Type 0 where
  pub queue : ℕ → Queue EventData
  pub thread : ℕ → ℕ
  pub constructed : ℕ → Bool
  pub registry : Registry
  pub posted : Bool

-- `ThreadState::ThreadState`, by the thread `id`, over what the queue's memory holds.
unfoldable pub construct : (id t : ℕ) → (ℕ → EventData) → Threads → Threads
construct id t memory s = record s {
  queue = update s.queue t (empty_queue memory);
  thread = update s.thread t id;
  constructed = update s.constructed t true;
  registry = register_thread t s.registry;
}

-- `ThreadState::~ThreadState`, at the end of the thread.
unfoldable pub destruct : (t : ℕ) → Threads → Threads
destruct t s = record s {
  constructed = update s.constructed t false;
  registry = deregister_thread t s.registry;
}

-- `thread_instance`
unfoldable pub thread_instance : (id t : ℕ) → (ℕ → EventData) → Threads → Threads
thread_instance id t memory s = if s.constructed t then s else construct id t memory s

-- `GetThreadId`
unfoldable pub get_thread_id : (t : ℕ) → Threads → ℕ
get_thread_id t s = s.thread t

-- `SignalPost`
unfoldable pub signal_post : Threads → Threads
signal_post s = record s { posted = true }

-- `thrd.Enque(ev)` on the state at `t`; `none` while it waits.
unfoldable pub enque_event :
    (t : ℕ)
    → Round EventData
    → List (Round EventData)
    → EventData
    → Threads
    → Option (YsResult × Threads)
enque_event t r rounds ev s = elim (enque r rounds ev (s.queue t)) [
  | waiting ↦ none
  | finished stored posted q ↦ some (
    success,
    let s' : Threads = record s { queue = update s.queue t q } in
        if posted then signal_post s' else s',
  )
]

-- `EmitEvent` in the thread `id`, the state of which is at `t`.
unfoldable pub emit_event :
    (id t : ℕ)
    → (ℕ → EventData)
    → Round EventData
    → List (Round EventData)
    → EventData
    → Threads
    → Option (YsResult × Threads)
emit_event id t memory r rounds ev s = enque_event t r rounds ev (thread_instance id t memory s)
