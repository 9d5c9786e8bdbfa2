-- ===== src/Thread/Life.antt =====
-- src/ThreadState.cpp and src/yardstick.cpp: a thread's first event, and its end.
use yardstick.Base.{
  if◌then◌else◌, update, update_self, ℕ, ◌≡◌, ◌≢◌, refl, ap, ◌∙◌, Bool, true, false, some, List, [],
  ◌∷◌, arith,
}
use yardstick.Api.{success}
use yardstick.Protocol.{EventData}
use yardstick.Queue.{Queue, empty_queue, try_enque}
use yardstick.Queue.Ring.{Holds, empty_queue-Holds}
use yardstick.Queue.Refine.{after_failures, try_enque-success}
use yardstick.Thread.{Round, finished, enque}
use yardstick.Thread.State.{
  Threads, construct, thread_instance, signal_post, enque_event, emit_event,
}
use yardstick.Registry.{Registry, register_thread, deregister_thread, set_next, set_prev}

module _ (t : ℕ) (r : Registry) where
  -- A thread that registers in an empty list and leaves it again leaves it empty.
  pub deregister_thread-alone :
      t ≢ 0
      → r.threads ≡ 0
      → (r.links t).prev ≡ 0
      → (deregister_thread t (register_thread t r)).threads ≡ 0
  unfolding deregister_thread register_thread set_next set_prev
  deregister_thread-alone nz empty first = ground arith

  -- A thread whose link _prev is null that is registered in a list that is not empty, with another
  -- thread first in it, and then deregistered leaves that other thread first, with its link _next
  -- still on the thread that has gone.
  pub deregister_thread-dangling :
      t ≢ 0
      → t ≢ r.threads
      → r.threads ≢ 0
      → (r.links t).prev ≡ 0
      → ((deregister_thread t (register_thread t r)).threads ≡ r.threads)
        × (((deregister_thread t (register_thread t r)).links r.threads).next ≡ t)
  unfolding deregister_thread register_thread set_next set_prev
  deregister_thread-dangling nz other some_thread first = (ground arith, ground arith)

pub stored_at_once :
    (r : Round EventData) (rounds : List (Round EventData)) (ev : EventData) (q : Queue EventData)
    {q' : Queue EventData}
    → r.active ≡ true
    → try_enque r.outcomes ev q ≡ some (true, q')
    → enque r rounds ev q ≡ finished true false q'
unfolding enque
stored_at_once r rounds ev q on e = rw (on, e) refl

module _ (id t : ℕ) (memory : ℕ → EventData) (r : Round EventData) (rounds : List (Round EventData))
    (ev : EventData) (s : Threads) where
  thread_instance-new :
      s.constructed t ≡ false → thread_instance id t memory s ≡ construct id t memory s
  unfolding thread_instance
  thread_instance-new new = rw new refl

  pub thread_instance-old : s.constructed t ≡ true → thread_instance id t memory s ≡ s
  unfolding thread_instance
  thread_instance-old old = rw old refl

  not_stored : r.active ≡ false → enque r rounds ev (s.queue t) ≡ finished false false (s.queue t)
  unfolding enque
  not_stored off = rw off refl

  pub emit_event-of :
      {s1 : Threads} {stored posted : Bool} {q : Queue EventData}
      → thread_instance id t memory s ≡ s1
      → enque r rounds ev (s1.queue t) ≡ finished stored posted q
      → emit_event id t memory r rounds ev s
        ≡ some (
          success,
          if posted
              then signal_post (record s1 { queue = update s1.queue t q })
              else record s1 { queue = update s1.queue t q },
        )
  unfolding emit_event enque_event
  emit_event-of e into = ap (enque_event t r rounds ev) e ∙ rw (into, enque_event) refl

  -- The first event that a thread emits while the library is active makes the thread's state,
  -- registers the thread, and is alone in its queue, however often the exchange fails for no reason
  -- first; EmitEvent returns Success.
  pub emit_event-first :
      (n : ℕ) (rest : List Bool)
      → s.constructed t ≡ false
      → r.active ≡ true
      → r.outcomes ≡ after_failures n rest
      → (s' : Threads) × (emit_event id t memory r rounds ev s ≡ some (success, s'))
        × (s'.constructed t ≡ true)
        × (s'.registry ≡ register_thread t s.registry)
        × Holds (s'.queue t) 0 (ev ∷ [])
  unfolding construct
  emit_event-first n rest new on e =
      let (q, stored, held) =
        try_enque-success (empty_queue memory) 0 [] ev n rest (empty_queue-Holds memory)
          (omega arith) in
      let into : enque r rounds ev (empty_queue memory) ≡ finished true false q =
        stored_at_once r rounds ev (empty_queue memory) on (rw e stored) in
      let c : Threads = construct id t memory s in
      let own : c.queue t ≡ empty_queue memory = update_self s.queue t (empty_queue memory) in
      (
        record c { queue = update c.queue t q },
        emit_event-of (thread_instance-new new) (ap (λ x. enque r rounds ev x) own ∙ into),
        update_self s.constructed t true,
        refl,
        rw (update_self c.queue t q) held,
      )

  -- While the library is not active EmitEvent returns Success, and the event is in no queue.
  pub emit_event-off :
      s.constructed t ≡ true
      → r.active ≡ false
      → (s' : Threads) × (emit_event id t memory r rounds ev s ≡ some (success, s'))
        × (s'.queue t ≡ s.queue t)
        × (s'.registry ≡ s.registry)
  emit_event-off old off = (
    record s { queue = update s.queue t (s.queue t) },
    emit_event-of (thread_instance-old old) (not_stored off),
    update_self s.queue t (s.queue t),
    refl,
  )
