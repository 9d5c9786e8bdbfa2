-- ===== src/Program/Profiling.antt =====
-- inc/yardstick/yardstick.h and src/yardstick.cpp: `ysProfile` down to the queue of the thread.
use yardstick.Base.{
  ℕ, ◌≡◌, ◌<◌, refl, Option, some, Bool, true, false, List, [], ◌∷◌, ◌++◌, length, update,
}
use yardstick.Api.{success}
use yardstick.Protocol.{EventData}
use yardstick.Clock.{Platform}
use yardstick.Clock
use yardstick.Queue.{Queue, buffer_size}
use yardstick.Queue.Ring.{Holds}
use yardstick.Queue.Refine.{after_failures, try_enque-success}
use yardstick.Thread.{Round, finished, enque}
use yardstick.Thread.Life.{stored_at_once, thread_instance-old, emit_event-of}
use yardstick.Sink.{Sink}
use yardstick.Server.{Answers}
use yardstick.Emit.{emit_region}
use yardstick.Macros.{with_library, ys_profile}
use yardstick.Program.{Program, emit, read_clock, library}

-- The state with another queue in the thread `t`.
abbrev pub with_queue : ℕ → Queue EventData → Program → Program
with_queue t q g = record g { threads = record g.threads { queue = update g.threads.queue t q } }

module _ (shutdown_server : Sink → Sink) (fuel : ℕ) (answers : Answers)
    (schedule : Program → Round EventData × List (Round EventData)) (pass : Platform → Platform)
    (memory : ℕ → EventData) (id t : ℕ) where
  -- The next event of the thread goes in: its state is made, its queue holds some events, oldest
  -- first, and has room, and the library is active when it is asked; the exchange may fail for no
  -- reason first.
  pub record IsOpen (g : Program) (taken : ℕ) (xs : List EventData) : Type 0 where
    pub made : g.threads.constructed t ≡ true
    pub held : Holds (g.threads.queue t) taken xs
    pub room : length xs < buffer_size
    pub active : (schedule g).0.active ≡ true
    pub failures : ℕ
    pub rest : List Bool
    pub outcomes : (schedule g).0.outcomes ≡ after_failures failures rest

  emit-stored :
      (ev : EventData) (g : Program) (taken : ℕ) (xs : List EventData)
      → IsOpen g taken xs
      → (q : Queue EventData) × (emit shutdown_server fuel answers schedule pass memory id t ev g
          ≡ (success, some (with_queue t q g)))
        × Holds q taken (xs ++ (ev ∷ []))
  unfolding emit
  emit-stored ev g taken xs o =
      let (q, stored, held) =
        try_enque-success (g.threads.queue t) taken xs ev o.failures o.rest o.held o.room in
      let r : Round EventData = (schedule g).0 in
      let into : enque r (schedule g).1 ev (g.threads.queue t) ≡ finished true false q =
        stored_at_once r (schedule g).1 ev (g.threads.queue t) o.active (rw o.outcomes stored) in
      let put =
        emit_event-of id t memory r (schedule g).1 ev g.threads
          (thread_instance-old id t memory r (schedule g).1 ev g.threads o.made) into in
      (q, rw (put, emit) refl, held)

  -- Where a scope that ysProfile opens over the functions of yardstick.cpp runs to its end in a
  -- thread whose state has been made, with the library active when it is asked and with room in the
  -- thread's queue, the region that lasts from the clock at the start of the scope to the clock at
  -- its end is put behind the events that the queue holds by then, and the scope gives what it
  -- gave.
  pub ys_profile-queued {κ} :
      {B : Type κ} (name file line : ℕ) (scope : Option Program → B × Option Program)
      (g g1 : Program) (b : B) (taken : ℕ) (xs : List EventData)
      → scope (some (record g { clock = pass g.clock })) ≡ (b, some g1)
      → IsOpen (record g1 { clock = pass g1.clock }) taken xs
      → (q : Queue EventData) × (ys_profile
            (library shutdown_server fuel answers schedule pass memory id t)
            with_library
            name
            file
            line
            scope
            (some g)
          ≡ (b, some (with_queue t q (record g1 { clock = pass g1.clock }))))
        × Holds q taken (
            xs
            ++ (emit_region (Clock.read_clock g.clock) (Clock.read_clock g1.clock) name file line
                ∷ []))
  unfolding ys_profile library read_clock
  ys_profile-queued name file line scope g g1 b taken xs runs o =
      let (q, emitted, held) =
        emit-stored
          (emit_region (Clock.read_clock g.clock) (Clock.read_clock g1.clock) name file line)
          (record g1 { clock = pass g1.clock }) taken xs o in
      (q, rw (runs, ys_profile) (rw (emitted, ys_profile) refl), held)
