-- ===== src/Program.antt =====
-- src/GlobalState.h and src/yardstick.cpp: the whole library as the functions that it exports, over
-- the state that they share.
-- A call that does not return leaves no state. The rounds that a wait for room goes through, and
-- whether the library is active in them, are what `schedule` says; the time that passes between two
-- readings of the clock is `pass`; the answers of the allocator and of webby are arguments.
pub mod Profiling
pub mod Turns
pub mod Watching
pub mod Nesting
use yardstick.Base.{ℕ, Option, none, some, List, Bool, false, update}
use yardstick.Api.{YsResult, success, unknown}
use yardstick.Protocol.{Memory, EventData}
use yardstick.Clock.{Platform}
use yardstick.Clock
use yardstick.Queue.{Queue}
use yardstick.Registry.{Registry}
use yardstick.Thread.{Round}
use yardstick.Thread.State.{Threads, emit_event}
use yardstick.Sink.{Sink, Walk, ended, fault, unfinished}
use yardstick.Server.{Server, Answers}
use yardstick.Server
use yardstick.Lifecycle.{Global, initialize, shutdown, listen_websocket, initial}
use yardstick.Emit.{emit_record, emit_count, emit_region}
use yardstick.Emit
use yardstick.Macros.{Library}
use yardstick.Background.Rings.{ring_turn}

-- The members of `GlobalState`, with the clock of the platform.
pub record Program : Type 0 where
  pub global : Global (Walk Server)
  pub threads : Threads
  pub clock : Platform

-- The sink of a new state: the defaults of its members.
abbrev pub new_server : Sink → Server
new_server s = record { allocator = 0; port = 0; server = 0; memory = 0; sink = s }

-- The state of `GlobalState::instance` when it is made, with no thread yet.
unfoldable pub instance_state : Sink → Threads → Platform → Program
instance_state s ts clock = record {
  global = initial (ended (new_server s));
  threads = ts;
  clock = clock;
}

-- `_websocketSink.Listen`, whose faults stay.
unfoldable pub sink_listen :
    (Sink → Sink) → ℕ → Answers → (port allocator : ℕ) → Walk Server → YsResult × Walk Server
sink_listen shutdown_server fuel a port allocator w = elim w [
  | fault ↦ (unknown, fault)
  | unfinished ↦ (unknown, unfinished)
  | ended v ↦ elim (Server.listen shutdown_server fuel port allocator a v) [
    | fault ↦ (unknown, fault)
    | unfinished ↦ (unknown, unfinished)
    | ended (r, v') ↦ (r, ended v')
  ]
]

-- A call on the state, if there is one.
abbrev pub call {κ} :
    {B : Type κ} → B → (Program → B × Option Program) → Option Program → B × Option Program
call b f none = (b, none)
call b f (some g) = f g

module _ (shutdown_server : Sink → Sink) (fuel : ℕ) (answers : Answers)
    (schedule : Program → Round EventData × List (Round EventData)) (pass : Platform → Platform)
    (memory : ℕ → EventData) (id t : ℕ) where
  -- `EmitEvent` in the thread `id`.
  unfoldable pub emit : EventData → Program → YsResult × Option Program
  emit ev g = elim (emit_event id t memory (schedule g).0 (schedule g).1 ev g.threads) [
    | none ↦ (success, none)
    | some (r, ts) ↦ (r, some (record g { threads = ts }))
  ]

  -- `read_clock`
  unfoldable pub read_clock : Program → ℕ × Option Program
  read_clock g = (Clock.read_clock g.clock, some (record g { clock = pass g.clock }))

  -- An operation of `GlobalState`.
  abbrev pub global_call :
      (Global (Walk Server) → YsResult × Global (Walk Server)) → Program → YsResult × Option Program
  global_call f g = let (r, g') = f g.global in (r, some (record g { global = g' }))

  -- `tick`: the event is emitted after the clock has been read.
  unfoldable pub tick : Program → YsResult × Option Program
  tick g = let (now, g') = read_clock g in call success (emit (Emit.tick now)) g'

  -- The exported functions as src/yardstick.cpp defines them.
  unfoldable pub library : Library (Option Program)
  library = record {
    initialize = λ allocator. call success (global_call (initialize allocator));
    shutdown = call success (global_call shutdown);
    tick = call success tick;
    listen_web = λ port.
        call success
          (global_call (listen_websocket (sink_listen shutdown_server fuel answers) port));
    emit_record =
        λ when value name file line. call success (emit (emit_record when value name file line));
    emit_count = λ amount name. call success (emit (emit_count amount name));
    emit_region = λ start_time end_time name file line.
        call success (emit (emit_region start_time end_time name file line));
    read_clock = call 0 read_clock;
  }

-- The body of the loop of `ThreadMain`, after the wait, on the state of the program; `outcomes` are
-- those of the exchanges in `TryDeque`.
unfoldable pub background_turn :
    Memory → (Sink → Sink) → ℕ → (ℕ → ℕ → List Bool) → Program → Walk Program
background_turn mem update_server fuel outcomes g = elim g.global.sink [
  | fault ↦ fault
  | unfinished ↦ unfinished
  | ended v ↦
      elim (ring_turn mem update_server fuel outcomes g.threads.registry g.threads.queue v) [
        | fault ↦ fault
        | unfinished ↦ unfinished
        | ended (rings, v') ↦ ended (record g {
          threads = record g.threads { queue = rings };
          global = record g.global { sink = ended v' };
        })
      ]
]
