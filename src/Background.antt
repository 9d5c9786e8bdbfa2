-- ===== src/Background.antt =====
-- src/GlobalState.cpp: the background thread, `ThreadMain` and `WriteEvent`, which puts the list of
-- threads, the sink and the web server together.
-- A turn of its loop is an argument: what `IsActive` answers, and what the other threads and the
-- callbacks of the allocator do while it waits for the signal; it looks at nothing that the wait
-- returns. What webby does in an update is `update_server`.
pub mod Taking
pub mod Serving
pub mod Turning
pub mod Loop
pub mod Arrivals
pub mod Draining
pub mod Emptied
pub mod Stuck
pub mod Rings
use yardstick.Base.{ℕ, List, [], ◌∷◌, Bool, if◌then◌else◌}
use yardstick.Api.{YsResult, success}
use yardstick.Protocol.{Memory, EventData}
use yardstick.Registry.{Registry, Flushed, flush_threads}
use yardstick.Sink.{Sink, Walk, ended, fault, unfinished, write_event, flush}
use yardstick.Server.{Server, update}

-- `_threads` with the queues of the threads, and `_websocketSink`.
pub record Background : Type 0 where
  pub registry : Registry
  pub queues : ℕ → List EventData
  pub server : Server

-- `GlobalState::WriteEvent`. A fault of the sink, or a loop in it that does not end, stays.
unfoldable pub broadcast : Memory → ℕ → EventData → Walk Sink → YsResult × Walk Sink
broadcast mem fuel ev w = elim w [
  | ended s ↦ (success, write_event mem fuel ev s)
  | fault ↦ (success, fault)
  | unfinished ↦ (success, unfinished)
]

module _ (mem : Memory) (update_server : Sink → Sink) where
  -- `_websocketSink.Flush()` and `_websocketSink.Update()`.
  unfoldable pub flush_sink : ℕ → (ℕ → List EventData) → Background → Walk Sink → Walk Background
  flush_sink fuel queues b w = elim w [
    | fault ↦ fault
    | unfinished ↦ unfinished
    | ended s ↦ elim (flush fuel s) [
      | fault ↦ fault
      | unfinished ↦ unfinished
      | ended s' ↦ ended (record b {
        queues = queues;
        server = (update update_server (record b.server { sink = s' })).1;
      })
    ]
  ]

  -- The body of the loop of `ThreadMain` after the wait. What `FlushThreads` returns is ignored.
  unfoldable pub main_turn : ℕ → Background → Walk Background
  main_turn fuel b =
      elim (flush_threads (broadcast mem fuel) fuel b.registry b.queues (ended b.server.sink)) [
        | Flushed.unfinished ↦ unfinished
        | Flushed.ended code queues w ↦ flush_sink fuel queues b w
      ]

-- A turn of the loop.
pub record Turn : Type 0 where
  pub active : Bool
  pub meanwhile : Background → Background

-- `ThreadMain`; `unfinished` also where the turns given are over.
unfoldable pub thread_main : Memory → (Sink → Sink) → ℕ → List Turn → Background → Walk Background
thread_main mem update_server fuel [] b = unfinished
thread_main mem update_server fuel (t ∷ turns) b =
    let later : Background → Walk Background = thread_main mem update_server fuel turns in
    if t.active
    then elim (main_turn mem update_server fuel (t.meanwhile b)) [
      | fault ↦ fault
      | unfinished ↦ unfinished
      | ended b' ↦ later b'
    ]
    else ended b
