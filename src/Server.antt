-- ===== src/Server.antt =====
-- src/WebsocketSink.cpp: `Listen`, `Close` and `Update`, which own the web server of webby and the
-- block of memory that it lives in.
-- What webby does is an argument: `shutdown_server` and `update_server` are what its calls back into
-- the sink do to the sessions, and `Answers` what the allocator and `WebbyServerInit` return. That
-- the server's block is freed though it is not allocated is a fault.
pub mod Listening
use yardstick.Base.{ℕ, ◌==◌, if◌then◌else◌, Option, none, some, ◌>>=◌}
use yardstick.Api.{YsResult, success, no_memory, unknown, uninitialized}
use yardstick.Sink.{Sink, Walk, ended, fault, unfinished, free, allocate, destroy_all}

-- `_allocator`, `_port`, `_server`, `_memory`, and the sessions.
pub record Server : Type 0 where
  pub allocator : ℕ
  pub port : ℕ
  pub server : ℕ
  pub memory : ℕ
  pub sink : Sink

-- `_allocator(p, 0)`
unfoldable pub release : ℕ → Sink → Option Sink
release p s = if p == 0 then some s else if s.live p then some (free p s) else none

-- The block for the server, and the server in it; 0 where there is none.
pub record Answers : Type 0 where
  pub memory : ℕ
  pub server : ℕ

module _ (shutdown_server : Sink → Sink) where
  -- The first two steps of `Close`.
  unfoldable pub stop_server : Server → Server
  stop_server v =
      if v.server == 0 then v else record v { server = 0; sink = shutdown_server v.sink }

  unfoldable pub free_memory : Server → Option Server
  free_memory v =
      if v.allocator == 0
      then some v
      else (do s ← release v.memory v.sink; some (record v { sink = s }))

  -- `Close`
  unfoldable pub close : ℕ → Server → Walk (YsResult × Server)
  close fuel v = elim (free_memory (stop_server v)) [
    | none ↦ fault
    | some w ↦ elim (destroy_all fuel w.sink) [
      | ended s ↦ ended (success, record w { sink = s })
      | fault ↦ fault
      | unfinished ↦ unfinished
    ]
  ]

  -- `Listen` after its call of `Close`. A call of a null allocator is a fault.
  unfoldable pub start_server : ℕ → ℕ → Answers → Server → Walk (YsResult × Server)
  start_server port allocator a v =
      if allocator == 0
      then fault
      else if a.memory == 0
      then ended (no_memory, record v { allocator = allocator; port = port; memory = 0 })
      else if a.server == 0
      then ended (
        unknown,
        record v {
          allocator = allocator;
          port = port;
          server = 0;
          memory = 0;
          sink = free a.memory (allocate a.memory v.sink);
        },
      )
      else ended (
        success,
        record v {
          allocator = allocator;
          port = port;
          server = a.server;
          memory = a.memory;
          sink = allocate a.memory v.sink;
        },
      )

  -- `Listen`
  unfoldable pub listen : ℕ → ℕ → ℕ → Answers → Server → Walk (YsResult × Server)
  listen fuel port allocator a v = elim (close fuel v) [
    | ended (r, w) ↦ start_server port allocator a w
    | fault ↦ fault
    | unfinished ↦ unfinished
  ]

-- `Update`
unfoldable pub update : (Sink → Sink) → Server → YsResult × Server
update update_server v =
    if v.server == 0
    then (uninitialized, v)
    else (success, record v { sink = update_server v.sink })
