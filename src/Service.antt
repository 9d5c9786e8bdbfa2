-- ===== src/Service.antt =====
-- src/WebsocketSink.h: the class `WebsocketSink` as a machine: its public operations, with the calls
-- that webby makes back into it while the server is updated or shut down.
-- `webby_read` is webby's `WebbyRead` on its own state. The fuel is for the walks over the sessions.
pub mod Walks
pub mod Informing
pub mod Sessions
pub mod Closing
pub mod Machine
pub mod Progress
use yardstick.Base.{ℕ, ◌+◌, ◌*◌, ◌==◌, if◌then◌else◌, Option, none, some, List, [], ◌∷◌}
use yardstick.Protocol.{Memory, EventData}
use yardstick.Sink.{Sink, Blocks, Walk, ended, fault, unfinished}
use yardstick.Sink
use yardstick.Api.{YsResult, success}
use yardstick.Support.{Options}
use yardstick.Server.{Server, Answers}
use yardstick.Server
use yardstick.Connection.{log, dispatch, connect, connected, closed, frame}

-- The calls of webby, with what the allocator and the clock answer in them.
pub data Callback : Type 0 where
  webby_log : (text : ℕ) → Callback
  webby_dispatch webby_connect webby_closed webby_frame : (connection : ℕ) → Callback
  webby_connected : (frequency now : ℕ) → Blocks → (connection : ℕ) → Callback

-- The public operations.
pub data Operation : Type 0 where
  call_listen : (port allocator : ℕ) → Answers → List Callback → Operation
  call_close call_update : List Callback → Operation
  call_write_event : EventData → Operation
  call_flush : Operation

-- The sockets of Windows: `WSAStartup` of a version, and `WSACleanup`.
pub record Sockets {ℓ} (N : Type ℓ) : Type ℓ where
  pub wsa_startup : (version : ℕ) → N → N
  pub wsa_cleanup : N → N

module _ {ℓ} {N : Type ℓ} (sockets : Sockets N) where
  -- The constructor, where `MAKEWORD(2, 2)` is the version, and the destructor. The members keep
  -- their defaults.
  unfoldable pub construct_sink : Options → N → N
  construct_sink o n = if o.win32 then sockets.wsa_startup (2 + 2 * 256) n else n

  unfoldable pub destruct_sink : Options → N → N
  destruct_sink o n = if o.win32 then sockets.wsa_cleanup n else n

-- One walk after another.
infixl 5 ◌>>=◌
abbrev pub ◌>>=◌ {ℓ κ} : {A : Type ℓ} {B : Type κ} → Walk A → (A → Walk B) → Walk B
◌>>=◌ m k = elim m [ fault ↦ fault | unfinished ↦ unfinished | ended a ↦ k a ]

-- A walk that faults where nothing is there.
unfoldable pub walk_of {ℓ} : {A : Type ℓ} → Option A → Walk A
walk_of none = fault
walk_of (some a) = ended a

module _ {ℓ} {W : Type ℓ} (webby_read : (connection size : ℕ) → W → Option ℕ × W) (mem : Memory)
    (fuel : ℕ) where
  -- The allocator is the sink's.
  unfoldable pub run_callback : (allocator : ℕ) → Callback → Sink × W → Walk (Sink × W)
  run_callback allocator (webby_log text) (s, w) = ended (log text s, w)
  run_callback allocator (webby_dispatch connection) (s, w) = ended ((dispatch connection s).1, w)
  run_callback allocator (webby_connect connection) (s, w) = ended ((connect connection s).1, w)
  run_callback allocator (webby_connected frequency now b connection) (s, w) =
      walk_of (connected mem frequency now allocator b connection s) >>= (λ s'. ended (s', w))
  run_callback allocator (webby_closed connection) (s, w) =
      closed fuel connection s >>= (λ s'. ended (s', w))
  run_callback allocator (webby_frame connection) (s, w) =
      frame webby_read fuel connection s w >>= (λ (code, s', w'). ended (s', w'))

  unfoldable pub run_callbacks : (allocator : ℕ) → List Callback → Sink × W → Walk (Sink × W)
  run_callbacks allocator [] sw = ended sw
  run_callbacks allocator (c ∷ cs) sw = run_callback allocator c sw >>= run_callbacks allocator cs

  -- What the calls leave, if the server is there.
  unfoldable pub after_callbacks : List Callback → Server → W → Walk (Sink × W)
  after_callbacks cs v w =
      if v.server == 0 then ended (v.sink, w) else run_callbacks v.allocator cs (v.sink, w)

  -- Every operation, with what it returns.
  unfoldable pub perform_operation : Operation → Server → W → Walk (YsResult × Server × W)
  perform_operation (call_listen port allocator a cs) v w = after_callbacks cs v w >>= (λ (s, w').
      Server.listen (λ s0. s) fuel port allocator a v >>= (λ (r, v'). ended (r, v', w')))
  perform_operation (call_close cs) v w =
      after_callbacks cs v w
      >>= (λ (s, w'). Server.close (λ s0. s) fuel v >>= (λ (r, v'). ended (r, v', w')))
  perform_operation (call_update cs) v w =
      after_callbacks cs v w
      >>= (λ (s, w'). let (r, v') = Server.update (λ s0. s) v in ended (r, v', w'))
  perform_operation (call_write_event ev) v w =
      Sink.write_event mem fuel ev v.sink >>= (λ s. ended (success, record v { sink = s }, w))
  perform_operation call_flush v w =
      Sink.flush fuel v.sink >>= (λ s. ended (success, record v { sink = s }, w))
