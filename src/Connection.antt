-- ===== src/Connection.antt =====
-- src/WebsocketSink.cpp: `webby_connected` and `webby_closed`, which webby calls when a client comes
-- and when it goes.
pub mod Opening
pub mod Leaving
use yardstick.Base.{ℕ, ◌==◌, if◌then◌else◌, Option, none, some, ◌>>=◌}
use yardstick.Protocol.{Memory}
use yardstick.Emit.{connected_header}
use yardstick.Session.{finished, crashed, write_session_event}
use yardstick.Sink.{
  Sink, Blocks, Walk, ended, fault, unfinished, load, store, create_session, find_session,
  destroy_session,
}

-- `sink.WriteSessionEvent(session, ev)` on the block `p`, its result ignored.
unfoldable pub greet : Memory → (frequency now : ℕ) → ℕ → Sink → Option Sink
greet mem frequency now p s = do
  n ← load p s
  elim (write_session_event mem (connected_header frequency now) n.session) [
    | crashed ↦ none
    | finished r t ↦ some (store p (record n { session = t }) s)
  ]

-- `webby_connected` on a sink with this `_allocator`.
unfoldable pub connected :
    Memory → (frequency now : ℕ) → (allocator : ℕ) → Blocks → (connection : ℕ) → Sink → Option Sink
connected mem frequency now allocator b connection s = do
  (p, s1) ← create_session allocator b connection s
  if p == 0 then some s1 else greet mem frequency now p s1

-- `webby_closed`
unfoldable pub closed : ℕ → (connection : ℕ) → Sink → Walk Sink
closed fuel connection s = elim (find_session fuel connection s) [
  | fault ↦ fault
  | unfinished ↦ unfinished
  | ended p ↦ elim (destroy_session p s) [ none ↦ fault | some s' ↦ ended s' ]
]

-- `webby_log`: there is no log to write to.
unfoldable pub log : (text : ℕ) → Sink → Sink
log text s = s

-- `webby_dispatch`: no request for a page is handled.
unfoldable pub dispatch : (connection : ℕ) → Sink → ℕ × Sink
dispatch connection s = (1, s)

-- `webby_connect`: every client may open a socket.
unfoldable pub connect : (connection : ℕ) → Sink → ℕ × Sink
connect connection s = (0, s)

-- `webby_frame`. What is read of the frame is dropped, and so is the session that was looked for;
-- `webby_read` is webby's `WebbyRead` on its own state, which gives a negative number or how much it
-- has read.
unfoldable pub frame {ℓ} :
    {W : Type ℓ} (webby_read : (connection size : ℕ) → W → Option ℕ × W)
    → ℕ
    → (connection : ℕ) → Sink
    → W
    → Walk (ℕ × Sink × W)
frame webby_read fuel connection s w = elim (find_session fuel connection s) [
  | fault ↦ fault
  | unfinished ↦ unfinished
  | ended p ↦ ended (0, s, (webby_read connection 1024 w).1)
]
