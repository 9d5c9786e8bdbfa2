-- ===== src/Service/Machine.antt =====
-- src/WebsocketSink.h: the operations of the class, and webby's calls back into it, one after another.
use yardstick.Base.{
  ℕ, ◌≡◌, ◌≢◌, ◌⊎◌, inl, inr, ap, ◌∙◌, Option, none, some, Bool, List, [], ◌∷◌, ◌==◌, Bool-cases,
}
use mathlib.Core.Path.{subst}
use yardstick.Api.{YsResult, success}
use yardstick.Protocol.{Memory, event_type}
use yardstick.Sink.{Sink, Blocks, Walk, ended, fault, unfinished, write_event, flush, find_session}
use yardstick.Server.{Server}
use yardstick.Server
use yardstick.Connection.{log, dispatch, connect, connected, closed, frame}
use yardstick.Connection.Leaving.{IsNewest}
use yardstick.Service.Closing.{closed-IsWhole, none-IsWhole, close-none, listen-none}
use yardstick.Service.{
  Callback, webby_log, webby_dispatch, webby_connect, webby_connected, webby_closed, webby_frame,
  Operation, call_listen, call_close, call_update, call_write_event, call_flush, ◌>>=◌, walk_of,
  run_callback, run_callbacks, after_callbacks, perform_operation,
}
use yardstick.Sink.Walks.{ended_inj, fault_ne, unfinished_ne}
use yardstick.Service.Walks.{bind_inv, walk_of_inv}
use yardstick.Service.Sessions.{
  empty_sink, opened, unopened, wrote, flushed, IsWhole, empty-IsWhole, Step-IsWhole,
}

frame_end :
    {W : Type 0} (x : Walk ℕ) (s : Sink) (w : W) {code : ℕ} {s' : Sink} {w' : W}
    → ◌≡◌ {A = Walk (ℕ × Sink × W)}
        (elim x [ fault ↦ fault | unfinished ↦ unfinished | ended p ↦ ended (0, s, w) ])
        (ended (code, s', w'))
    → s ≡ s'
frame_end (ended p) s w e = ap (λ y. y.1) (ended_inj e)
frame_end fault s w e = absurd (fault_ne e)
frame_end unfinished s w e = absurd (unfinished_ne e)

module _ {W : Type 0} (webby_read : (connection size : ℕ) → W → Option ℕ × W) (mem : Memory)
    (fuel : ℕ) where
  -- A client that comes is given three blocks, the first of which holds no session, or none for
  -- the session, and one that leaves is the one that came last of those there.
  abbrev pub Harmless : Callback → Sink → Type 0
  Harmless (webby_connected frequency now b connection) s =
      (b.session_block ≡ 0)
      ⊎ ((b.session_block ≢ 0)
          × (b.buffer_block ≢ 0)
          × (b.table_block ≢ 0)
          × (s.heap b.session_block ≡ none))
  Harmless (webby_closed connection) s = IsNewest connection s
  Harmless _ s = Unit {0}

  frame-same :
      (connection : ℕ) (s : Sink) (w : W) {code : ℕ} {s' : Sink} {w' : W}
      → frame webby_read fuel connection s w ≡ ended (code, s', w')
      → s ≡ s'
  unfolding frame
  frame-same connection s w e =
      frame_end (find_session fuel connection s) s (webby_read connection 1024 w).1 e

  connected-IsWhole :
      (frequency now allocator : ℕ) (b : Blocks) (connection : ℕ) (s : Sink) {s' : Sink}
      → IsWhole mem s
      → Harmless (webby_connected frequency now b connection) s
      → connected mem frequency now allocator b connection s ≡ some s'
      → IsWhole mem s'
  connected-IsWhole frequency now allocator b connection s whole (inl null) e =
      Step-IsWhole mem whole (unopened frequency now allocator b connection null e)
  connected-IsWhole frequency now allocator b connection s whole (inr (nz1, nz2, nz3, dead)) e =
      Step-IsWhole mem whole (opened frequency now allocator b connection nz1 nz2 nz3 dead e)

  pub callback-IsWhole :
      (allocator : ℕ) (c : Callback) (s : Sink) (w : W) {s' : Sink} {w' : W}
      → IsWhole mem s
      → Harmless c s
      → run_callback webby_read mem fuel allocator c (s, w) ≡ ended (s', w')
      → IsWhole mem s'
  unfolding run_callback log dispatch connect
  callback-IsWhole allocator (webby_log text) s w whole ok e =
      subst (IsWhole mem) (ap (λ x. x.0) (ended_inj e)) whole
  callback-IsWhole allocator (webby_dispatch connection) s w whole ok e =
      subst (IsWhole mem) (ap (λ x. x.0) (ended_inj e)) whole
  callback-IsWhole allocator (webby_connect connection) s w whole ok e =
      subst (IsWhole mem) (ap (λ x. x.0) (ended_inj e)) whole
  callback-IsWhole allocator (webby_connected frequency now b connection) s w whole ok e =
      let (s1, made, rest) =
        bind_inv (walk_of (connected mem frequency now allocator b connection s))
          (λ t. ended (t, w)) e in
      subst (IsWhole mem) (ap (λ x. x.0) (ended_inj rest))
        (connected-IsWhole frequency now allocator b connection s whole ok (walk_of_inv _ made))
  callback-IsWhole allocator (webby_closed connection) s w whole ok e =
      let (s1, gone, rest) = bind_inv (closed fuel connection s) (λ t. ended (t, w)) e in
      subst (IsWhole mem) (ap (λ x. x.0) (ended_inj rest))
        (closed-IsWhole mem fuel connection s whole ok gone)
  callback-IsWhole allocator (webby_frame connection) s w whole ok e =
      let ((code, s1, w1), read, rest) =
        bind_inv (frame webby_read fuel connection s w) (λ (code, t, u). ended (t, u)) e in
      subst (IsWhole mem) (frame-same connection s w read ∙ ap (λ x. x.0) (ended_inj rest)) whole

  -- Every call of a list is harmless where it is made.
  abbrev pub Opens : (allocator : ℕ) → List Callback → Sink → W → Type 0
  Opens allocator [] s w = Unit
  Opens allocator (c ∷ cs) s w =
      Harmless c s
      × ((s' : Sink) (w' : W)
          → run_callback webby_read mem fuel allocator c (s, w) ≡ ended (s', w')
          → Opens allocator cs s' w')

  callbacks-IsWhole :
      (allocator : ℕ) (cs : List Callback) (s : Sink) (w : W) {s' : Sink} {w' : W}
      → IsWhole mem s
      → Opens allocator cs s w
      → run_callbacks webby_read mem fuel allocator cs (s, w) ≡ ended (s', w')
      → IsWhole mem s'
  unfolding run_callbacks
  callbacks-IsWhole allocator [] s w whole ok e =
      subst (IsWhole mem) (ap (λ x. x.0) (ended_inj e)) whole
  callbacks-IsWhole allocator (c ∷ cs) s w whole (harmless, ok) e =
      let ((s1, w1), one, rest) =
        bind_inv (run_callback webby_read mem fuel allocator c (s, w))
          (run_callbacks webby_read mem fuel allocator cs) e in
      callbacks-IsWhole allocator cs s1 w1 (callback-IsWhole allocator c s w whole harmless one)
        (ok s1 w1 one) rest

  -- What the operations may be here: an event that is written is not a string, and the calls of
  -- webby are harmless.
  abbrev pub Safe : Operation → Server → W → Type 0
  Safe (call_write_event ev) v w = event_type ev ≢ 5
  Safe call_flush v w = Unit
  Safe (call_update cs) v w = Opens v.allocator cs v.sink w
  Safe (call_close cs) v w = Opens v.allocator cs v.sink w
  Safe (call_listen port allocator a cs) v w = Opens v.allocator cs v.sink w

  after-IsWhole :
      (cs : List Callback) (v : Server) (w : W) {s' : Sink} {w' : W}
      → IsWhole mem v.sink
      → Opens v.allocator cs v.sink w
      → after_callbacks webby_read mem fuel cs v w ≡ ended (s', w')
      → IsWhole mem s'
  unfolding after_callbacks
  after-IsWhole cs v w whole ok e = elim (Bool-cases (v.server == 0)) [
    | inl off ↦ subst (IsWhole mem) (ap (λ x. x.0) (ended_inj (rw off at e))) whole
    | inr on ↦ callbacks-IsWhole v.allocator cs v.sink w whole ok (rw on at e)
  ]

  update-IsWhole :
      (v : Server) {s' : Sink}
      → IsWhole mem v.sink
      → IsWhole mem s'
      → IsWhole mem (Server.update (λ s0. s') v).1.sink
  unfolding Server.update
  update-IsWhole v whole after = elim (Bool-cases (v.server == 0)) [
    | inl off ↦ rw off whole
    | inr on ↦ rw on after
  ]

  pub perform_operation-IsWhole :
      (op : Operation) (v : Server) (w : W) {r : YsResult} {v' : Server} {w' : W}
      → IsWhole mem v.sink
      → Safe op v w
      → perform_operation webby_read mem fuel op v w ≡ ended (r, v', w')
      → IsWhole mem v'.sink
  unfolding perform_operation
  perform_operation-IsWhole (call_write_event ev) v w whole plain e =
      let (s1, wrote_it, rest) =
        bind_inv (write_event mem fuel ev v.sink) (λ s. ended (success, record v { sink = s }, w))
          e in
      subst (IsWhole mem) (ap (λ x. x.1.sink) (ended_inj rest))
        (Step-IsWhole mem whole (wrote fuel ev plain wrote_it))
  perform_operation-IsWhole call_flush v w whole ok e =
      let (s1, flushed_it, rest) =
        bind_inv (flush fuel v.sink) (λ s. ended (success, record v { sink = s }, w)) e in
      subst (IsWhole mem) (ap (λ x. x.1.sink) (ended_inj rest))
        (Step-IsWhole mem whole (flushed fuel flushed_it))
  perform_operation-IsWhole (call_update cs) v w whole ok e =
      let ((s1, w1), called, rest) =
        bind_inv (after_callbacks webby_read mem fuel cs v w)
          (λ (s, u). ended ((Server.update (λ s0. s) v).0, (Server.update (λ s0. s) v).1, u)) e in
      subst (IsWhole mem) (ap (λ x. x.1.sink) (ended_inj rest))
        (update-IsWhole v whole (after-IsWhole cs v w whole ok called))
  perform_operation-IsWhole (call_listen port allocator a cs) v w whole ok e =
      let ((s1, w1), called, rest) =
        bind_inv (after_callbacks webby_read mem fuel cs v w)
          (λ (s, u).
            Server.listen (λ s0. s) fuel port allocator a v >>= (λ (r, v'). ended (r, v', u)))
          e in
      let ((r1, v1), listened, done) =
        bind_inv (Server.listen (λ s0. s1) fuel port allocator a v) (λ (r, v'). ended (r, v', w1))
          rest in
      let after = after-IsWhole cs v w whole ok called in
      subst (IsWhole mem) (ap (λ x. x.1.sink) (ended_inj done)) (
        none-IsWhole mem v1.sink (
          listen-none (λ s0. s1) fuel port allocator a v whole.members after.members whole.list
            after.list listened))
  perform_operation-IsWhole (call_close cs) v w whole ok e =
      let ((s1, w1), called, rest) =
        bind_inv (after_callbacks webby_read mem fuel cs v w)
          (λ (s, u). Server.close (λ s0. s) fuel v >>= (λ (r, v'). ended (r, v', u))) e in
      let ((r1, v1), closed_it, done) =
        bind_inv (Server.close (λ s0. s1) fuel v) (λ (r, v'). ended (r, v', w1)) rest in
      let after = after-IsWhole cs v w whole ok called in
      subst (IsWhole mem) (ap (λ x. x.1.sink) (ended_inj done)) (
        none-IsWhole mem v1.sink (
          close-none (λ s0. s1) fuel v whole.members after.members whole.list after.list closed_it))

  -- A sink without sessions, and after it any safe operations that end.
  pub data Runs : Server → W → Type 0 where
    begun : (v : Server) (w : W) (live : ℕ → Bool) → v.sink ≡ empty_sink live → Runs v w
    performed :
        {v v' : Server} {w w' : W} {r : YsResult} (op : Operation)
        → Runs v w
        → Safe op v w
        → perform_operation webby_read mem fuel op v w ≡ ended (r, v', w')
        → Runs v' w'

  -- From a sink without sessions on, after any sequence of operations of the class that end,
  -- Listen, Close, Update, Flush, and WriteEvent of an event other than a string, with any calls of
  -- webby, where a client that comes is given three blocks, the first of which holds no session, or
  -- none for its session, and a client that goes is the one that came last of those there, the list
  -- of sessions is whole, and each session in it is valid and has taken a history of events, of
  -- which each message sent holds some and the buffer the others, and in which for every string of
  -- an event a string with the same bit of the table stands before the event.
  pub Runs-IsWhole : {v : Server} {w : W} → Runs v w → IsWhole mem v.sink
  Runs-IsWhole (begun v w live e) = rw e (empty-IsWhole mem live)
  Runs-IsWhole (performed op runs ok e) = perform_operation-IsWhole op _ _ (Runs-IsWhole runs) ok e
