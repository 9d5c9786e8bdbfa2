-- ===== src/Service/Progress.antt =====
-- src/WebsocketSink.h: the operations that the background thread calls end, with webby's calls.
use yardstick.Base.{
  ℕ, zero, suc, ◌+◌, ◌≡◌, ◌≢◌, ◌≤◌, ◌<◌, inl, inr, refl, sym, ap, ◌∙◌, Option, List, [], ◌∷◌, ◌==◌,
  Bool-cases, length, arith,
}
use yardstick.Api.{YsResult, success}
use yardstick.Protocol.{Memory}
use yardstick.Sink.{Node, Sink, ended, load, find_from, find_session}
use yardstick.Sink.Chain
use yardstick.Sink.Chain.{Chain}
use yardstick.Sink.Broadcast.{write_event-Told, flush-Served}
use yardstick.Connection.{log, dispatch, connect, closed, frame}
use yardstick.Connection.Opening.{connected-Log}
use yardstick.Connection.Leaving.{closed-ends}
use yardstick.Server.{Server}
use yardstick.Server
use yardstick.Service.{
  Callback, webby_log, webby_dispatch, webby_connect, webby_connected, webby_closed, webby_frame,
  Operation, call_listen, call_close, call_update, call_write_event, call_flush, walk_of,
  run_callback, run_callbacks, after_callbacks, perform_operation,
}
use yardstick.Service.Sessions.{IsWhole, connected-of_null}
use yardstick.Service.Machine.{Harmless, Opens, Safe, callback-IsWhole, perform_operation-IsWhole}

-- A list of sessions is determined by its links.
Chain-length :
    (heap : ℕ → Option Node) (p : ℕ) (xs ys : List ℕ)
    → Chain heap p xs
    → Chain heap p ys
    → length xs ≡ length ys
Chain-length heap p [] [] c d = refl
Chain-length heap p [] (y ∷ ys) c (e, nz, d) = absurd (nz (sym e ∙ c))
Chain-length heap p (x ∷ xs) [] (e, nz, c) d = absurd (nz (sym e ∙ d))
Chain-length heap p (x ∷ xs) (y ∷ ys) (e, nz, (n, here, prev, c)) (e', nz', (m, there, prev', d)) =
    let one : n ≡ m = let z = sym here ∙ ap heap (sym e ∙ e') ∙ there in cc in
    ap suc (Chain-length heap n.next xs ys c (rw one d))

find_from-ends :
    (fuel connection p : ℕ) (s : Sink) (xs : List ℕ)
    → Chain s.heap p xs
    → length xs < fuel
    → (q : ℕ) × (find_from fuel connection p s ≡ ended q)
unfolding find_from load
find_from-ends zero connection p s xs c h = absurd (omega arith)
find_from-ends (suc fuel) connection p s [] c h = (0, ground arith)
find_from-ends (suc fuel) connection p s (x ∷ xs) (e, nz, (n, here, prev, c)) h =
    elim (Bool-cases (n.session.connection == connection)) [
      | inl found ↦ (p, ground arith)
      | inr other ↦
          let (q, later) = find_from-ends fuel connection n.next s xs c (omega arith) in
          (q, ground arith)
    ]

module _ {W : Type 0} (webby_read : (connection size : ℕ) → W → Option ℕ × W) (mem : Memory)
    (fuel : ℕ) where
  frame-ends :
      (connection : ℕ) (s : Sink) (w : W) (xs : List ℕ)
      → Chain.IsValid s xs
      → length xs < fuel
      → frame webby_read fuel connection s w ≡ ended (0, s, (webby_read connection 1024 w).1)
  unfolding frame find_session
  frame-ends connection s w xs v h =
      rw ((find_from-ends fuel connection s.sessions s xs v.chain h).1, frame) refl

  -- A call ends with a whole list, which is at most one longer.
  abbrev Ends : (allocator : ℕ) → Callback → Sink → W → ℕ → Type 0
  Ends allocator c s w n =
      (s' : Sink) × (w' : W) × (run_callback webby_read mem fuel allocator c (s, w)
        ≡ ended (s', w'))
      × ((ys : List ℕ) × Chain.IsValid s' ys × (length ys ≤ suc n))

  callback-Ends :
      (allocator : ℕ) (c : Callback) (s : Sink) (w : W) (xs : List ℕ)
      → allocator ≢ 0
      → Chain.IsValid s xs
      → Harmless webby_read mem fuel c s
      → length xs < fuel
      → Ends allocator c s w (length xs)
  unfolding run_callback log dispatch connect frame closed find_session walk_of
  callback-Ends allocator (webby_log text) s w xs given v ok h = (s, w, refl, (xs, v, omega arith))
  callback-Ends allocator (webby_dispatch connection) s w xs given v ok h =
      (s, w, refl, (xs, v, omega arith))
  callback-Ends allocator (webby_connect connection) s w xs given v ok h =
      (s, w, refl, (xs, v, omega arith))
  callback-Ends allocator (webby_connected frequency now b connection) s w xs given v (inl null) h =
      (
        s,
        w,
        rw (connected-of_null mem frequency now allocator b connection s given null) refl,
        (xs, v, omega arith),
      )
  callback-Ends allocator (webby_connected frequency now b connection) s w xs given v
        (inr (nz1, nz2, nz3, dead)) h =
      let (s1, made, list, here, others) =
        connected-Log mem frequency now allocator b connection s xs given nz1 nz2 nz3 dead v in
      (s1, w, rw made refl, (b.session_block ∷ xs, list, omega arith))
  callback-Ends allocator (webby_closed connection) s w [] given v newest h =
      absurd (newest.0 v.chain)
  callback-Ends allocator (webby_closed connection) s w (x ∷ xs) given v newest h =
      let (s', gone, v') = closed_of fuel h in (s', w, rw gone refl, (xs, v', omega arith))
    where
      closed_of :
          (n : ℕ)
          → suc (length xs) < n
          → (s' : Sink) × (closed n connection s ≡ ended s') × Chain.IsValid s' xs
      closed_of zero h = absurd (omega arith)
      closed_of (suc n) h = closed-ends n connection s x xs newest v
  callback-Ends allocator (webby_frame connection) s w xs given v ok h = (
    s,
    (webby_read connection 1024 w).1,
    rw (frame-ends connection s w xs v h) refl,
    (xs, v, omega arith),
  )

  callbacks-end :
      (allocator : ℕ) (cs : List Callback) (s : Sink) (w : W)
      → allocator ≢ 0
      → (whole : IsWhole mem s) → Opens webby_read mem fuel allocator cs s w
      → length whole.members + length cs < fuel
      → (s' : Sink) × (w' : W) × (run_callbacks webby_read mem fuel allocator cs (s, w)
          ≡ ended (s', w'))
  unfolding run_callbacks
  callbacks-end allocator [] s w given whole ok h = (s, w, refl)
  callbacks-end allocator (c ∷ cs) s w given whole (harmless, ok) h =
      let (s1, w1, called, (ys, list, longer)) =
        callback-Ends allocator c s w whole.members given whole.list harmless (omega arith) in
      let after = callback-IsWhole webby_read mem fuel allocator c s w whole harmless called in
      let same = Chain-length s1.heap s1.sessions after.members ys after.list.chain list.chain in
      let (s2, w2, later) =
        callbacks-end allocator cs s1 w1 given after (ok s1 w1 called) (omega arith) in
      (s2, w2, rw called later)

  -- The calls of webby that an operation makes.
  abbrev pub calls_of : Operation → List Callback
  calls_of (call_update cs) = cs
  calls_of (call_close cs) = cs
  calls_of (call_listen port allocator a cs) = cs
  calls_of _ = []

  -- The operations of the background thread.
  abbrev pub IsServing : Operation → Type 0
  IsServing (call_listen port allocator a cs) = ⊥
  IsServing (call_close cs) = ⊥
  IsServing _ = Unit {0}

  update-ends :
      (cs : List Callback) (v : Server) (w : W)
      → (v.server ≢ 0 → v.allocator ≢ 0)
      → (whole : IsWhole mem v.sink) → Opens webby_read mem fuel v.allocator cs v.sink w
      → length whole.members + length cs < fuel
      → (s' : Sink) × (w' : W) × (after_callbacks webby_read mem fuel cs v w ≡ ended (s', w'))
  unfolding after_callbacks
  update-ends cs v w given whole ok h = elim (Bool-cases (v.server == 0)) [
    | inl off ↦ (v.sink, w, rw off refl)
    | inr on ↦
        let (s', w', called) =
          callbacks-end v.allocator cs v.sink w (given (ground arith)) whole ok h in
        (s', w', rw (on, called) refl)
  ]

  operation-ends :
      (op : Operation) (v : Server) (w : W)
      → (v.server ≢ 0 → v.allocator ≢ 0)
      → (whole : IsWhole mem v.sink) → Safe webby_read mem fuel op v w
      → IsServing op
      → length whole.members + length (calls_of op) < fuel
      → (r : YsResult) × (v' : Server) × (w' : W) × (perform_operation webby_read mem fuel op v w
          ≡ ended (r, v', w'))
  unfolding perform_operation
  operation-ends (call_listen port allocator a cs) v w given whole ok serving h = absurd serving
  operation-ends (call_close cs) v w given whole ok serving h = absurd serving
  operation-ends (call_update cs) v w given whole ok serving h =
      let (s', w', called) = update-ends cs v w given whole ok h in
      let (r, v') = Server.update (λ s0. s') v in (r, v', w', rw called refl)
  operation-ends (call_write_event ev) v w given whole plain serving h =
      let (s', wrote, list, told) =
        write_event-Told mem ev plain fuel v.sink whole.history whole.members whole.list
          whole.holding (omega arith) in
      (success, record v { sink = s' }, w, rw wrote refl)
  operation-ends call_flush v w given whole ok serving h =
      let (s', flushed, list, served) =
        flush-Served fuel v.sink whole.members whole.list (omega arith) in
      (success, record v { sink = s' }, w, rw flushed refl)

  -- On a whole list of valid sessions, with an allocator that is not null if there is a server,
  -- WriteEvent of an event other than a string, Flush, and Update with any calls of webby, where a
  -- client that comes is given three blocks, the first of which holds no session, or none for its
  -- session, and a client that goes is the one that came last of those there, end with no fault as
  -- long as there is fuel for more rounds than there are sessions and calls, and leave a whole list
  -- of valid sessions.
  pub perform_operation-ends :
      (op : Operation) (v : Server) (w : W)
      → (v.server ≢ 0 → v.allocator ≢ 0)
      → (whole : IsWhole mem v.sink) → Safe webby_read mem fuel op v w
      → IsServing op
      → length whole.members + length (calls_of op) < fuel
      → (r : YsResult) × (v' : Server) × (w' : W) × (perform_operation webby_read mem fuel op v w
          ≡ ended (r, v', w'))
        × IsWhole mem v'.sink
  perform_operation-ends op v w given whole ok serving h =
      let (r, v', w', ends) = operation-ends op v w given whole ok serving h in
      (r, v', w', ends, perform_operation-IsWhole webby_read mem fuel op v w whole ok ends)
