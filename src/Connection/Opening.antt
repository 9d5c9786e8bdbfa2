-- ===== src/Connection/Opening.antt =====
-- src/WebsocketSink.cpp: what a client gets when it comes, and when a connection without a session
-- goes.
use mathlib.Core.Path.{subst}
use yardstick.Base.{
  zero, suc, length, ◌<◌, ℕ, ◌≡◌, ◌≢◌, refl, sym, ◌∙◌, some, none, List, [], ◌∷◌, arith,
  update_self, update-ne,
}
use yardstick.Protocol.{Memory, event_type}
use yardstick.Emit.{connected_header}
use yardstick.Session.{Session, write_session_event, finished}
use yardstick.Session.Valid.{IsValid, Log}
use yardstick.Session.Strings.{announce, told_all}
use yardstick.Session.Events.{strings, write_session_event-Done}
use yardstick.Sink.{
  Sink, Node, Blocks, ended, fault, load, store, create_session, fresh_session, find_from,
  find_session, destroy_session,
}
use yardstick.Sink.Chain
use yardstick.Sink.Fresh.{fresh_session-IsValid, fresh_session-Log}
use yardstick.Sink.Chain.{Chain, Chain-head}
use yardstick.Sink.Create.{new_node, create_session-success}
use yardstick.Api.{success}
use yardstick.Connection.{greet, connected, closed}

header-plain : (frequency now : ℕ) → event_type (connected_header frequency now) ≢ 5
unfolding event_type connected_header
header-plain frequency now = omega arith

greet-of_load :
    (mem : Memory) (frequency now p : ℕ) (s : Sink) (n : Node) {t : Session}
    → s.heap p ≡ some n
    → write_session_event mem (connected_header frequency now) n.session ≡ finished success t
    → greet mem frequency now p s ≡ some (store p (record n { session = t }) s)
unfolding greet load
greet-of_load mem frequency now p s n here done = ground arith

connected-of_create :
    (mem : Memory) (frequency now allocator : ℕ) (b : Blocks) (connection : ℕ) (s s1 : Sink)
    → b.session_block ≢ 0
    → create_session allocator b connection s ≡ some (b.session_block, s1)
    → connected mem frequency now allocator b connection s
      ≡ greet mem frequency now b.session_block s1
unfolding connected
connected-of_create mem frequency now allocator b connection s s1 nz made = rw made (ground arith)

-- On a sink whose list is whole and whose allocator is not null, where the allocator gives three
-- blocks, the first of which holds no session, webby_connected puts a valid session at the head of
-- the list, and the first event that the session has taken is the header with the clock's frequency
-- and time, and its table of strings is empty; no other block holds another session than before.
pub connected-Log :
    (mem : Memory) (frequency now allocator : ℕ) (b : Blocks) (connection : ℕ) (s : Sink)
    (xs : List ℕ)
    → allocator ≢ 0
    → b.session_block ≢ 0
    → b.buffer_block ≢ 0
    → b.table_block ≢ 0
    → s.heap b.session_block ≡ none
    → Chain.IsValid s xs
    → (s' : Sink) × (connected mem frequency now allocator b connection s ≡ some s')
      × Chain.IsValid s' (b.session_block ∷ xs)
      × ((n : Node) × (s'.heap b.session_block ≡ some n)
          × IsValid n.session
          × Log mem n.session (connected_header frequency now ∷ [])
          × (n.session.table ≡ (fresh_session connection).table))
      × ((y : ℕ) → b.session_block ≢ y → s'.heap y ≡ s.heap y)
unfolding store strings announce told_all connected_header
connected-Log mem frequency now allocator b connection s xs nz0 nz1 nz2 nz3 dead v =
    let (s1, made, list, here, others) =
      create_session-success allocator b connection s xs nz0 nz1 nz2 nz3 dead v in
    let d =
      write_session_event-Done mem (connected_header frequency now) (fresh_session connection) []
        (header-plain frequency now) (fresh_session-IsValid connection)
        (fresh_session-Log mem connection) in
    let n' : Node = record (new_node b connection s) { session = d.after } in
    let (e, nz, (m, there, prev, rest)) = list.chain in
    let one : m ≡ new_node b connection s = let z = sym there ∙ here in cc in
    (
      store b.session_block n' s1,
      connected-of_create mem frequency now allocator b connection s s1 nz1 made
          ∙ greet-of_load mem frequency now b.session_block s1 (new_node b connection s) here
              d.ends,
      record {
        chain =
            Chain-head s1.heap s1.sessions b.session_block n' xs list.distinct.0 e nz refl
              (subst (λ k. Chain s1.heap k.next xs) one rest);
        distinct = list.distinct;
      },
      (n', update_self s1.heap b.session_block (some n'), d.valid, d.log, d.marked),
      λ y ne. update-ne s1.heap b.session_block y (some n') ne ∙ others y ne,
    )

find_from-next :
    (fuel connection p x : ℕ) (s : Sink) (n : Node)
    → p ≡ x
    → x ≢ 0
    → s.heap x ≡ some n
    → n.session.connection ≢ connection
    → find_from (suc fuel) connection p s ≡ find_from fuel connection n.next s
unfolding find_from load
find_from-next fuel connection p x s n e nz here other = ground arith

find_from-absent :
    (xs : List ℕ) (fuel connection p : ℕ) (s : Sink)
    → Chain s.heap p xs
    → ((y : ℕ) (n : Node) → s.heap y ≡ some n → n.session.connection ≢ connection)
    → length xs < fuel
    → find_from fuel connection p s ≡ ended 0
unfolding find_from
find_from-absent xs zero connection p s c absent h = absurd (omega arith)
find_from-absent [] (suc fuel) connection p s c absent h = ground arith
find_from-absent (x ∷ xs) (suc fuel) connection p s (e, nz, (n, here, prev, rest)) absent h =
    find_from-next fuel connection p x s n e nz here (absent x n here)
    ∙ find_from-absent xs fuel connection n.next s rest absent (omega arith)

closed-of_null :
    (fuel connection : ℕ) (s : Sink)
    → find_session fuel connection s ≡ ended 0
    → s.heap 0 ≡ none
    → closed fuel connection s ≡ fault
unfolding closed destroy_session load
closed-of_null fuel connection s missing null = ground arith

-- On a whole list of sessions, webby_closed for a connection that no session has reads through the
-- null pointer.
pub closed-fault :
    (fuel connection : ℕ) (s : Sink) (xs : List ℕ)
    → Chain.IsValid s xs
    → ((y : ℕ) (n : Node) → s.heap y ≡ some n → n.session.connection ≢ connection)
    → s.heap 0 ≡ none
    → length xs < fuel
    → closed fuel connection s ≡ fault
unfolding find_session
closed-fault fuel connection s xs v absent null h =
    closed-of_null fuel connection s
      (find_from-absent xs fuel connection s.sessions s v.chain absent h) null
