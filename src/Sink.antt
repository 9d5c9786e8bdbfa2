-- ===== src/Sink.antt =====
-- src/WebsocketSink.cpp: the sink's list of sessions, which are linked through their blocks of
-- memory, and the operations that go through it.
-- An address is a number, 0 is the null pointer. A step that reads or writes through an address
-- where no session lives is a fault, `none`.
pub mod Walks
pub mod Chain
pub mod Create
pub mod Destroy
pub mod Freeing
pub mod Owning
pub mod Agreeing
pub mod Dangling
pub mod Every
pub mod Fuel
pub mod Fresh
pub mod Broadcast
use mathlib.Core.Option
use yardstick.Base.{
  update, ℕ, zero, suc, ◌==◌, if◌then◌else◌, Option, none, some, ◌>>=◌, Bool, true, false, ◌&&◌,
  not, replicate, List, [], ◌∷◌,
}
use yardstick.Api.{Allocator}
use yardstick.Protocol.{Memory, EventData}
use yardstick.Session.{
  Session, Outcome, finished, crashed, write_session_event, flush_session, buf_size, table_size,
}

-- A block of a session: its links, the blocks of its buffer and its table, and what they hold.
pub record Node : Type 0 where
  pub prev : ℕ
  pub next : ℕ
  pub buffer_block : ℕ
  pub table_block : ℕ
  pub session : Session

-- `live` says which blocks the allocator has handed out and not taken back; `misfreed` keeps the
-- addresses that it was given back though it had not handed them out, the last one first.
pub record Sink : Type 0 where
  pub heap : ℕ → Option Node
  pub live : ℕ → Bool
  pub misfreed : List ℕ
  pub sessions : ℕ

-- What the allocator does with a block: `_allocator(nullptr, size)` gave the address, or
-- `_allocator(block, 0)` took it back. Freeing the null pointer does nothing. The
-- allocator is there: a session is only made with one, and `_allocator` is only set once there is no
-- session.
unfoldable pub free : ℕ → Sink → Sink
free p s = if p == 0 then s else record s {
  live = update s.live p false;
  misfreed = if s.live p then s.misfreed else p ∷ s.misfreed;
}

-- The last step of `DestroySession` on a session: its block is gone.
unfoldable pub free_session : ℕ → Sink → Sink
free_session p s = free p (record s { heap = update s.heap p none })

unfoldable pub load : ℕ → Sink → Option Node
load p s = s.heap p

unfoldable pub store : ℕ → Node → Sink → Sink
store p n s = record s { heap = update s.heap p (some n) }

-- `if (p != nullptr) p->_prev = prev`
unfoldable pub set_prev : ℕ → ℕ → Sink → Option Sink
set_prev p prev s =
    if p == 0 then some s else (do n ← load p s; some (store p (record n { prev = prev }) s))

-- `if (p != nullptr) p->_next = next`
unfoldable pub set_next : ℕ → ℕ → Sink → Option Sink
set_next p next s =
    if p == 0 then some s else (do n ← load p s; some (store p (record n { next = next }) s))

-- `DestroySession`. The links of the session are read again after each write, as there.
unfoldable pub destroy_session : ℕ → Sink → Option Sink
destroy_session p s0 = do
  n0 ← load p s0
  s1 ← set_prev n0.next n0.prev s0
  n1 ← load p s1
  s2 ← set_next n1.prev n1.next s1
  n2 ← load p s2
  let s3 : Sink = if s2.sessions == p then record s2 { sessions = n2.next } else s2
  let s4 : Sink = free n2.buffer_block s3
  some (free_session p s4)

-- The three answers of the allocator in `CreateSession`: the blocks for the session, its buffer and
-- its table.
pub record Blocks : Type 0 where
  pub session_block : ℕ
  pub buffer_block : ℕ
  pub table_block : ℕ

unfoldable pub allocate : ℕ → Sink → Sink
allocate p s = record s { live = update s.live p true }

-- The allocator, as `ysAllocator` is documented: it allocates where it is given no block, here with
-- the answer `answer`, and frees the block otherwise.
unfoldable pub sink_allocator : (answer : ℕ) → Allocator Sink
sink_allocator answer block bytes s =
    if block == 0 then (answer, if answer == 0 then s else allocate answer s) else (0, free block s)

abbrev pub fresh_session : ℕ → Session
fresh_session connection = record {
  connection = connection;
  bufpos = 0;
  buffer = replicate buf_size 0;
  table = replicate table_size 0;
  calls = [];
}

-- `CreateSession`, with the address that it returns. A call of a null `_allocator` is a fault. The new block's contents are set before
-- `_sessions` is; the buffer's bytes are what the allocator left there, and stand here as zeros.
unfoldable pub create_session : (allocator : ℕ) → Blocks → ℕ → Sink → Option (ℕ × Sink)
create_session allocator b connection s =
    if allocator == 0
    then none
    else if b.session_block == 0
    then some (0, s)
    else (let n : Node = record {
      prev = 0;
      next = s.sessions;
      buffer_block = b.buffer_block;
      table_block = b.table_block;
      session = fresh_session connection;
    } in
        let s1 : Sink = store b.session_block n (allocate b.session_block s) in
        if b.buffer_block == 0
        then (do s2 ← destroy_session b.session_block s1; some (0, s2))
        else if b.table_block == 0
        then (do s2 ← destroy_session b.session_block (allocate b.buffer_block s1); some (0, s2))
        else some (
          b.session_block,
          record (allocate b.table_block (allocate b.buffer_block s1)) {
            sessions = b.session_block;
          },
        ))

-- What a walk over the list ends with: it reached null or an answer, it read through a dead
-- address, or the fuel ran out.
pub data Walk {ℓ} (A : Type ℓ) : Type ℓ where
  ended : A → Walk A
  fault : Walk A
  unfinished : Walk A

-- The loop of `FindSession`.
unfoldable pub find_from : ℕ → ℕ → ℕ → Sink → Walk ℕ
find_from zero connection p s = unfinished
find_from (suc fuel) connection p s =
    let later : ℕ → Walk ℕ = λ q. find_from fuel connection q s in
    if p == 0 then ended 0 else elim (load p s) [
      | none ↦ fault
      | some n ↦ if n.session.connection == connection then ended p else later n.next
    ]

unfoldable pub find_session : ℕ → ℕ → Sink → Walk ℕ
find_session fuel connection s = find_from fuel connection s.sessions s

-- The loop of `WriteEvent` and of `Flush`: `op` on each session, its result ignored.
unfoldable pub for_each : (Session → Outcome) → ℕ → ℕ → Sink → Walk Sink
for_each op zero p s = unfinished
for_each op (suc fuel) p s =
    let later : ℕ → Sink → Walk Sink = for_each op fuel in
    if p == 0 then ended s else elim (load p s) [
      | none ↦ fault
      | some n ↦ elim (op n.session) [
        | crashed ↦ fault
        | finished r t ↦ later n.next (store p (record n { session = t }) s)
      ]
    ]

unfoldable pub write_event : Memory → ℕ → EventData → Sink → Walk Sink
write_event mem fuel ev s = for_each (write_session_event mem ev) fuel s.sessions s

unfoldable pub flush : ℕ → Sink → Walk Sink
flush fuel s = for_each flush_session fuel s.sessions s

-- The loop of `Close`: `while (_sessions != nullptr) DestroySession(_sessions)`.
unfoldable pub destroy_all : ℕ → Sink → Walk Sink
destroy_all zero s = unfinished
destroy_all (suc fuel) s =
    let later : Sink → Walk Sink = destroy_all fuel in
    if s.sessions == 0
    then ended s
    else elim (destroy_session s.sessions s) [ none ↦ fault | some s' ↦ later s' ]
