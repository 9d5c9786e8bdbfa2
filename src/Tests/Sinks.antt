-- ===== src/Tests/Sinks.antt =====
-- Examples for the list of sessions of src/WebsocketSink.cpp.
use yardstick.Base.{
  true, ◌≡◌, ◌≢◌, refl, none, some, [], ◌∷◌, ℕ, false, arith, inl, ◌==◌, if◌then◌else◌,
}
use yardstick.Tests.{letters, some_region}
use yardstick.Sink.Fresh.{fresh_session-IsValid, fresh_session-Log}
use yardstick.Protocol.{event_type}
use yardstick.Session.Valid
use yardstick.Session.Valid.{Log}
use yardstick.Emit.{connected_header}
use yardstick.Connection.{connected, closed}
use yardstick.Connection.Opening.{connected-Log, closed-fault}
use yardstick.Sink.Broadcast.{Holding, Told, write_event-Told}
use yardstick.Sink.{
  write_event, Node, Sink, Blocks, fresh_session, destroy_session, destroy_all, find_session, ended,
  fault,
}
use yardstick.Sink.Chain.{IsValid}
use yardstick.Sink.Freeing.{is_freed, destroy_all-freed}
use yardstick.Sink.Dangling.{destroy_session-dangling}

-- Two sessions: the one at 8 for the connection 1, before the one at 16 for the connection 2.
abbrev first_node : Node
first_node = record {
  prev = 0;
  next = 16;
  buffer_block = 24;
  table_block = 32;
  session = fresh_session 1;
}

abbrev second_node : Node
second_node = record {
  prev = 0;
  next = 0;
  buffer_block = 40;
  table_block = 48;
  session = fresh_session 2;
}

abbrev pub two_sessions : Sink
two_sessions = record {
  heap = λ p. if p == 8 then some first_node else if p == 16 then some second_node else none;
  live = λ p. false;
  misfreed = [];
  sessions = 8;
}

pub two_sessions-IsValid : IsValid two_sessions (8 ∷ 16 ∷ [])
two_sessions-IsValid = record {
  chain = (
    refl,
    omega arith,
    (first_node, refl, refl, (refl, omega arith, (second_node, refl, refl, refl))),
  );
  distinct = ((omega arith, tt), (tt, tt));
}

abbrev pub blocks : Blocks
blocks = record { session_block = 56; buffer_block = 64; table_block = 72 }

-- The two sessions in a process whose every block is allocated.
abbrev all_live : Sink
all_live = record two_sessions { live = λ p. true }

all_live-IsValid : IsValid all_live (8 ∷ 16 ∷ [])
all_live-IsValid = record {
  chain = two_sessions-IsValid.chain;
  distinct = two_sessions-IsValid.distinct;
}

destroy_all-freed_example :
    (s' : Sink) × (destroy_all 3 all_live ≡ ended s')
    × IsValid s' []
    × ((z : ℕ)
        → z ≢ 0
        → s'.live z ≡ (if is_freed all_live.heap (8 ∷ 16 ∷ []) z then false else true))
destroy_all-freed_example =
    destroy_all-freed (8 ∷ 16 ∷ []) all_live 3 all_live-IsValid (omega arith)

no_third : (y : ℕ) (n : Node) → two_sessions.heap y ≡ some n → n.session.connection ≢ 3
no_third y n e = ground arith

destroy_session-dangling_example :
    (s' : Sink) × (destroy_session 16 two_sessions ≡ some s')
    × (s'.heap 16 ≡ none)
    × (s'.sessions ≡ 8)
    × (find_session 2 3 s' ≡ fault)
destroy_session-dangling_example =
    destroy_session-dangling two_sessions 8 16 3 (16 ∷ []) two_sessions-IsValid (inl refl) no_third

pub two_sessions-Holding : Holding letters two_sessions.heap (λ x. []) (8 ∷ 16 ∷ [])
two_sessions-Holding = (
  (first_node, refl, fresh_session-IsValid 1, fresh_session-Log letters 1),
  ((second_node, refl, fresh_session-IsValid 2, fresh_session-Log letters 2), tt),
)

region-no_string : event_type some_region ≢ 5
unfolding event_type
region-no_string = omega arith

write_event-Told_example :
    (s' : Sink) × (write_event letters 3 some_region two_sessions ≡ ended s')
    × IsValid s' (8 ∷ 16 ∷ [])
    × Told letters some_region two_sessions.heap s'.heap (λ x. []) (8 ∷ 16 ∷ [])
write_event-Told_example =
    write_event-Told letters some_region region-no_string 3 two_sessions (λ x. []) (8 ∷ 16 ∷ [])
      two_sessions-IsValid two_sessions-Holding (omega arith)

connected-Log_example :
    (s' : Sink) × (connected letters 1000 5 6 blocks 3 two_sessions ≡ some s')
    × IsValid s' (56 ∷ 8 ∷ 16 ∷ [])
    × ((n : Node) × (s'.heap 56 ≡ some n)
        × Valid.IsValid n.session
        × Log letters n.session (connected_header 1000 5 ∷ [])
        × (n.session.table ≡ (fresh_session 3).table))
    × ((y : ℕ) → 56 ≢ y → s'.heap y ≡ two_sessions.heap y)
connected-Log_example =
    connected-Log letters 1000 5 6 blocks 3 two_sessions (8 ∷ 16 ∷ []) (omega arith) (omega arith)
      (omega arith) (omega arith) refl two_sessions-IsValid

closed-fault_example : closed 3 3 two_sessions ≡ fault
closed-fault_example =
    closed-fault 3 3 two_sessions (8 ∷ 16 ∷ []) two_sessions-IsValid no_third refl (omega arith)
