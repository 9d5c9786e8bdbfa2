-- ===== src/Tests/Programs.antt =====
-- Examples for src/yardstick.cpp, src/GlobalState.cpp and the class of src/WebsocketSink.h.
use yardstick.Base.{
  inr, ℕ, ◌≡◌, ◌≢◌, refl, Option, some, true, false, List, [], ◌∷◌, take, drop, update, All, arith,
}
use yardstick.Tests.{letters, same}
use yardstick.Tests.Sinks.{two_sessions, two_sessions-IsValid, two_sessions-Holding, blocks}
use yardstick.Tests.Threads.{ticks, no_threads, one_thread}
use yardstick.Api.{success}
use yardstick.Protocol.{EventData, event_type}
use yardstick.Client.RoundTrip.{seen}
use yardstick.Client.Message.{nothing}
use yardstick.Client
use yardstick.Queue.{empty_queue}
use yardstick.Queue.Ring.{Holds}
use yardstick.Thread.{Round}
use yardstick.Thread.State.{Threads, emit_event}
use yardstick.Thread.Life.{emit_event-first, deregister_thread-dangling}
use yardstick.Registry.{register_thread, deregister_thread}
use yardstick.Sink.{Node, Sink, ended, fresh_session}
use yardstick.Sink.Chain
use yardstick.Session.Valid.{IsValid, Log}
use yardstick.Connection.{connect, connected}
use yardstick.Server.{Server, Answers}
use yardstick.Server
use yardstick.Emit.{connected_header}
use yardstick.Background.Serving.{Readable}
use yardstick.Background.Turning.{Turned, main_turn-Turned}
use yardstick.Connection.Opening.{connected-Log}
use yardstick.Service.{
  Callback, webby_connect, webby_connected, call_update, perform_operation, after_callbacks,
  run_callbacks, run_callback, walk_of,
}
use yardstick.Service.Sessions.{empty_sink, IsWhole}
use yardstick.Service.Machine.{begun, performed, Runs-IsWhole}

deregister_thread-dangling_example :
    ((deregister_thread 16 (register_thread 16 one_thread)).threads ≡ 8)
    × (((deregister_thread 16 (register_thread 16 one_thread)).links 8).next ≡ 16)
deregister_thread-dangling_example =
    deregister_thread-dangling 16 one_thread (omega arith) (omega arith) (omega arith) refl

-- A round in which the library is active and the exchange succeeds.
abbrev at_once : Round EventData
at_once = record { active = true; outcomes = true ∷ []; between = λ q. q }

abbrev memory : ℕ → EventData
memory i = EventData.none

-- No thread has called the library yet.
abbrev nobody : Threads
nobody = record {
  queue = λ t. empty_queue memory;
  thread = λ t. 0;
  constructed = λ t. false;
  registry = no_threads;
  posted = false;
}

emit_event-first_example :
    (s' : Threads) × (emit_event 1 16 memory at_once [] (EventData.tick 5) nobody
      ≡ some (success, s'))
    × (s'.constructed 16 ≡ true)
    × (s'.registry ≡ register_thread 16 no_threads)
    × Holds (s'.queue 16) 0 (EventData.tick 5 ∷ [])
emit_event-first_example =
    emit_event-first 1 16 memory at_once [] (EventData.tick 5) nobody 0 [] refl refl refl

ticks-Readable : All (Readable same letters) ticks
unfolding event_type seen
ticks-Readable = (
  (omega arith, omega arith, (Client.tick 1, refl)),
  ((omega arith, omega arith, (Client.tick 2, refl)), tt),
)

abbrev served : Server
served = record { allocator = 5; port = 80; server = 96; memory = 88; sink = two_sessions }

main_turn-Turned_example :
    Turned same letters
      (λ s. s)
      3
      (record { registry = register_thread 16 no_threads; queues = λ p. ticks; server = served })
      (update (λ p. ticks) 16 (drop 511 ticks))
      (take 511 ticks)
      (λ x. [])
      (λ x. [])
      (8 ∷ 16 ∷ [])
main_turn-Turned_example =
    main_turn-Turned letters (λ s. s) same 1 16 no_threads (λ p. ticks) served (λ x. []) (λ x. [])
      (8 ∷ 16 ∷ []) (omega arith) refl ticks-Readable two_sessions-IsValid two_sessions-Holding
      (λ x. nothing) (omega arith)

-- A sink without sessions, whose server is updated while a client comes, and then flushed.
abbrev idle_server : Server
idle_server = record {
  allocator = 5;
  port = 80;
  server = 96;
  memory = 88;
  sink = empty_sink (λ p. false);
}

abbrev read_nothing : (connection size : ℕ) → ℕ → Option ℕ × ℕ
read_nothing connection size w = (some 0, w)

-- The first client of the sink.
abbrev first_client :
    (s' : Sink) × (connected letters 1000 5 5 blocks 3 idle_server.sink ≡ some s')
    × Chain.IsValid s' (56 ∷ [])
    × ((n : Node) × (s'.heap 56 ≡ some n)
        × IsValid n.session
        × Log letters n.session (connected_header 1000 5 ∷ [])
        × (n.session.table ≡ (fresh_session 3).table))
    × ((y : ℕ) → 56 ≢ y → s'.heap y ≡ idle_server.sink.heap y)
first_client =
    connected-Log letters 1000 5 5 blocks 3 idle_server.sink [] (omega arith) (omega arith)
      (omega arith) (omega arith) refl (record { chain = refl; distinct = tt })

abbrev visit : List Callback
visit = webby_connected 1000 5 blocks 3 ∷ webby_connect 3 ∷ []

visited :
    perform_operation read_nothing letters 3 (call_update visit) idle_server 0
    ≡ ended (success, record idle_server { sink = first_client.0 }, 0)
unfolding perform_operation after_callbacks run_callbacks run_callback walk_of connect Server.update
visited = rw (first_client.1, walk_of) refl

Runs-IsWhole_example : IsWhole letters first_client.0
Runs-IsWhole_example = Runs-IsWhole read_nothing letters 3 (
    performed (call_update visit) (begun idle_server 0 (λ p. false) refl)
      (inr (omega arith, omega arith, omega arith, refl), λ s' w' e. (tt, λ s'' w'' e'. tt))
      visited)
