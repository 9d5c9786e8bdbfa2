-- ===== src/Tests/Turns.antt =====
-- Examples for the loop of src/GlobalState.cpp and the queues that it empties.
use mathlib.Core.List.{map}
use yardstick.Base.{
  ℕ, Option, none, some, ◌+◌, ◌≤◌, ◌≡◌, ◌<◌, refl, true, false, List, [], ◌∷◌, ◌++◌, replicate,
  flatten, arith,
}
use yardstick.Tests.{letters, same}
use yardstick.Tests.Sinks.{two_sessions, two_sessions-IsValid, two_sessions-Holding}
use yardstick.Tests.Threads.{no_threads, one_thread}
use yardstick.Api.{YsResult, success, unknown}
use yardstick.Protocol.{EventData, encode_event, returned}
use yardstick.Client.{read}
use yardstick.Emit.Received.{call_shown, emit-received}
use yardstick.Client.Message.{nothing}
use yardstick.Queue.{Queue, empty_queue}
use yardstick.Queue.Ring.{Holds, put, empty_queue-Holds, put-Holds}
use yardstick.Registry.{register_thread, flush_from}
use yardstick.Registry.Rings.{flush_rings}
use yardstick.Registry.Rings.Flushing.{FlushedBoth, passes, flush_rings-FlushedBoth}
use yardstick.Sink.{ended, unfinished}
use yardstick.Server.{Server}
use yardstick.Emit.{emit_region, emit_count}
use yardstick.Emit.Typed.{Emitted, timed, counted}
use yardstick.Service.{Callback, webby_closed, webby_frame, call_update, perform_operation}
use yardstick.Background.Taking.{table_at}
use yardstick.Service.Informing.{AllInformed, Informed-new}
use yardstick.Service.Sessions.{IsWhole}
use yardstick.Service.Progress.{perform_operation-ends}
use yardstick.Background.{Turn, thread_main}
use yardstick.Background.Arrivals.{emitting}
use yardstick.Background.Turning.{start}
use yardstick.Background.Emptied.{Emptied, thread_main-Emptied}
use yardstick.Background.Loop.{over}
use yardstick.Background.Stuck.{thread_main-Stuck}

abbrev region_of : ℕ → EventData
region_of when = emit_region when (when + 1) 100 200 12

abbrev waiting : ℕ → List EventData
waiting p = region_of 1 ∷ region_of 2 ∷ []

abbrev arriving : List (List EventData)
arriving = (region_of 3 ∷ []) ∷ [] ∷ (emit_count 4 100 ∷ []) ∷ []

region-Emitted : (when : ℕ) → when < 1000 → Emitted (region_of when)
region-Emitted when h = timed 100 200 12 (omega arith) (omega arith)

abbrev served : Server
served = record { allocator = 5; port = 80; server = 96; memory = 88; sink = two_sessions }

abbrev last : Turn
last = record { active = false; meanwhile = λ b. b }

thread_main-Emptied_example :
    (d : Emptied same letters
      (λ s. s)
      1
      16
      no_threads
      (8 ∷ 16 ∷ [])
      waiting
      served
      (λ x. [])
      arriving
      1
      (waiting 16 ++ flatten arriving))
    × (thread_main letters
          (λ s. s)
          3
          (map (emitting 16) (arriving ++ replicate 1 []) ++ (last ∷ []))
          (start 16 no_threads waiting served)
        ≡ ended d.after)
thread_main-Emptied_example =
    thread_main-Emptied same letters (λ s. s) 1 16 no_threads (8 ∷ 16 ∷ []) waiting served (λ x. [])
      (λ x. []) arriving 0 last [] (omega arith) refl (λ s. refl) (omega arith)
      (region-Emitted 1 (omega arith), (region-Emitted 2 (omega arith), tt))
      ((region-Emitted 3 (omega arith), tt), (tt, ((counted 100 (omega arith), tt), tt)))
      two_sessions-IsValid two_sessions-Holding (λ x. nothing) (omega arith) refl

abbrev stuck : Turn
stuck = record { active = true; meanwhile = λ b. b }

thread_main-Stuck_example :
    thread_main letters
      (λ s. s)
      1000
      ([] ++ (stuck ∷ last ∷ []))
      (start 16 one_thread waiting served)
    ≡ unfinished
thread_main-Stuck_example =
    thread_main-Stuck letters (λ s. s) one_thread 16 waiting served 1000 stuck (last ∷ [])
      (omega arith) (omega arith) (omega arith) over refl refl

emit-received_example :
    (out : List ℕ) × (n : ℕ) × (n ≤ 29)
    × (encode_event letters (some (replicate 40 7)) 32 (region_of 5)
        ≡ returned success (record { buffer = out; out_length = n }))
    × (read same (record { view = out; pos = 0; error = none })
        ≡ some (
          some (call_shown same (region-Emitted 5 (omega arith))),
          record { view = out; pos = n; error = none },
        ))
emit-received_example =
    emit-received same letters (region-Emitted 5 (omega arith)) (replicate 40 7) 32 (omega arith)
      (omega arith) (omega arith)

-- A sink that keeps the events, and refuses the second.
abbrev refuse : EventData → List EventData → YsResult × List EventData
refuse ev [] = (success, ev ∷ [])
refuse ev (old ∷ s) = (unknown, old ∷ s)

-- A queue with two events.
abbrev new_ring : Queue EventData
new_ring = empty_queue (λ i. EventData.none)

abbrev one_event : Queue EventData
one_event = put new_ring 0 [] (empty_queue-Holds _) (region_of 1)

one_event-Holds : Holds one_event 0 (region_of 1 ∷ [])
one_event-Holds = put-Holds new_ring 0 [] (empty_queue-Holds _) (region_of 1) (omega arith)

abbrev ring : Queue EventData
ring = put one_event 0 (region_of 1 ∷ []) one_event-Holds (region_of 2)

ring-Holds : Holds ring 0 (waiting 16)
ring-Holds = put-Holds one_event 0 (region_of 1 ∷ []) one_event-Holds (region_of 2) (omega arith)

flush_rings-FlushedBoth_example :
    FlushedBoth refuse (flush_from refuse 3 (register_thread 16 no_threads) 16 waiting []) (
      flush_rings refuse 3
        (passes (λ fuel count. count))
        (register_thread 16 no_threads)
        16
        (λ p. ring)
        [])
flush_rings-FlushedBoth_example =
    flush_rings-FlushedBoth refuse (λ fuel count. count) 3 (register_thread 16 no_threads) 16
      (λ p. ring) (λ p. 0) waiting [] (λ p. ring-Holds)

-- The client that came last leaves, and the other one writes.
abbrev leaving : List Callback
leaving = webby_closed 1 ∷ webby_frame 2 ∷ []

abbrev read_nothing : (connection size : ℕ) → ℕ → Option ℕ × ℕ
read_nothing connection size w = (some 0, w)

served-Informed : AllInformed letters two_sessions.heap (λ x. []) (8 ∷ 16 ∷ [])
unfolding table_at
served-Informed = (Informed-new letters 1, (Informed-new letters 2, tt))

abbrev served-IsWhole : IsWhole letters two_sessions
served-IsWhole = record {
  members = 8 ∷ 16 ∷ [];
  history = λ x. [];
  list = two_sessions-IsValid;
  holding = two_sessions-Holding;
  informed = served-Informed;
}

perform_operation-ends_example :
    (r : YsResult) × (v' : Server) × (w' : ℕ) × (perform_operation read_nothing letters 5
        (call_update leaving)
        served
        0
      ≡ ended (r, v', w'))
    × IsWhole letters v'.sink
perform_operation-ends_example =
    perform_operation-ends read_nothing letters 5 (call_update leaving) served 0 (λ on. omega arith)
      served-IsWhole ((omega arith, (_, refl, refl)), λ s' w' e. (tt, λ s'' w'' e'. tt)) tt
      (omega arith)
