-- ===== src/Tests/Watching.antt =====
-- An example for `ysProfile`, from the macro to the clients.
use yardstick.Base.{ℕ, ◌≡◌, refl, Option, some, true, false, List, [], ◌∷◌, arith}
use yardstick.Base.Words.{u32}
use yardstick.Tests.{letters, same}
use yardstick.Tests.Sinks.{two_sessions, two_sessions-IsValid, two_sessions-Holding}
use yardstick.Tests.Threads.{no_threads}
use yardstick.Protocol.{EventData}
use yardstick.PointerHash.{hash_pointer}
use yardstick.Client
use yardstick.Client.Message.{nothing}
use yardstick.Clock.{Platform, chrono}
use yardstick.Clock
use yardstick.Clock.Advance.{seconds_later}
use yardstick.Emit.{emit_region}
use yardstick.Program.Nesting.{later, IsServing, ys_profile-nested}
use yardstick.Queue.{empty_queue}
use yardstick.Queue.Ring.{Holds, empty_queue-Holds}
use yardstick.Thread.{Round}
use yardstick.Thread.State.{Threads}
use yardstick.Registry.{register_thread}
use yardstick.Registry.Rings.Flushing.{passes}
use yardstick.Server.{Answers}
use yardstick.Lifecycle.{initial}
use yardstick.Macros.{with_library, ys_profile}
use yardstick.Program.{Program, library, instance_state, new_server}
use yardstick.Program.Profiling.{IsOpen}
use yardstick.Program.Turns.{IsServed, Watched}
use yardstick.Program.Watching.{ys_profile-Watched}

abbrev at_once : Round EventData
at_once = record { active = true; outcomes = true ∷ []; between = λ q. q }

abbrev memory : ℕ → EventData
memory i = EventData.none

-- One thread has made its state.
abbrev one : Threads
one = record {
  queue = λ t. empty_queue memory;
  thread = λ t. 1;
  constructed = λ t. true;
  registry = register_thread 16 no_threads;
  posted = false;
}

abbrev running : Program
running = instance_state two_sessions one (chrono 10 1000)

abbrev schedule : Program → Round EventData × List (Round EventData)
schedule g = (at_once, [])

abbrev second : Platform → Platform
second c = chrono 1010 1000

abbrev answers : Answers
answers = record { memory = 0; server = 0 }

abbrev scope : Option Program → ℕ × Option Program
scope s = (7, s)

abbrev none_fail : ℕ → ℕ → ℕ
none_fail fuel count = 0

running-IsOpen :
    IsOpen
      (λ s. s)
      3
      answers
      schedule
      second
      memory
      1
      16
      (record running { clock = chrono 1010 1000 })
      0
      []
unfolding instance_state
running-IsOpen = record {
  made = refl;
  held = empty_queue-Holds memory;
  room = omega arith;
  active = refl;
  failures = 0;
  rest = [];
  outcomes = refl;
}

two-IsServed : IsServed same letters (new_server two_sessions) (λ x. []) (8 ∷ 16 ∷ [])
two-IsServed = record {
  list = two_sessions-IsValid;
  history = λ x. [];
  holding = two_sessions-Holding;
  due = λ x. nothing;
}

ys_profile-Watched_example :
    (g' : Program) × (ys_profile
        (library (λ s. s) 3 answers schedule second memory 1 16)
        with_library
        100
        200
        12
        scope
        (some running)
      ≡ (7, some g'))
    × Watched same letters
        (λ s. s)
        3
        (passes none_fail)
        g'
        (λ x. [])
        (Client.region
          (u32 12)
          (hash_pointer 100)
          (hash_pointer 200)
          (same (Clock.read_clock running.clock))
          (same (Clock.read_clock (second running.clock))))
        (8 ∷ 16 ∷ [])
unfolding instance_state initial
ys_profile-Watched_example =
    ys_profile-Watched same letters (λ s. s) 1 none_fail 16 no_threads (λ s. s) 3 answers schedule
      second memory 1 100 200 12 scope running (record running { clock = second running.clock }) 7 0
      [] (new_server two_sessions) (λ p. 0) (λ p. []) (λ x. []) (8 ∷ 16 ∷ []) refl running-IsOpen tt
      (omega arith) (omega arith) refl refl (λ p. empty_queue-Holds memory) refl (λ s. refl)
      two-IsServed (omega arith)

-- Clocks that go on by a second.
abbrev by_second : Platform → Platform
by_second c = seconds_later 1 c

running-IsServing : IsServing (λ s. s) 3 answers schedule by_second memory 1 16
running-IsServing = record {
  active = λ g. refl;
  failures = λ g. 0;
  rest = λ g. [];
  outcomes = λ g. refl;
}

ys_profile-nested_example :
    (g2 : Program) × (ys_profile
        (library (λ s. s) 3 answers schedule by_second memory 1 16)
        with_library
        100
        200
        12
        (ys_profile
          (library (λ s. s) 3 answers schedule by_second memory 1 16)
          with_library
          101
          200
          14
          scope)
        (some running)
      ≡ (7, some g2))
    × Holds (g2.threads.queue 16) 0 (
        emit_region
          (Clock.read_clock (by_second running.clock))
          (Clock.read_clock (by_second (by_second running.clock)))
          101
          200
          14
        ∷ emit_region
            (Clock.read_clock running.clock)
            (Clock.read_clock (by_second (by_second (by_second running.clock))))
            100
            200
            12
        ∷ [])
unfolding instance_state
ys_profile-nested_example =
    ys_profile-nested (λ s. s) 3 answers schedule by_second memory 1 16 100 200 12 101 200 14 scope
      running (later by_second (later by_second running)) 7 0 [] running-IsServing refl refl
      (empty_queue-Holds memory) (omega arith)
