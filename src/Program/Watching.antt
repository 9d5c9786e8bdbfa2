-- ===== src/Program/Watching.antt =====
-- inc/yardstick/yardstick.h, src/GlobalState.cpp and tools/web/js/ysProtocol.js: `ysProfile`, up to
-- what the clients are shown after a turn of the background thread.
use yardstick.Base.{
  update, update_self, ℕ, suc, ◌^◌, ◌≡◌, ◌≢◌, ◌<◌, refl, Option, some, List, [], ◌∷◌, ◌++◌, All,
  All-append, length, arith,
}
use yardstick.Protocol.{Memory, EventData}
use yardstick.PointerHash.{hash_pointer}
use yardstick.Base.Words.{u32}
use yardstick.Client.{Event}
use yardstick.Client
use yardstick.Client.RoundTrip.{seen}
use yardstick.Clock.{Platform}
use yardstick.Clock
use yardstick.Registry.{Registry, register_thread}
use yardstick.Registry.Rings.Flushing.{AllHold, AllHold-update, passes}
use yardstick.Thread.{Round}
use yardstick.Sink.{Sink, ended}
use yardstick.Server.{Server, Answers}
use yardstick.Emit.{emit_region}
use yardstick.Emit.Typed.{Emitted, timed}
use yardstick.Macros.{with_library, ys_profile}
use yardstick.Program.{Program, library}
use yardstick.Program.Profiling.{with_queue, IsOpen, ys_profile-queued}
use yardstick.Program.Turns.{IsServed, Watched, turn-Watched}

-- A reading of the clock fits ysTime.
read_clock-IsTime : (c : Platform) → Clock.read_clock c < 2 ^ 64
unfolding Clock.read_clock
read_clock-IsTime (Clock.performance counter frequency) = omega arith
read_clock-IsTime (Clock.chrono ticks per_second) = omega arith

module _ (round : ℕ → ℕ) (mem : Memory) (update_server : Sink → Sink) (n : ℕ) (fails : ℕ → ℕ → ℕ)
    (t : ℕ) (r : Registry) where
  module _ (shutdown_server : Sink → Sink) (fuel : ℕ) (answers : Answers)
      (schedule : Program → Round EventData × List (Round EventData)) (pass : Platform → Platform)
      (memory : ℕ → EventData) (id : ℕ) where
    -- Where a scope that ysProfile opens over the functions of yardstick.cpp runs to its end in the
    -- only thread, whose state has been made and is registered and whose queue holds fewer than 511
    -- events of the interface's calls, with the library active when it is asked, the scope gives
    -- what it gave, and a turn of the background thread on the queues themselves, over a whole list
    -- of valid sessions that have taken histories of readable events, ends: the web tool's reader
    -- then takes from each session's messages what it had been due before, some events, and as the
    -- last one the region with the handles of its name and file, its line as 32 bits, and the
    -- readings of the clock at the start and at the end of the scope as the reader rounds them;
    -- this holds whatever the other queues hold, however often the exchanges fail for no reason,
    -- where the web server's update leaves the sessions alone.
    pub ys_profile-Watched {κ} :
        {B : Type κ} (name file line : ℕ) (scope : Option Program → B × Option Program)
        (g g1 : Program) (b : B) (queued : ℕ) (xs : List EventData) (v : Server) (taken : ℕ → ℕ)
        (lists : ℕ → List EventData) (outs : ℕ → List Event) (sessions : List ℕ)
        → scope (some (record g { clock = pass g.clock })) ≡ (b, some g1)
        → IsOpen shutdown_server fuel answers schedule pass memory id t
            (record g1 { clock = pass g1.clock })
            queued
            xs
        → All Emitted xs
        → length xs < 511
        → t ≢ 0
        → r.threads ≡ 0
        → g1.threads.registry ≡ register_thread t r
        → AllHold g1.threads.queue taken lists
        → g1.global.sink ≡ ended v
        → ((s : Sink) → update_server s ≡ s)
        → IsServed round mem v outs sessions
        → length sessions < suc (suc n)
        → (g' : Program) × (ys_profile
              (library shutdown_server fuel answers schedule pass memory id t)
              with_library
              name
              file
              line
              scope
              (some g)
            ≡ (b, some g'))
          × Watched round mem update_server
              (suc (suc n))
              (passes fails)
              g'
              outs
              (Client.region
                (u32 line)
                (hash_pointer name)
                (hash_pointer file)
                (round (Clock.read_clock g.clock))
                (round (Clock.read_clock g1.clock)))
              sessions
    unfolding emit_region seen
    ys_profile-Watched name file line scope g g1 b queued xs v taken lists outs sessions runs opened
          ok few nz empty registry hold sink same served fueled =
        let ev =
          emit_region (Clock.read_clock g.clock) (Clock.read_clock g1.clock) name file line in
        let (q, emitted, held) =
          ys_profile-queued shutdown_server fuel answers schedule pass memory id t name file line
            scope g g1 b queued xs runs opened in
        let region_ok : Emitted ev =
          timed name file line (read_clock-IsTime g.clock) (read_clock-IsTime g1.clock) in
        (
          with_queue t q (record g1 { clock = pass g1.clock }),
          emitted,
          turn-Watched round mem update_server n fails t r
              (with_queue t q (record g1 { clock = pass g1.clock })) v (update taken t queued)
              (update lists t (xs ++ (ev ∷ []))) xs ev outs sessions nz empty same registry sink
              (AllHold-update g1.threads.queue taken lists t q queued (xs ++ (ev ∷ [])) hold held)
              (update_self lists t (xs ++ (ev ∷ [])))
              (All-append Emitted xs (ev ∷ []) ok (region_ok, tt)) few refl served fueled,
        )
