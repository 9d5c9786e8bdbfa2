-- ===== src/Background/Emptied.antt =====
-- src/GlobalState.cpp: `ThreadMain` until the queue of a thread is empty.
use mathlib.Core.List.{map}
use yardstick.Base.{
  ℕ, suc, ◌*◌, ◌≡◌, ◌≢◌, ◌<◌, ◌≤◌, List, [], ◌∷◌, ◌++◌, All, All-append, All-replicate, length,
  replicate, flatten, false,
}
use mathlib.Core.Path.{subst}
use yardstick.Protocol.{Memory, EventData}
use yardstick.Client.{Event}
use yardstick.Client.Message.{Seen}
use yardstick.Registry.{Registry}
use yardstick.Sink.{Sink, ended}
use yardstick.Sink.Chain
use yardstick.Sink.Broadcast.{Holding}
use yardstick.Server.{Server}
use yardstick.Background.{Background, Turn, thread_main}
use yardstick.Emit.Typed.{Emitted, AllEmitted-Readable, ArrivalsEmitted-Readable}
use yardstick.Background.Serving.{Readable}
use yardstick.Background.Loop.{thread_main-ends}
use yardstick.Background.Arrivals.{emitting, taken, left, left-nothing, taken-everything}
use yardstick.Background.Turning.{start}
use yardstick.Background.Draining.{Drained, turns-Drained}

module _ (round : ℕ → ℕ) (mem : Memory) (update_server : Sink → Sink) (fuel t : ℕ) (r : Registry)
    (xs : List ℕ) where
  -- The turns, and what they are to leave: nothing in the queue.
  abbrev pub Emptied :
      (ℕ → List EventData)
      → Server
      → (ℕ → List Event)
      → List (List EventData)
      → ℕ
      → List EventData
      → Type 0
  Emptied queues server outs arrivals k sent =
      Drained round mem update_server fuel t r (start t r queues server)
        (map (emitting t) (arrivals ++ replicate k [])) sent [] outs xs

  Drained-cast :
      {b : Background} {turns : List Turn} {sent sent' rest rest' : List EventData}
      {outs : ℕ → List Event}
      → sent ≡ sent'
      → rest ≡ rest'
      → Drained round mem update_server fuel t r b turns sent rest outs xs
      → Drained round mem update_server fuel t r b turns sent' rest' outs xs
  Drained-cast {b} {turns} {sent' = sent'} {rest = rest} {outs = outs} e f d =
      subst (λ q. Drained round mem update_server fuel t r b turns sent' q outs xs) f
        (subst (λ s. Drained round mem update_server fuel t r b turns s rest outs xs) e d)

  Drained-any :
      (nonzero : t ≢ 0) (empty : r.threads ≡ 0) (same : (s : Sink) → update_server s ≡ s)
      (fueled : length xs < suc (suc fuel)) (queues : ℕ → List EventData) (server : Server)
      (history : ℕ → List EventData) (outs : ℕ → List Event) (arrivals : List (List EventData))
      (k : ℕ)
      → All (Readable round mem) (queues t)
      → All (All (Readable round mem)) arrivals
      → Chain.IsValid server.sink xs
      → Holding mem server.sink.heap history xs
      → ((x : ℕ) → Seen round mem (history x) (outs x))
      → Drained round mem update_server fuel t r
          (start t r queues server)
          (map (emitting t) (arrivals ++ replicate (suc k) []))
          (taken (queues t) (arrivals ++ replicate (suc k) []))
          (left (queues t) (arrivals ++ replicate (suc k) []))
          outs
          xs
  Drained-any nonzero empty same fueled queues server history outs [] k ok new v hold shown =
      turns-Drained round mem update_server fuel t r xs nonzero empty same fueled queues server
        history outs [] (replicate k []) ok (All-replicate (All (Readable round mem)) (suc k) [] tt)
        v hold shown
  Drained-any nonzero empty same fueled queues server history outs (evs ∷ arrivals) k ok new v hold
        shown =
      turns-Drained round mem update_server fuel t r xs nonzero empty same fueled queues server
        history outs evs (arrivals ++ replicate (suc k) []) ok
        (All-append (All (Readable round mem)) (evs ∷ arrivals) (replicate (suc k) []) new
          (All-replicate (All (Readable round mem)) (suc k) [] tt))
        v hold shown

  -- With one thread, registered in an empty list, whose queue holds events of the interface's calls
  -- and gets more of them before some turns, over a whole list of valid sessions that have taken
  -- histories of readable events, ThreadMain with fuel for two rounds at least, and for more rounds
  -- than there are sessions, returns at the first test of the flag that fails after as many quiet
  -- turns as 511 events a turn make enough for all of them, at least one: the queue is then empty,
  -- the list of sessions is whole, and the web tool's reader takes from each session's messages
  -- what it had been due before and then all of these events in the order of the calls, each after
  -- those of its strings that the session's table did not know; this holds where the web server's
  -- updates leave the sessions alone.
  pub thread_main-Emptied :
      (queues : ℕ → List EventData) (server : Server) (history : ℕ → List EventData)
      (outs : ℕ → List Event) (arrivals : List (List EventData)) (k : ℕ) (last : Turn)
      (more : List Turn)
      → t ≢ 0
      → r.threads ≡ 0
      → ((s : Sink) → update_server s ≡ s)
      → length xs < suc (suc fuel)
      → All Emitted (queues t)
      → All (All Emitted) arrivals
      → Chain.IsValid server.sink xs
      → Holding mem server.sink.heap history xs
      → ((x : ℕ) → Seen round mem (history x) (outs x))
      → length (queues t ++ flatten arrivals) ≤ 511 * suc k
      → last.active ≡ false
      → (d : Emptied queues server outs arrivals (suc k) (queues t ++ flatten arrivals))
        × (thread_main mem update_server
              (suc (suc fuel))
              (map (emitting t) (arrivals ++ replicate (suc k) []) ++ (last ∷ more))
              (start t r queues server)
            ≡ ended d.after)
  thread_main-Emptied queues server history outs arrivals k last more nonzero empty same fueled ok
        new v hold shown enough off =
      let d : Emptied queues server outs arrivals (suc k) (queues t ++ flatten arrivals) =
        Drained-cast (taken-everything (queues t) arrivals (suc k) enough)
          (left-nothing (queues t) arrivals (suc k) enough)
          (Drained-any nonzero empty same fueled queues server history outs arrivals k
            (AllEmitted-Readable round mem (queues t) ok)
            (ArrivalsEmitted-Readable round mem arrivals new) v hold shown) in
      (d, thread_main-ends mem update_server (suc (suc fuel)) last more d.ends off)
