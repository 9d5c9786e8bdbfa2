-- ===== src/Background/Stuck.antt =====
-- src/GlobalState.cpp: `ThreadMain` once two threads have been registered.
use yardstick.Base.{ℕ, ◌≡◌, ◌≢◌, refl, ◌∙◌, List, ◌∷◌, ◌++◌, true}
use yardstick.Api.{success}
use yardstick.Protocol.{Memory, EventData}
use yardstick.Registry.{Registry}
use yardstick.Registry.Cycle.{flush_threads-unfinished}
use yardstick.Sink.{Sink, Walk, ended, fault, unfinished}
use yardstick.Server.{Server}
use yardstick.Background.Turning.{start}
use yardstick.Background.Loop.{Turns, thread_main-after}
use yardstick.Background.{Background, Turn, broadcast, main_turn, thread_main}

-- The sink's WriteEvent always returns Success.
broadcast-success :
    (mem : Memory) (fuel : ℕ) (ev : EventData) (w : Walk Sink)
    → (broadcast mem fuel ev w).0 ≡ success
unfolding broadcast
broadcast-success mem fuel ev (ended s) = refl
broadcast-success mem fuel ev fault = refl
broadcast-success mem fuel ev unfinished = refl

module _ (mem : Memory) (update_server : Sink → Sink) (r : Registry) (t : ℕ)
    (queues : ℕ → List EventData) (server : Server) where
  main_turn-unfinished :
      (fuel : ℕ)
      → t ≢ 0
      → t ≢ r.threads
      → r.threads ≢ 0
      → main_turn mem update_server fuel (start t r queues server) ≡ unfinished
  unfolding main_turn
  main_turn-unfinished fuel nz other some_thread =
      rw
        (
          flush_threads-unfinished r t nz other some_thread (broadcast mem fuel) fuel queues
              (ended server.sink) (broadcast-success mem fuel),
          main_turn,
        )
        refl

  -- After any turns that end, a turn before which another thread than the first is registered in a
  -- list that is not empty never ends: its pass over the threads is unfinished after any number of
  -- rounds, and so is ThreadMain, whatever the later turns are.
  pub thread_main-Stuck :
      (fuel : ℕ) {b b' : Background} {before : List Turn} (turn : Turn) (later : List Turn)
      → t ≢ 0
      → t ≢ r.threads
      → r.threads ≢ 0
      → Turns mem update_server fuel b before b'
      → turn.active ≡ true
      → turn.meanwhile b' ≡ (start t r queues server)
      → thread_main mem update_server fuel (before ++ (turn ∷ later)) b ≡ unfinished
  unfolding thread_main
  thread_main-Stuck fuel turn later nz other some_thread turns on there =
      thread_main-after mem update_server fuel (turn ∷ later) turns
      ∙ rw (on, there, main_turn-unfinished fuel nz other some_thread) refl
