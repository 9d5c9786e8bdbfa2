-- ===== src/Background/Rings.antt =====
-- src/GlobalState.cpp: the body of the loop of `ThreadMain` on the queues of
-- src/ConcurrentQueue.h, against the body on lists of events.
use mathlib.Core.Path.{subst}
use yardstick.Base.{ℕ, ◌≡◌, ap, Option, none, some, List, Bool}
use yardstick.Api.{YsResult}
use yardstick.Protocol.{Memory, EventData}
use yardstick.Queue.{Queue}
use yardstick.Registry.{Registry, Flushed, flush_threads}
use yardstick.Registry.Rings.{flush_rings}
use yardstick.Registry.Rings.Flushing.{AllHold, FlushedBoth, passes, flush_rings-FlushedBoth}
use yardstick.Sink.Walks.{ended_inj}
use yardstick.Sink.{Sink, Walk, ended, fault, unfinished, flush}
use yardstick.Server.{Server, update}
use yardstick.Background.{Background, broadcast, flush_sink, main_turn}

module _ (mem : Memory) (update_server : Sink → Sink) (fuel : ℕ) where
  -- `_websocketSink.Flush()` and `_websocketSink.Update()`.
  unfoldable pub flush_ring_sink :
      (ℕ → Queue EventData) → Server → Walk Sink → Walk ((ℕ → Queue EventData) × Server)
  flush_ring_sink rings server w = elim w [
    | fault ↦ fault
    | unfinished ↦ unfinished
    | ended s ↦ elim (flush fuel s) [
      | fault ↦ fault
      | unfinished ↦ unfinished
      | ended s' ↦ ended (rings, (update update_server (record server { sink = s' })).1)
    ]
  ]

  -- The body of the loop after the wait, with the outcomes of the exchanges in `TryDeque`.
  unfoldable pub ring_turn :
      (ℕ → ℕ → List Bool)
      → Registry
      → (ℕ → Queue EventData)
      → Server
      → Walk ((ℕ → Queue EventData) × Server)
  ring_turn outcomes r rings server =
      elim (flush_rings (broadcast mem fuel) fuel outcomes r r.threads rings (ended server.sink)) [
        | none ↦ unfinished
        | some (code, rings', w) ↦ flush_ring_sink rings' server w
      ]

  flush_both :
      (x : Walk Sink) (queues : ℕ → List EventData) (rings : ℕ → Queue EventData)
      (b b' : Background)
      → ◌≡◌ {A = Walk Background}
          (elim x [
            | fault ↦ fault
            | unfinished ↦ unfinished
            | ended s' ↦ ended (record b {
              queues = queues;
              server = (update update_server (record b.server { sink = s' })).1;
            })
          ])
          (ended b')
      → (◌≡◌ {A = Walk ((ℕ → Queue EventData) × Server)}
          (elim x [
            | fault ↦ fault
            | unfinished ↦ unfinished
            | ended s' ↦ ended (rings, (update update_server (record b.server { sink = s' })).1)
          ])
          (ended (rings, b'.server)))
        × (queues ≡ b'.queues)
  flush_both fault queues rings b b' e = cc
  flush_both unfinished queues rings b b' e = cc
  flush_both (ended s') queues rings b b' e =
      (ap (λ k. ended (rings, k.server)) (ended_inj e), ap (λ k. k.queues) (ended_inj e))

  sink_both :
      (w : Walk Sink) (queues : ℕ → List EventData) (rings : ℕ → Queue EventData)
      (b b' : Background)
      → flush_sink mem update_server fuel queues b w ≡ ended b'
      → (flush_ring_sink rings b.server w ≡ ended (rings, b'.server)) × (queues ≡ b'.queues)
  unfolding flush_sink flush_ring_sink
  sink_both fault queues rings b b' e = cc
  sink_both unfinished queues rings b b' e = cc
  sink_both (ended s) queues rings b b' e = flush_both (flush fuel s) queues rings b b' e

  -- The queues and the server after a turn that ends.
  abbrev pub TurnedBoth : Walk ((ℕ → Queue EventData) × Server) → Background → Type 0
  TurnedBoth x b' =
      (rings : ℕ → Queue EventData) × (taken : ℕ → ℕ) × (x ≡ ended (rings, b'.server))
      × AllHold rings taken b'.queues

  turn_both :
      (f : Flushed (Walk Sink)) (o : Option (YsResult × (ℕ → Queue EventData) × Walk Sink))
      (b b' : Background)
      → FlushedBoth (broadcast mem fuel) f o
      → ◌≡◌ {A = Walk Background}
          (elim f [
            | Flushed.unfinished ↦ unfinished
            | Flushed.ended code queues w ↦ flush_sink mem update_server fuel queues b w
          ])
          (ended b')
      → TurnedBoth
          (elim o [
            | none ↦ unfinished
            | some (code, rings', w) ↦ flush_ring_sink rings' b.server w
          ])
          b'
  turn_both Flushed.unfinished o b b' both e = cc
  turn_both (Flushed.ended code lists w) o b b' (rings, taken, same, hold) e =
      let (ends, queues) = sink_both w lists rings b b' e in
      (rings, taken, rw same ends, subst (AllHold rings taken) queues hold)

  -- Where a turn of ThreadMain on lists of events ends, the turn on queues that hold these lists ends
  -- with the same server, and each queue then holds the list that is left, however often the
  -- exchanges fail for no reason.
  pub ring_turn-TurnedBoth :
      (fails : ℕ → ℕ → ℕ) (rings : ℕ → Queue EventData) (taken : ℕ → ℕ) (b b' : Background)
      → AllHold rings taken b.queues
      → main_turn mem update_server fuel b ≡ ended b'
      → TurnedBoth (ring_turn (passes fails) b.registry rings b.server) b'
  unfolding ring_turn main_turn flush_threads
  ring_turn-TurnedBoth fails rings taken b b' hold e =
      turn_both _ _ b b'
        (flush_rings-FlushedBoth (broadcast mem fuel) fails fuel b.registry b.registry.threads rings
          taken b.queues (ended b.server.sink) hold)
        e
