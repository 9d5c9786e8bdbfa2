-- ===== src/Background/Turning.antt =====
-- src/GlobalState.cpp: a whole turn of `ThreadMain`, from the queue of a thread to the clients.
use yardstick.Base.{
  ◌==◌, Bool-cases, inl, inr, update, ℕ, suc, ◌≡◌, ◌≢◌, ◌<◌, refl, ap, ◌∙◌, List, ◌++◌, All, take,
  drop, length,
}
use yardstick.Api.{success}
use yardstick.Protocol.{Memory, EventData}
use yardstick.Client.{Event}
use yardstick.Client.Message.{Seen}
use yardstick.Delivery.{Seen-append}
use yardstick.Registry.{Registry, Flushed, register_thread, flush_threads}
use yardstick.Registry.Cycle.{flush_threads-single}
use yardstick.Sink.{Sink, ended, flush}
use yardstick.Sink.Chain
use yardstick.Sink.Broadcast.{Holding}
use yardstick.Server
use yardstick.Server.{Server}
use yardstick.Background.{Background, broadcast, flush_sink, main_turn}
use yardstick.Background.Taking.{
  tell, known, table_at, Accepts-broadcast, All-trans, write_all-Holding,
}
use yardstick.Background.Serving.{Readable, Readable-plain, Seen-tell, Reached, flush-Reached}

-- A turn that hands over the events `sent` ends with the queues `queues` and with a sink in which
-- the client of each session of `xs` has been sent what was due and what those events tell it, and
-- each session knows their strings; on that sink the web server is then updated.
pub record Turned (round : ℕ → ℕ) (mem : Memory) (update_server : Sink → Sink) (fuel : ℕ)
    (b : Background) (queues : ℕ → List EventData) (sent : List EventData)
    (history : ℕ → List EventData) (outs : ℕ → List Event) (xs : List ℕ) : Type 0 where
  pub sink : Sink
  pub valid : Chain.IsValid sink xs
  pub news : ℕ → List Event
  pub shown : (x : ℕ) → Seen round mem (tell mem (table_at b.server.sink.heap x) sent) (news x)
  pub reached : Reached round sink.heap (λ x. outs x ++ news x) xs
  pub holding :
      Holding mem sink.heap (λ x. history x ++ tell mem (table_at b.server.sink.heap x) sent) xs
  pub knows : All (λ x. table_at sink.heap x ≡ known (table_at b.server.sink.heap x) sent) xs
  pub ends :
      main_turn mem update_server fuel b
      ≡ ended (record b {
        queues = queues;
        server = (Server.update update_server (record b.server { sink = sink })).1;
      })

module _ (mem : Memory) (update_server : Sink → Sink) where
  main_turn-ends :
      (fuel : ℕ) (b : Background) (queues : ℕ → List EventData) {s s' : Sink}
      → flush_threads (broadcast mem fuel) fuel b.registry b.queues (ended b.server.sink)
        ≡ Flushed.ended success queues (ended s)
      → flush fuel s ≡ ended s'
      → main_turn mem update_server fuel b
        ≡ ended (record b {
          queues = queues;
          server = (Server.update update_server (record b.server { sink = s' })).1;
        })
  unfolding main_turn flush_sink Server.update
  main_turn-ends fuel b queues threads sessions =
      rw (threads, main_turn) (rw (sessions, flush_sink) refl)

  -- With one thread, registered in an empty list, whose oldest 511 events are none of type None and
  -- no strings and have values that fit their types, over a whole list of valid sessions that have
  -- taken histories of readable events, a turn of ThreadMain with fuel for two rounds at least, and
  -- for more rounds than there are sessions, ends: those events have left the queue, the list of
  -- sessions is whole, nothing waits in any session, and the web tool's reader takes from each
  -- session's messages what it had been due before and then those events, each after those of its
  -- strings that the session's table did not know; then the web server is updated.
  pub main_turn-Turned :
      (round : ℕ → ℕ) (fuel t : ℕ) (r : Registry) (queues : ℕ → List EventData) (server : Server)
      (history : ℕ → List EventData) (outs : ℕ → List Event) (xs : List ℕ)
      → t ≢ 0
      → r.threads ≡ 0
      → All (Readable round mem) (take 511 (queues t))
      → Chain.IsValid server.sink xs
      → Holding mem server.sink.heap history xs
      → ((x : ℕ) → Seen round mem (history x) (outs x))
      → length xs < suc (suc fuel)
      → Turned round mem update_server
          (suc (suc fuel))
          (record { registry = register_thread t r; queues = queues; server = server })
          (update queues t (drop 511 (queues t)))
          (take 511 (queues t))
          history
          outs
          xs
  main_turn-Turned round fuel t r queues server history outs xs nz empty ok v hold shown fueled =
      let evs = take 511 (queues t) in
      let (s, wrote, v1, held, knows) =
        write_all-Holding mem (suc (suc fuel)) evs server.sink history xs
          (Readable-plain round mem evs ok) v hold fueled in
      let threads =
        flush_threads-single (broadcast mem (suc (suc fuel))) r t fuel queues (ended server.sink) nz
          empty (Accepts-broadcast mem (suc (suc fuel)) evs _)
        ∙ ap (λ w. Flushed.ended success (update queues t (drop 511 (queues t))) w) wrote in
      let news : ℕ → List Event =
        λ x. (Seen-tell round mem (table_at server.sink.heap x) evs ok).0 in
      let told : (x : ℕ) → Seen round mem (tell mem (table_at server.sink.heap x) evs) (news x) =
        λ x. (Seen-tell round mem (table_at server.sink.heap x) evs ok).1 in
      let (s', ends, v', reached, kept, same) =
        flush-Reached round mem (suc (suc fuel)) s _ (λ x. outs x ++ news x) xs v1 held
          (λ x. Seen-append round mem (shown x) (told x)) fueled in
      record {
        sink = s';
        valid = v';
        news = news;
        shown = told;
        reached = reached;
        holding = kept;
        knows = All-trans _ _ _ xs same knows;
        ends = main_turn-ends (suc (suc fuel)) _ _ threads ends;
      }

-- The background thread's state once the thread `t` has been registered.
abbrev pub start : ℕ → Registry → (ℕ → List EventData) → Server → Background
start t r queues server = record {
  registry = register_thread t r;
  queues = queues;
  server = server;
}

pub update-sink :
    (update_server : Sink → Sink) (v : Server)
    → ((s : Sink) → update_server s ≡ s)
    → (Server.update update_server v).1.sink ≡ v.sink
unfolding Server.update
update-sink update_server v same = elim (Bool-cases (v.server == 0)) [
  | inl off ↦ rw off refl
  | inr on ↦ rw on (same v.sink)
]
