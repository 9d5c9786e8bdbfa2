-- ===== src/Background/Draining.antt =====
-- src/GlobalState.cpp: `ThreadMain` until a queue is empty, from the queue to the clients.
use mathlib.Core.List.{map}
use mathlib.Core.Path.{subst}
use yardstick.Base.{
  update, update_self, ℕ, suc, ◌≡◌, ◌≢◌, ◌<◌, refl, sym, ap, ◌∙◌, List, [], ◌∷◌, ◌++◌, append-nil,
  append_assoc, All, All-append, All-take, All-drop, take, drop, length,
}
use yardstick.Protocol.{Memory, EventData}
use yardstick.Client.{Event}
use yardstick.Client.Message.{Seen}
use yardstick.Delivery.{Seen-append}
use yardstick.Registry.{Registry}
use yardstick.Sink.{Sink}
use yardstick.Sink.Chain
use yardstick.Sink.Broadcast.{Holding}
use yardstick.Server
use yardstick.Server.{Server}
use yardstick.Background.{Background, Turn}
use yardstick.Background.Taking.{tell, known, tell-append, table_at, All-pointwise}
use yardstick.Background.Serving.{Reached-cast, Readable, Reached}
use yardstick.Background.Turning.{start, update-sink, Turned, main_turn-Turned}
use yardstick.Background.Loop.{Turns, over, another}
use yardstick.Background.Arrivals.{emitting, taken, left}

module _ (round : ℕ → ℕ) (mem : Memory) (update_server : Sink → Sink) (fuel t : ℕ)
    (r : Registry) where
  -- Turns that end with `rest` in the queue, and with a sink in which the client of each session of
  -- `xs` has been sent what was due and what the events `sent` tell it.
  pub record Drained (b : Background) (turns : List Turn) (sent rest : List EventData)
      (outs : ℕ → List Event) (xs : List ℕ) : Type 0 where
    pub after : Background
    pub ends : Turns mem update_server (suc (suc fuel)) b turns after
    pub queue : after.queues t ≡ rest
    pub valid : Chain.IsValid after.server.sink xs
    pub news : ℕ → List Event
    pub shown :
        All (λ x. Seen round mem (tell mem (table_at b.server.sink.heap x) sent) (news x)) xs
    pub reached : Reached round after.server.sink.heap (λ x. outs x ++ news x) xs

  Seen-both :
      (heap heap' : ℕ → _) (a b : List EventData) (front back : ℕ → List Event) (xs : List ℕ)
      → ((x : ℕ) → Seen round mem (tell mem (table_at heap x) a) (front x))
      → All (λ x. table_at heap' x ≡ known (table_at heap x) a) xs
      → All (λ x. Seen round mem (tell mem (table_at heap' x) b) (back x)) xs
      → All (λ x. Seen round mem (tell mem (table_at heap x) (a ++ b)) (front x ++ back x)) xs
  Seen-both heap heap' a b front back [] one knows two = tt
  Seen-both heap heap' a b front back (x ∷ xs) one (e, knows) (s, two) = (
    rw (tell-append mem (table_at heap x) a b, ← e) (Seen-append round mem (one x) s),
    Seen-both heap heap' a b front back xs one knows two,
  )

  module _ (xs : List ℕ) (nonzero : t ≢ 0) (empty : r.threads ≡ 0)
      (same : (s : Sink) → update_server s ≡ s) (fueled : length xs < suc (suc fuel)) where
    -- What a queue is after a turn before which some events come.
    abbrev next : (ℕ → List EventData) → List EventData → ℕ → List EventData
    next queues evs = update (update queues t (queues t ++ evs)) t (drop 511 (queues t ++ evs))

    next_self :
        (queues : ℕ → List EventData) (evs : List EventData)
        → next queues evs t ≡ drop 511 (queues t ++ evs)
    next_self queues evs =
        update_self (update queues t (queues t ++ evs)) t (drop 511 (queues t ++ evs))

    abbrev TurnWith :
        (ℕ → List EventData)
        → Server
        → List EventData
        → (ℕ → List EventData)
        → (ℕ → List Event)
        → Type 0
    TurnWith queues server evs history outs =
        Turned round mem update_server (suc (suc fuel))
          (start t r (update queues t (queues t ++ evs)) server) (next queues evs)
          (take 511 (queues t ++ evs)) history outs xs

    emit_turn :
        (queues : ℕ → List EventData) (server : Server) (history : ℕ → List EventData)
        (outs : ℕ → List Event) (evs : List EventData)
        → All (Readable round mem) (queues t)
        → All (Readable round mem) evs
        → Chain.IsValid server.sink xs
        → Holding mem server.sink.heap history xs
        → ((x : ℕ) → Seen round mem (history x) (outs x))
        → TurnWith queues server evs history outs
    emit_turn queues server history outs evs ok new v hold shown =
        let q = update queues t (queues t ++ evs) in
        let here : q t ≡ queues t ++ evs = update_self queues t (queues t ++ evs) in
        subst
          (λ l.
            Turned round mem update_server (suc (suc fuel)) (start t r q server)
              (update q t (drop 511 l)) (take 511 l) history outs xs)
          here
          (main_turn-Turned mem update_server round fuel t r q server history outs xs nonzero empty
            (rw here (
              All-take (Readable round mem) 511 (queues t ++ evs)
                (All-append (Readable round mem) (queues t) evs ok new)))
            v hold shown fueled)

    module _ (queues : ℕ → List EventData) (server : Server) (history : ℕ → List EventData)
        (outs : ℕ → List Event) (evs : List EventData)
        (one : TurnWith queues server evs history outs) where
      abbrev server_after : Server
      server_after = (Server.update update_server (record server { sink = one.sink })).1

      sink_after : server_after.sink ≡ one.sink
      sink_after = update-sink update_server (record server { sink = one.sink }) same

      Drained-single :
          Drained
            (start t r queues server)
            (emitting t evs ∷ [])
            (taken (queues t) (evs ∷ []))
            (left (queues t) (evs ∷ []))
            outs
            xs
      unfolding taken left emitting
      Drained-single = record {
        after = start t r (next queues evs) server_after;
        ends = another (emitting t evs) refl one.ends over;
        queue = next_self queues evs;
        valid = subst (λ s. Chain.IsValid s xs) (sym sink_after) one.valid;
        news = one.news;
        shown = rw append-nil (All-pointwise one.shown xs);
        reached = rw sink_after one.reached;
      }

      Drained-more :
          (arrivals : List (List EventData))
          → Drained
              (start t r (next queues evs) server_after)
              (map (emitting t) arrivals)
              (taken (next queues evs t) arrivals)
              (left (next queues evs t) arrivals)
              (λ x. outs x ++ one.news x)
              xs
          → Drained
              (start t r queues server)
              (map (emitting t) (evs ∷ arrivals))
              (taken (queues t) (evs ∷ arrivals))
              (left (queues t) (evs ∷ arrivals))
              outs
              xs
      unfolding taken left emitting
      Drained-more arrivals d =
          let here : next queues evs t ≡ drop 511 (queues t ++ evs) = next_self queues evs in
          record {
            after = d.after;
            ends = another (emitting t evs) refl one.ends d.ends;
            queue = d.queue ∙ ap (λ q. left q arrivals) here;
            valid = d.valid;
            news = λ x. one.news x ++ d.news x;
            shown =
                Seen-both server.sink.heap one.sink.heap (take 511 (queues t ++ evs))
                  (taken (drop 511 (queues t ++ evs)) arrivals) one.news d.news xs one.shown
                  one.knows
                  (subst
                    (λ q.
                      All
                        (λ x.
                          Seen round mem (tell mem (table_at one.sink.heap x) (taken q arrivals))
                            (d.news x))
                        xs)
                    here (rw (← sink_after) d.shown));
            reached =
                Reached-cast round d.after.server.sink.heap _ _ xs
                  (λ x. append_assoc (outs x) (one.news x) (d.news x)) d.reached;
          }

    -- Turns, before each of which readable events come, take them as far as 511 a turn go.
    pub turns-Drained :
        (queues : ℕ → List EventData) (server : Server) (history : ℕ → List EventData)
        (outs : ℕ → List Event) (first : List EventData) (later : List (List EventData))
        → All (Readable round mem) (queues t)
        → All (All (Readable round mem)) (first ∷ later)
        → Chain.IsValid server.sink xs
        → Holding mem server.sink.heap history xs
        → ((x : ℕ) → Seen round mem (history x) (outs x))
        → Drained
            (start t r queues server)
            (map (emitting t) (first ∷ later))
            (taken (queues t) (first ∷ later))
            (left (queues t) (first ∷ later))
            outs
            xs
    turns-Drained queues server history outs first [] ok (new, none) v hold shown =
        Drained-single queues server history outs first
          (emit_turn queues server history outs first ok new v hold shown)
    turns-Drained queues server history outs first (second ∷ later) ok (new, news) v hold shown =
        let one = emit_turn queues server history outs first ok new v hold shown in
        let after = sink_after queues server history outs first one in
        let all : All (Readable round mem) (queues t ++ first) =
          All-append (Readable round mem) (queues t) first ok new in
        Drained-more queues server history outs first one (second ∷ later) (
          turns-Drained (next queues first) (server_after queues server history outs first one) _ _
            second later
            (rw (next_self queues first)
              (All-drop (Readable round mem) 511 (queues t ++ first) all))
            news (subst (λ s. Chain.IsValid s xs) (sym after) one.valid) (rw after one.holding)
            (λ x. Seen-append round mem (shown x) (one.shown x)))
