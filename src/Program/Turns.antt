-- ===== src/Program/Turns.antt =====
-- src/GlobalState.cpp and tools/web/js/ysProtocol.js: a turn of the background thread on the state of
-- the program, up to what the clients are shown.
use yardstick.Base.{
  ℕ, suc, ◌≡◌, ◌≢◌, ◌<◌, refl, sym, ap, ◌∙◌, Option, some, List, [], ◌∷◌, ◌++◌, append_assoc, All,
  take, take_all, Bool, length, length-append, arith,
}
use yardstick.Protocol.{Memory, EventData}
use yardstick.Client.{Event}
use yardstick.Client.RoundTrip.{seen}
use yardstick.Client.Message.{Seen, nothing, more}
use yardstick.Delivery.{Seen-split}
use yardstick.Session.Strings.{announce}
use yardstick.Session.Events.{strings}
use yardstick.Background.Taking.{tell, known, tell-append, table_at}
use yardstick.Background.Serving.{Reached}
use yardstick.Background.Turning.{main_turn-Turned}
use yardstick.Background.Turning.{start, update-sink}
use yardstick.Background.Serving.{Reached-cast}
use yardstick.Background.Rings.{ring_turn, ring_turn-TurnedBoth}
use yardstick.Registry.{Registry, register_thread}
use yardstick.Registry.Rings.Flushing.{AllHold, passes}
use yardstick.Queue.{Queue}
use yardstick.Sink.{Sink, ended}
use yardstick.Sink.Chain
use yardstick.Sink.Broadcast.{Holding}
use yardstick.Server
use yardstick.Server.{Server, Answers}
use yardstick.Emit.Typed.{Emitted, AllEmitted-Readable}
use yardstick.Program.{Program, background_turn}

seen_inj : {a b : Event} {o : Option Event} → o ≡ some a → o ≡ some b → a ≡ b
seen_inj e f = cc

Seen-one :
    (round : ℕ → ℕ) (mem : Memory) {ev : EventData} {outs : List Event} {out : Event}
    → Seen round mem (ev ∷ []) outs
    → seen round mem ev ≡ some out
    → outs ≡ out ∷ []
Seen-one round mem (more ok e nothing) f = ap (λ o. o ∷ []) (seen_inj e f)

-- The last event that a client is shown is what it sees of the last one told.
Seen-last :
    (round : ℕ → ℕ) (mem : Memory) (table : List ℕ) (evs : List EventData) (ev : EventData)
    {outs : List Event} {out : Event}
    → Seen round mem (tell mem table (evs ++ (ev ∷ []))) outs
    → seen round mem ev ≡ some out
    → (front : List Event) × (outs ≡ front ++ (out ∷ []))
unfolding tell
Seen-last round mem table evs ev shown e =
    let (a, b, one, rest, whole) =
      Seen-split round mem (tell mem table evs) _
        (rw (tell-append mem table evs (ev ∷ [])) at shown) in
    let (c, d, names, last, both) =
      Seen-split round mem (announce mem (known table evs) (strings ev)) (ev ∷ []) rest in
    (
      a ++ c,
      whole
          ∙ ap (λ l. a ++ l) (both ∙ ap (λ l. c ++ l) (Seen-one round mem last e))
          ∙ sym (append_assoc a c _),
    )

-- A whole list of valid sessions, with their histories and what is due to their clients.
pub record IsServed (round : ℕ → ℕ) (mem : Memory) (v : Server) (outs : ℕ → List Event)
    (sessions : List ℕ) : Type 0 where
  pub list : Chain.IsValid v.sink sessions
  pub history : ℕ → List EventData
  pub holding : Holding mem v.sink.heap history sessions
  pub due : (x : ℕ) → Seen round mem (history x) (outs x)

-- A turn of the background thread ends, and the client of each session has then been sent what was
-- due, some events, and at last `event`.
pub record Watched (round : ℕ → ℕ) (mem : Memory) (update_server : Sink → Sink) (fuel : ℕ)
    (outcomes : ℕ → ℕ → List Bool) (g : Program) (outs : ℕ → List Event) (event : Event)
    (sessions : List ℕ) : Type 0 where
  pub after : Program
  pub ends : background_turn mem update_server fuel outcomes g ≡ ended after
  pub server : Server
  pub served : after.global.sink ≡ ended server
  pub before : ℕ → List Event
  pub reached : Reached round server.sink.heap (λ x. outs x ++ (before x ++ (event ∷ []))) sessions

module _ (round : ℕ → ℕ) (mem : Memory) (update_server : Sink → Sink) (n : ℕ) (fails : ℕ → ℕ → ℕ)
    (t : ℕ) (r : Registry) where
  background_turn-ends :
      (outcomes : ℕ → ℕ → List Bool) (g : Program) (v v' : Server) (rings : ℕ → Queue EventData)
      → g.global.sink ≡ ended v
      → ring_turn mem update_server (suc (suc n)) outcomes g.threads.registry g.threads.queue v
        ≡ ended (rings, v')
      → background_turn mem update_server (suc (suc n)) outcomes g
        ≡ ended (record g {
          threads = record g.threads { queue = rings };
          global = record g.global { sink = ended v' };
        })
  unfolding background_turn
  background_turn-ends outcomes g v v' rings sink e =
      rw (sink, background_turn) (rw (e, background_turn) refl)

  -- A turn with the events of one thread, few enough for one turn, shows the last of them at last.
  pub turn-Watched :
      (g : Program) (v : Server) (taken : ℕ → ℕ) (lists : ℕ → List EventData) (xs : List EventData)
      (ev : EventData) {out : Event} (outs : ℕ → List Event) (sessions : List ℕ)
      → t ≢ 0
      → r.threads ≡ 0
      → ((s : Sink) → update_server s ≡ s)
      → g.threads.registry ≡ register_thread t r
      → g.global.sink ≡ ended v
      → AllHold g.threads.queue taken lists
      → lists t ≡ xs ++ (ev ∷ [])
      → All Emitted (xs ++ (ev ∷ []))
      → length xs < 511
      → seen round mem ev ≡ some out
      → IsServed round mem v outs sessions
      → length sessions < suc (suc n)
      → Watched round mem update_server (suc (suc n)) (passes fails) g outs out sessions
  turn-Watched g v taken lists xs ev outs sessions nz empty same registry sink hold queued ok few e
        served fueled =
      let all : take 511 (lists t) ≡ xs ++ (ev ∷ []) =
        ap (take 511) queued
        ∙ take_all 511 (xs ++ (ev ∷ [])) (omega (arith, length-append xs (ev ∷ []))) in
      let one =
        main_turn-Turned mem update_server round n t r lists v served.history outs sessions nz empty
          (rw all (AllEmitted-Readable round mem (xs ++ (ev ∷ [])) ok)) served.list served.holding
          served.due fueled in
      let (rings, taken', ends, hold') =
        ring_turn-TurnedBoth mem update_server (suc (suc n)) fails g.threads.queue taken
          (start t r lists v) _ hold one.ends in
      let shown : (x : ℕ)
          → Seen round mem (tell mem (table_at v.sink.heap x) (xs ++ (ev ∷ []))) (one.news x) =
        λ x. rw all at one.shown x in
      let last : (x : ℕ) → (front : List Event) × (one.news x ≡ front ++ (_ ∷ [])) =
        λ x. Seen-last round mem (table_at v.sink.heap x) xs ev (shown x) e in
      record {
        after = _;
        ends =
            background_turn-ends (passes fails) g v
              (Server.update update_server (record v { sink = one.sink })).1 rings sink
              (rw registry ends);
        server = _;
        served = refl;
        before = λ x. (last x).0;
        reached = rw (update-sink update_server (record v { sink = one.sink }) same) (
            Reached-cast round one.sink.heap _ _ sessions (λ x. ap (λ l. outs x ++ l) (last x).1)
              one.reached);
      }
