-- ===== src/Background/Serving.antt =====
-- src/WebsocketSink.cpp and tools/web/js/ysProtocol.js: `Flush`, up to what each client reads.
use mathlib.Core.Path.{subst, fun_ext}
use yardstick.Base.{ℕ, ◌≡◌, ◌≢◌, ◌<◌, sym, ap, ◌∙◌, Option, some, List, [], ◌∷◌, ◌++◌, All, length}
use yardstick.Protocol.{Memory, EventData, event_type}
use yardstick.Client.{Event}
use yardstick.Client.RoundTrip.{IsEvent, seen}
use yardstick.Client.Message.{Seen, nothing, more}
use yardstick.Session.{flush_session}
use yardstick.Session.Valid.{IsValid}
use yardstick.Session.Strings.{told_all}
use yardstick.Session.Events.{strings}
use yardstick.Session.Flushing.{same_session, flush_session-Done}
use yardstick.Sink.{Node, Sink, ended, flush}
use yardstick.Sink.Chain
use yardstick.Sink.Every.{Served}
use yardstick.Sink.Broadcast.{Holding, flush-Served}
use yardstick.Delivery.{Delivered, flush_session-Delivered, Seen-append, Seen-announce}
use yardstick.Background.Taking.{tell, table_at, table_at-some}

-- An event that the encoder and the client take, and that is not a string.
abbrev pub Readable : (ℕ → ℕ) → Memory → EventData → Type 0
Readable round mem ev =
    (event_type ev ≢ 5) × IsEvent ev × ((out : Event) × (seen round mem ev ≡ some out))

pub Readable-plain :
    (round : ℕ → ℕ) (mem : Memory) (evs : List EventData)
    → All (Readable round mem) evs
    → All (λ ev. event_type ev ≢ 5) evs
Readable-plain round mem [] ok = tt
Readable-plain round mem (ev ∷ evs) ((plain, is, (out, shown)), ok) =
    (plain, Readable-plain round mem evs ok)

-- Whatever a session knows, what it takes of readable events is readable.
pub Seen-tell :
    (round : ℕ → ℕ) (mem : Memory) (table : List ℕ) (evs : List EventData)
    → All (Readable round mem) evs
    → (outs : List Event) × Seen round mem (tell mem table evs) outs
unfolding tell
Seen-tell round mem table [] ok = ([], nothing)
Seen-tell round mem table (ev ∷ evs) ((plain, is, (out, shown)), ok) =
    let (names, told) = Seen-announce round mem table (strings ev) in
    let (outs, later) = Seen-tell round mem (told_all table (strings ev)) evs ok in
    (names ++ (out ∷ outs), Seen-append round mem told (more is shown later))

-- The client of each session of a list has been sent, whole, what there is to show it.
abbrev pub Reached : (ℕ → ℕ) → (ℕ → Option Node) → (ℕ → List Event) → List ℕ → Type 0
Reached round heap outs [] = Unit
Reached round heap outs (x ∷ xs) =
    ((n : Node) × (heap x ≡ some n)
      × IsValid n.session
      × (n.session.bufpos ≡ 0)
      × Delivered round n.session (outs x))
    × Reached round heap outs xs

-- A flush leaves the histories and the tables of the sessions.
pub Served-Holding :
    (mem : Memory) (heap heap' : ℕ → Option Node) (history : ℕ → List EventData) (xs : List ℕ)
    → Holding mem heap history xs
    → Served flush_session heap heap' xs
    → Holding mem heap' history xs
Served-Holding mem heap heap' history [] hold served = tt
Served-Holding mem heap heap' history (x ∷ xs) ((n, here, v, l), hold)
      ((m, there, (r, t, done, stored)), served) =
    let one : m ≡ n = let z = sym there ∙ here in cc in
    let (d, empty) = flush_session-Done mem n.session (history x) v l in
    let after : d.after ≡ t =
      same_session (sym d.ends ∙ ap (λ k. flush_session k.session) (sym one) ∙ done) in
    (
      (record m { session = t }, stored, rw (← after) d.valid, rw (← after) d.log),
      Served-Holding mem heap heap' history xs hold served,
    )

pub Served-tables :
    (mem : Memory) (heap heap' : ℕ → Option Node) (history : ℕ → List EventData) (xs : List ℕ)
    → Holding mem heap history xs
    → Served flush_session heap heap' xs
    → All (λ x. table_at heap' x ≡ table_at heap x) xs
Served-tables mem heap heap' history [] hold served = tt
Served-tables mem heap heap' history (x ∷ xs) ((n, here, v, l), hold)
      ((m, there, (r, t, done, stored)), served) =
    let one : m ≡ n = let z = sym there ∙ here in cc in
    let (d, empty) = flush_session-Done mem n.session (history x) v l in
    let after : d.after ≡ t =
      same_session (sym d.ends ∙ ap (λ k. flush_session k.session) (sym one) ∙ done) in
    (
      table_at-some heap' x stored
          ∙ ap (λ k. k.table) (sym after)
          ∙ d.marked
          ∙ sym (table_at-some heap x here),
      Served-tables mem heap heap' history xs hold served,
    )

module _ (round : ℕ → ℕ) (mem : Memory) where
  Served-Reached :
      (heap heap' : ℕ → Option Node) (history : ℕ → List EventData) (outs : ℕ → List Event)
      (xs : List ℕ)
      → Holding mem heap history xs
      → ((x : ℕ) → Seen round mem (history x) (outs x))
      → Served flush_session heap heap' xs
      → Reached round heap' outs xs
  Served-Reached heap heap' history outs [] hold shown served = tt
  Served-Reached heap heap' history outs (x ∷ xs) ((n, here, v, l), hold) shown
        ((m, there, (r, t, done, stored)), served) =
      let one : m ≡ n = let z = sym there ∙ here in cc in
      let (s', ends, v', empty, delivered) =
        flush_session-Delivered round mem n.session (history x) v l (shown x) in
      let after : s' ≡ t =
        same_session (sym ends ∙ ap (λ k. flush_session k.session) (sym one) ∙ done) in
      (
        (
          record m { session = t },
          stored,
          rw (← after) v',
          rw (← after) empty,
          rw (← after) delivered,
        ),
        Served-Reached heap heap' history outs xs hold shown served,
      )

  -- On a whole list of valid sessions Flush ends, leaves the same list, and the client of each
  -- session has then been sent the events that the session has taken.
  pub flush-Reached :
      (fuel : ℕ) (s : Sink) (history : ℕ → List EventData) (outs : ℕ → List Event) (xs : List ℕ)
      → Chain.IsValid s xs
      → Holding mem s.heap history xs
      → ((x : ℕ) → Seen round mem (history x) (outs x))
      → length xs < fuel
      → (s' : Sink) × (flush fuel s ≡ ended s')
        × Chain.IsValid s' xs
        × Reached round s'.heap outs xs
        × Holding mem s'.heap history xs
        × All (λ x. table_at s'.heap x ≡ table_at s.heap x) xs
  flush-Reached fuel s history outs xs v hold shown fueled =
      let (s', ends, v', served) = flush-Served fuel s xs v fueled in
      (
        s',
        ends,
        v',
        Served-Reached s.heap s'.heap history outs xs hold shown served,
        Served-Holding mem s.heap s'.heap history xs hold served,
        Served-tables mem s.heap s'.heap history xs hold served,
      )

pub Reached-cast :
    (round : ℕ → ℕ) (heap : ℕ → _) (outs outs' : ℕ → List Event) (xs : List ℕ)
    → ((x : ℕ) → outs x ≡ outs' x)
    → Reached round heap outs xs
    → Reached round heap outs' xs
Reached-cast round heap outs outs' xs same reached =
    subst (λ o. Reached round heap o xs) (fun_ext same) reached
