-- ===== src/Sink/Broadcast.antt =====
-- src/WebsocketSink.cpp: `WriteEvent` and `Flush` on every session of the sink.
use mathlib.Core.Path.{subst}
use yardstick.Base.{
  ℕ, ◌≡◌, ◌≢◌, ◌<◌, sym, ap, ◌∙◌, Option, some, List, [], ◌∷◌, ◌++◌, length, ◌==◌, Bool-cases, inl,
  inr,
}
use yardstick.Api.{YsResult, success}
use yardstick.Protocol.{Memory, EventData, event_type}
use yardstick.Session.{Session, finished, write_session_event, flush_session}
use yardstick.Session.Valid.{IsValid, Log}
use yardstick.Session.Strings.{announce, told_all}
use yardstick.Session.Events.{strings, write_session_event-Done}
use yardstick.Session.Flushing.{emptied, same_session}
use yardstick.Sink.{Node, Sink, ended, write_event, flush}
use yardstick.Sink.Chain
use yardstick.Sink.Chain.{Chain}
use yardstick.Sink.Every.{Finishes, Served, for_each-Served}

abbrev with_session : Session → Node → Node
with_session t n = record n { session = t }

finish_of_flush : (s : Session) → (r : YsResult) × (t : Session) × (flush_session s ≡ finished r t)
unfolding flush_session
finish_of_flush s = elim (Bool-cases (s.bufpos == 0)) [
  | inl empty ↦ (success, s, rw empty)
  | inr waiting ↦ (success, emptied s, rw waiting)
]

flush-Finishes :
    (heap : ℕ → Option Node) (p : ℕ) (xs : List ℕ)
    → Chain heap p xs
    → Finishes flush_session heap xs
flush-Finishes heap p [] c = tt
flush-Finishes heap p (x ∷ xs) (e, nz, (n, here, prev, rest)) =
    ((n, here, finish_of_flush n.session), flush-Finishes heap n.next xs rest)

-- On a whole list of sessions Flush ends, leaves the same list, and each session is what
-- FlushSession leaves of it.
pub flush-Served :
    (fuel : ℕ) (s : Sink) (xs : List ℕ)
    → Chain.IsValid s xs
    → length xs < fuel
    → (s' : Sink) × (flush fuel s ≡ ended s')
      × Chain.IsValid s' xs
      × Served flush_session s.heap s'.heap xs
unfolding flush
flush-Served fuel s xs v h =
    let (s', ends, same, chain, served, others) =
      for_each-Served flush_session xs fuel s.sessions s v.chain v.distinct
        (flush-Finishes s.heap s.sessions xs v.chain) h in
    (
      s',
      ends,
      record { chain = subst (λ p. Chain s'.heap p xs) (sym same) chain; distinct = v.distinct },
      served,
    )

-- Each session of a list is valid and has taken its history.
abbrev pub Holding : Memory → (ℕ → Option Node) → (ℕ → List EventData) → List ℕ → Type 0
Holding mem heap history [] = Unit
Holding mem heap history (x ∷ xs) =
    ((n : Node) × (heap x ≡ some n) × IsValid n.session × Log mem n.session (history x))
    × Holding mem heap history xs

module _ (mem : Memory) (ev : EventData) where
  -- Each session of a list has taken the strings that its table did not know, and the event.
  abbrev pub Told : (ℕ → Option Node) → (ℕ → Option Node) → (ℕ → List EventData) → List ℕ → Type 0
  Told heap heap' history [] = Unit
  Told heap heap' history (x ∷ xs) =
      ((n : Node) × (heap x ≡ some n)
        × ((t : Session) × (heap' x ≡ some (record n { session = t }))
            × IsValid t
            × (t.table ≡ told_all n.session.table (strings ev))
            × Log mem t (history x ++ announce mem n.session.table (strings ev) ++ (ev ∷ []))))
      × Told heap heap' history xs

  module _ (plain : event_type ev ≢ 5) where
    write-Finishes :
        (heap : ℕ → Option Node) (history : ℕ → List EventData) (xs : List ℕ)
        → Holding mem heap history xs
        → Finishes (write_session_event mem ev) heap xs
    write-Finishes heap history [] h = tt
    write-Finishes heap history (x ∷ xs) ((n, here, v, l), rest) =
        let d = write_session_event-Done mem ev n.session (history x) plain v l in
        ((n, here, (success, d.after, d.ends)), write-Finishes heap history xs rest)

    Served-Told :
        (heap heap' : ℕ → Option Node) (history : ℕ → List EventData) (xs : List ℕ)
        → Holding mem heap history xs
        → Served (write_session_event mem ev) heap heap' xs
        → Told heap heap' history xs
    Served-Told heap heap' history [] h s = tt
    Served-Told heap heap' history (x ∷ xs) ((n, here, v, l), rest)
          ((m, there, (r, t, done, stored)), served) =
        let one : m ≡ n = let z = sym there ∙ here in cc in
        let d = write_session_event-Done mem ev n.session (history x) plain v l in
        let after : d.after ≡ t =
          same_session
            (sym d.ends ∙ ap (λ k. write_session_event mem ev k.session) (sym one) ∙ done) in
        (
          (
            n,
            here,
            (
              t,
              stored ∙ ap (λ k. some (with_session t k)) one,
              subst IsValid after d.valid,
              ap (λ k. k.table) (sym after) ∙ d.marked,
              subst
                  (λ k.
                    Log mem k (history x ++ announce mem n.session.table (strings ev) ++ (ev ∷ [])))
                  after d.log,
            ),
          ),
          Served-Told heap heap' history xs rest served,
        )

    -- On a whole list of valid sessions WriteEvent of an event other than a string ends, and leaves
    -- the same list of valid sessions, each of which has taken the strings of the event that its
    -- own table did not know and then the event, and has marked those strings.
    pub write_event-Told :
        (fuel : ℕ) (s : Sink) (history : ℕ → List EventData) (xs : List ℕ)
        → Chain.IsValid s xs
        → Holding mem s.heap history xs
        → length xs < fuel
        → (s' : Sink) × (write_event mem fuel ev s ≡ ended s')
          × Chain.IsValid s' xs
          × Told s.heap s'.heap history xs
    unfolding write_event
    write_event-Told fuel s history xs v h fueled =
        let (s', ends, same, chain, served, others) =
          for_each-Served (write_session_event mem ev) xs fuel s.sessions s v.chain v.distinct
            (write-Finishes s.heap history xs h) fueled in
        (
          s',
          ends,
          record {
            chain = subst (λ p. Chain s'.heap p xs) (sym same) chain;
            distinct = v.distinct;
          },
          Served-Told s.heap s'.heap history xs h served,
        )
