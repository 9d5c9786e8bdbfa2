-- ===== src/Delivery.antt =====
-- A session (src/WebsocketSink.cpp) and the web tool's reader (tools/web/js/ysProtocol.js) together.
use mathlib.Core.List.{map}
use yardstick.Base.{
  ℕ, ◌≡◌, refl, sym, ap, ◌∙◌, Option, none, some, ◌>>=◌, List, [], ◌∷◌, ◌++◌, append-nil, flatten,
  Bool-cases, inl, inr, ◌≢◌, take, length, arith,
}
use yardstick.Protocol.{Memory, EventData, event_type, read_memory}
use yardstick.Protocol.Encoding.{encodings}
use yardstick.Base.Words.{u16}
use yardstick.Client.{Event, string, Frame, events, thrown, unfinished, read_message}
use yardstick.Client.RoundTrip.{IsEvent, seen, encoding-cons}
use yardstick.Client.Message.{Seen, nothing, more, read_message-encodings}
use yardstick.PointerHash.{hash_pointer}
use yardstick.PointerHash.Forms.{hash_pointer-lt}
use yardstick.Session.{Session, finished, flush_session, write_session_event, ◌>>◌}
use yardstick.Session.Strings.{announce, news, told, is_marked}
use yardstick.Session.Events.{strings, write_session_event-Done}
use yardstick.Session.Wire.{closed, wire}
use yardstick.Session.Valid.{IsValid, Log}
use yardstick.Session.Flushing.{flush_session-Done, >>-of_success}
use yardstick.Api.{success}

-- The events of one message; `none` where the reader throws or reports a parse error.
unfoldable pub clean : Frame → Option (List Event)
clean (events evs r) = elim r.error [ none ↦ some evs | some _ ↦ none ]
clean thrown = none
clean unfinished = none

-- The events of the messages that `onmessage` is called with, in order.
unfoldable pub read_messages : (ℕ → ℕ) → List (List ℕ) → Option (List Event)
read_messages round [] = some []
read_messages round (m ∷ ms) = do
  evs ← clean (read_message round m)
  later ← read_messages round ms
  some (evs ++ later)

pub Seen-split :
    (round : ℕ → ℕ) (mem : Memory) (a b : List EventData) {outs : List Event}
    → Seen round mem (a ++ b) outs
    → (front back : List Event) × Seen round mem a front
      × Seen round mem b back
      × (outs ≡ front ++ back)
Seen-split round mem [] b shown = ([], _, nothing, shown, refl)
Seen-split round mem (ev ∷ a) b (more {out} ok e rest) =
    let (front, back, before, after, whole) = Seen-split round mem a b rest in
    (out ∷ front, back, more ok e before, after, ap (λ l. out ∷ l) whole)

read_messages-groups :
    (round : ℕ → ℕ) (mem : Memory) (groups : List (List EventData)) {outs : List Event}
    → Seen round mem (flatten groups) outs
    → read_messages round (map (encodings mem) groups) ≡ some outs
unfolding read_messages clean
read_messages-groups round mem [] nothing = refl
read_messages-groups round mem (group ∷ groups) shown =
    let (front, back, before, after, whole) = Seen-split round mem group (flatten groups) shown in
    rw (read_message-encodings round mem before, read_messages-groups round mem groups after, whole)

nothing_left : (mem : Memory) (rest : List EventData) → encodings mem rest ≡ [] → rest ≡ []
nothing_left mem [] e = refl
nothing_left mem (ev ∷ rest) e =
    let (tail, head) = encoding-cons mem ev in absurd (omega (arith, ap length (rw head at e)))

all_sent :
    {h rest : List EventData} (groups : List (List EventData))
    → h ≡ flatten groups ++ rest
    → rest ≡ []
    → h ≡ flatten groups
all_sent groups e f = e ∙ ap (λ l. flatten groups ++ l) f ∙ append-nil (flatten groups)

-- The messages that a flush leaves sent.
pub record Delivered (round : ℕ → ℕ) (s : Session) (outs : List Event) : Type 0 where
  pub messages : List (List ℕ)
  pub sent : wire (closed []) s.calls ≡ closed messages
  pub received : read_messages round messages ≡ some outs

-- After FlushSession of a valid session, the events of which are none of type None and have values
-- that fit their types, nothing waits in the buffer, and the web tool's reader takes from the
-- messages sent exactly the events that the session has taken, in order and with no parse error.
pub flush_session-Delivered :
    (round : ℕ → ℕ) (mem : Memory) (s : Session) (h : List EventData) {outs : List Event}
    → IsValid s
    → Log mem s h
    → Seen round mem h outs
    → (s' : Session) × (flush_session s ≡ finished success s')
      × IsValid s'
      × (s'.bufpos ≡ 0)
      × Delivered round s' outs
flush_session-Delivered round mem s h v l shown =
    let (d, empty) = flush_session-Done mem s h v l in
    (
      d.after,
      d.ends,
      d.valid,
      empty,
      record {
        messages = map (encodings mem) d.log.groups;
        sent = d.log.sent;
        received = read_messages-groups round mem d.log.groups (
            rw
              (all_sent d.log.groups d.log.whole (
                nothing_left mem d.log.rest
                  (sym d.log.waiting ∙ ap (λ n. take n d.after.buffer) empty)))
              at shown);
      },
    )

pub Seen-append :
    (round : ℕ → ℕ) (mem : Memory) {a b : List EventData} {front back : List Event}
    → Seen round mem a front
    → Seen round mem b back
    → Seen round mem (a ++ b) (front ++ back)
Seen-append round mem nothing after = after
Seen-append round mem (more ok e rest) after = more ok e (Seen-append round mem rest after)

-- Every string that is told is one that the client can read.
pub Seen-announce :
    (round : ℕ → ℕ) (mem : Memory) (table strs : List ℕ)
    → (names : List Event) × Seen round mem (announce mem table strs) names
unfolding announce news seen
Seen-announce round mem table [] = ([], nothing)
Seen-announce round mem table (str ∷ strs) =
    let (names, shown) = Seen-announce round mem (told table str) strs in
    elim (Bool-cases (is_marked table (hash_pointer str))) [
      | inl old ↦ (names, rw old shown)
      | inr new ↦ (
        string (hash_pointer str) (u16 (mem.strlen str))
              (read_memory mem str (u16 (mem.strlen str)))
            ∷ names,
        rw new (more (hash_pointer-lt str, omega arith) refl shown),
      )
    ]

-- Writing an event, neither a string nor None and with values that fit their types, to a valid
-- session whose earlier events are of that kind or strings, and flushing it, succeeds, and the web
-- tool's reader then takes from the messages what it had been due before, then the names of those
-- strings of the event that the session's table does not know, and then the event.
pub write_session_event-Delivered :
    (round : ℕ → ℕ) (mem : Memory) (s : Session) (h : List EventData) (ev : EventData)
    {outs : List Event} {out : Event}
    → IsValid s
    → Log mem s h
    → Seen round mem h outs
    → event_type ev ≢ 5
    → IsEvent ev
    → seen round mem ev ≡ some out
    → (names : List Event) × Seen round mem (announce mem s.table (strings ev)) names
      × ((s' : Session) × ((write_session_event mem ev >> flush_session) s ≡ finished success s')
          × IsValid s'
          × Delivered round s' (outs ++ names ++ (out ∷ [])))
write_session_event-Delivered round mem s h ev v l shown plain ok e =
    let (names, told_names) = Seen-announce round mem s.table (strings ev) in
    let d = write_session_event-Done mem ev s h plain v l in
    let (s', ends, v', empty, delivered) =
      flush_session-Delivered round mem d.after _ d.valid d.log
        (Seen-append round mem (Seen-append round mem shown told_names) (more ok e nothing)) in
    (
      names,
      told_names,
      (s', >>-of_success (write_session_event mem ev) flush_session s d.ends ∙ ends, v', delivered),
    )
