-- ===== src/Session/Hearing.antt =====
-- src/WebsocketSink.cpp: that a client is told the strings of an event before the event.
use mathlib.Core.Path.{subst}
use yardstick.Base.{
  ℕ, ◌≡◌, ◌≢◌, ◌⊎◌, inl, inr, refl, true, Bool-cases, List, [], ◌∷◌, ◌++◌, append-nil, append_assoc,
  All,
}
use yardstick.PointerHash.{hash_pointer}
use yardstick.Protocol.{Memory, EventData, event_type}
use yardstick.Session.{Session, string_event, finished, write_session_event}
use yardstick.Session.Valid.{IsValid, Log}
use yardstick.Session.Strings.{is_marked, mark, news, told, announce, told_all}
use yardstick.Session.Events.{strings, write_session_event-Done}
use yardstick.Api.{success}
use yardstick.Session.Naming.{IsTable, SameBit, is_marked-mark_only, mark-IsTable}

-- An event stands in a list.
abbrev pub In : EventData → List EventData → Type 0
In ev [] = ⊥
In ev (x ∷ xs) = (ev ≡ x) ⊎ In ev xs

In-append : (ev : EventData) (a b : List EventData) → In ev a → In ev (a ++ b)
In-append ev [] b i = absurd i
In-append ev (x ∷ a) b (inl e) = inl e
In-append ev (x ∷ a) b (inr i) = inr (In-append ev a b i)

In-last : (ev : EventData) (a : List EventData) → In ev (a ++ (ev ∷ []))
In-last ev [] = inl refl
In-last ev (x ∷ a) = inr (In-last ev a)

module _ (mem : Memory) where
  -- The client has been told a string for the bit of a handle.
  abbrev pub Names : List EventData → ℕ → Type 0
  Names front handle =
      (str : ℕ) × In (string_event mem str) front × SameBit (hash_pointer str) handle

  Names-append :
      (front more : List EventData) (handle : ℕ) → Names front handle → Names (front ++ more) handle
  Names-append front more handle (str, i, same) = (str, In-append _ front more i, same)

  -- Behind `front`, the strings of each event of a list are told before it.
  abbrev pub Named : List EventData → List EventData → Type 0
  Named front [] = Unit
  Named front (ev ∷ evs) =
      All (λ str. Names front (hash_pointer str)) (strings ev) × Named (front ++ (ev ∷ [])) evs

  -- What the table says has been told has been told.
  abbrev pub Truthful : List ℕ → List EventData → Type 0
  Truthful table front = (handle : ℕ) → is_marked table handle ≡ true → Names front handle

  pub Named-append :
      (front a b : List EventData) → Named front a → Named (front ++ a) b → Named front (a ++ b)
  Named-append front [] b n m = rw (← append-nil front) m
  Named-append front (ev ∷ a) b (one, n) m =
      (one, Named-append (front ++ (ev ∷ [])) a b n (rw (append_assoc front (ev ∷ []) a) m))

  Truthful-append :
      (table : List ℕ) (front more : List EventData)
      → Truthful table front
      → Truthful table (front ++ more)
  Truthful-append table front more t handle e = Names-append front more handle (t handle e)

  -- A table and what has been told by then.
  pub record Knows (table : List ℕ) (front : List EventData) : Type 0 where
    pub whole : IsTable table
    pub truthful : Truthful table front

  -- What `more` adds to `front`: each of its events stands behind its strings, some strings have been
  -- told, and the table says no more than that.
  pub record Heard (table : List ℕ) (front more : List EventData) (strs table' : List ℕ)
      : Type 0 where
    pub knows : Knows table' (front ++ more)
    pub named : Named front more
    pub heard : All (λ str. Names (front ++ more) (hash_pointer str)) strs

  old-Heard :
      (table : List ℕ) (front : List EventData) (str : ℕ)
      → Knows table front
      → is_marked table (hash_pointer str) ≡ true
      → Heard table front [] (str ∷ []) table
  old-Heard table front str k old = record {
    knows = rw append-nil k;
    named = tt;
    heard = (rw append-nil (k.truthful (hash_pointer str) old), tt);
  }

  new-Heard :
      (table : List ℕ) (front : List EventData) (str : ℕ)
      → Knows table front
      → Heard table front (string_event mem str ∷ []) (str ∷ []) (mark table (hash_pointer str))
  unfolding strings
  new-Heard table front str k =
      let now : In (string_event mem str) (front ++ (string_event mem str ∷ [])) =
        In-last _ front in
      record {
        knows = record {
          whole = mark-IsTable table (hash_pointer str) k.whole;
          truthful = λ handle e.
              elim (is_marked-mark_only table (hash_pointer str) handle k.whole e) [
                | inl same ↦ (str, now, same)
                | inr before ↦ Names-append front _ handle (k.truthful handle before)
              ];
        };
        named = (tt, tt);
        heard = ((str, now, (refl, refl)), tt);
      }

  news-Heard :
      (table : List ℕ) (front : List EventData) (str : ℕ)
      → Knows table front
      → Heard table front (news mem table str) (str ∷ []) (told table str)
  unfolding news told
  news-Heard table front str k = elim (Bool-cases (is_marked table (hash_pointer str))) [
    | inl old ↦ rw old (old-Heard table front str k old)
    | inr new ↦ rw new (new-Heard table front str k)
  ]

  announce-Heard :
      (table : List ℕ) (front : List EventData) (strs : List ℕ)
      → Knows table front
      → Heard table front (announce mem table strs) strs (told_all table strs)
  unfolding announce told_all
  announce-Heard table front [] k = record { knows = rw append-nil k; named = tt; heard = tt }
  announce-Heard table front (str ∷ strs) k =
      let a = news-Heard table front str k in
      let b = announce-Heard (told table str) (front ++ news mem table str) strs a.knows in
      let whole = append_assoc front (news mem table str) (announce mem (told table str) strs) in
      record {
        knows = rw (← whole) b.knows;
        named = Named-append front (news mem table str) _ a.named b.named;
        heard = (
          rw (← whole) (Names-append (front ++ news mem table str) _ _ a.heard.0),
          subst (λ l. All (λ s. Names l (hash_pointer s)) strs) whole b.heard,
        );
      }

  -- An event behind its strings.
  pub event-Heard :
      (table : List ℕ) (front : List EventData) (ev : EventData)
      → Knows table front
      → Heard table front
          (announce mem table (strings ev) ++ (ev ∷ []))
          []
          (told_all table (strings ev))
  event-Heard table front ev k =
      let a = announce-Heard table front (strings ev) k in
      let whole = append_assoc front (announce mem table (strings ev)) (ev ∷ []) in
      record {
        knows = record {
          whole = a.knows.whole;
          truthful = rw (← whole) (Truthful-append _ _ (ev ∷ []) a.knows.truthful);
        };
        named =
            Named-append front (announce mem table (strings ev)) (ev ∷ []) a.named (a.heard, tt);
        heard = tt;
      }

  -- Where a valid session's history tells, before each event, for every string of the event a
  -- string with the same bit of the table, which is the string itself unless two strings share a
  -- bit, and tells one for every handle that the table marks, WriteSessionEvent of an event other
  -- than a string succeeds and leaves a valid session of which the same holds, with the new strings
  -- and the event at the end of its history.
  pub write_session_event-Named :
      (ev : EventData) (s : Session) (h : List EventData)
      → event_type ev ≢ 5
      → IsValid s
      → Log mem s h
      → Knows s.table h
      → Named [] h
      → (s' : Session) × (write_session_event mem ev s ≡ finished success s')
        × IsValid s'
        × Log mem s' (h ++ (announce mem s.table (strings ev) ++ (ev ∷ [])))
        × Knows s'.table (h ++ (announce mem s.table (strings ev) ++ (ev ∷ [])))
        × Named [] (h ++ (announce mem s.table (strings ev) ++ (ev ∷ [])))
  write_session_event-Named ev s h plain v l k named =
      let d = write_session_event-Done mem ev s h plain v l in
      let e = event-Heard s.table h ev k in
      (
        d.after,
        d.ends,
        d.valid,
        rw (← append_assoc h (announce mem s.table (strings ev)) (ev ∷ [])) d.log,
        rw d.marked e.knows,
        Named-append [] h _ named e.named,
      )
