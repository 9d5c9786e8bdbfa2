-- ===== src/Session/Events.antt =====
-- src/WebsocketSink.cpp: `WriteSessionEvent`.
use yardstick.Base.{
  Bool-cases, inl, inr, ltb, ltb→lt, not_ltb→le, ℕ, ◌-◌, ◌≤◌, ◌<◌, ◌≡◌, refl, sym, ap, ◌∙◌, ◌≢◌,
  List, [], ◌∷◌, ◌++◌, append-nil, arith,
}
use yardstick.Protocol.{Memory, EventData, encode_size, event_type}
use yardstick.Session.{
  Session, buf_size, make_room, encode_into, write_strings, write_session_event, ◌>>◌, return,
}
use yardstick.Session.Valid.{IsValid, Log, Done}
use yardstick.Session.Flushing.{Done-bind, make_room-Done}
use yardstick.Session.Writing.{encode_into-Done}
use yardstick.Session.Strings.{
  announce, told_all, write_session_string-Done, write_two-Done, Done-cast,
}
use yardstick.Api.{success}

-- The strings that an event mentions, in the order in which they are told.
unfoldable pub strings : EventData → List ℕ
strings (EventData.region line name file begin end) = name ∷ file ∷ []
strings (EventData.counter_set line name file when value) = name ∷ file ∷ []
strings (EventData.counter_add name amount) = name ∷ []
strings _ = []

nothing-Done :
    (mem : Memory) (s : Session) (h : List EventData)
    → IsValid s
    → Log mem s h
    → Done mem (return success) s (h ++ []) s.table
nothing-Done mem s h v l = record {
  after = s;
  ends = refl;
  valid = v;
  log = rw append-nil l;
  marked = refl;
}

write_strings-Done :
    (mem : Memory) (ev : EventData) (s : Session) (h : List EventData)
    → IsValid s
    → Log mem s h
    → Done mem
        (write_strings mem ev)
        s
        (h ++ announce mem s.table (strings ev))
        (told_all s.table (strings ev))
unfolding write_strings strings announce told_all
write_strings-Done mem (EventData.region line name file begin end) s h v l =
    write_two-Done mem name file s h v l
write_strings-Done mem (EventData.counter_set line name file when value) s h v l =
    write_two-Done mem name file s h v l
write_strings-Done mem (EventData.counter_add name amount) s h v l =
    Done-cast mem _ s (ap (λ l. h ++ l) (sym (append-nil _))) refl
      (write_session_string-Done mem name s h v l)
write_strings-Done mem EventData.none s h v l = nothing-Done mem s h v l
write_strings-Done mem (EventData.header _ _) s h v l = nothing-Done mem s h v l
write_strings-Done mem (EventData.tick _) s h v l = nothing-Done mem s h v l
write_strings-Done mem (EventData.string _ _ _) s h v l = nothing-Done mem s h v l

-- An event that no string is in takes 29 bytes at most.
small : (ev : EventData) → event_type ev ≢ 5 → encode_size ev ≤ 29
unfolding encode_size event_type
small EventData.none h = omega arith
small (EventData.header _ _) h = omega arith
small (EventData.tick _) h = omega arith
small (EventData.region _ _ _ _ _) h = omega arith
small (EventData.counter_set _ _ _ _ _) h = omega arith
small (EventData.string _ _ _) h = absurd (h refl)
small (EventData.counter_add _ _) h = omega arith

fits : (size pos : ℕ) → size ≤ 29 → (buf_size - pos < size → pos ≡ 0) → size ≤ buf_size - pos
fits size pos low room = elim (Bool-cases (ltb (buf_size - pos) size)) [
  | inl short ↦ omega (arith, room (ltb→lt _ _ short))
  | inr enough ↦ not_ltb→le _ _ enough
]

-- In a valid session WriteSessionEvent of an event other than a string returns Success and never
-- writes outside the buffer; the session takes the strings of the event that its table does not
-- know and then the event, every message sent holds whole events, and the session stays valid.
pub write_session_event-Done :
    (mem : Memory) (ev : EventData) (s : Session) (h : List EventData)
    → event_type ev ≢ 5
    → IsValid s
    → Log mem s h
    → Done mem
        (write_session_event mem ev)
        s
        (h ++ announce mem s.table (strings ev) ++ (ev ∷ []))
        (told_all s.table (strings ev))
unfolding write_session_event
write_session_event-Done mem ev s h plain v l =
    let a = write_strings-Done mem ev s h v l in
    let (b, room) = make_room-Done mem (encode_size ev) a.after _ a.valid a.log in
    let c =
      encode_into-Done mem ev b.after _ b.valid b.log
        (fits (encode_size ev) b.after.bufpos (small ev plain) room) in
    Done-cast mem _ s refl (b.marked ∙ a.marked) (
      Done-bind mem (write_strings mem ev) (make_room (encode_size ev) >> encode_into mem ev) s a
        (Done-bind mem (make_room (encode_size ev)) (encode_into mem ev) a.after b c))
