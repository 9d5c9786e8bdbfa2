-- ===== src/Session/Writing.antt =====
-- src/WebsocketSink.cpp: adding an event to the buffer, and sending a string without it.
use mathlib.Core.List.{map}
use yardstick.Base.{
  ℕ, ◌+◌, ◌-◌, ◌≤◌, ◌≡◌, refl, sym, ap, ◌∙◌, List, [], ◌∷◌, ◌++◌, append-nil, append_assoc, length,
  length-append, length-take, length-drop, take, take-append, take-append_self, drop, flatten,
  arith,
}
use yardstick.Base.Words.{u64, sub_u64, to_bytes}
use yardstick.Protocol.{Memory, EventData, encode_size, event_type, read_memory}
use yardstick.Protocol.Encoding.{
  encoding, encodings, encodings-append, fields, length-encoding, text,
}
use yardstick.Protocol.Bounds.{encode_event-success}
use yardstick.Session.{
  begin_socket_frame, write, printf, end_socket_frame, Session, encode_into, send_string, buf_size,
}
use yardstick.Session.Wire.{closed, wire}
use yardstick.Session.Valid.{IsValid, pending, Log, Done}
use yardstick.Session.Flushing.{wire_next, regroup}

-- The buffer with the bytes of `ev` added.
abbrev added : Memory → EventData → Session → Session
added mem ev s = record s {
  buffer =
      take s.bufpos s.buffer ++ (encoding mem ev ++ drop (encode_size ev) (drop s.bufpos s.buffer));
  bufpos = u64 (s.bufpos + encode_size ev);
}

encodings-snoc :
    (mem : Memory) (evs : List EventData) (ev : EventData)
    → encodings mem (evs ++ (ev ∷ [])) ≡ encodings mem evs ++ encoding mem ev
encodings-snoc mem evs ev =
    encodings-append mem evs (ev ∷ [])
    ∙ ap (λ l. encodings mem evs ++ l) (append-nil (encoding mem ev))

pending-added :
    (mem : Memory) (ev : EventData) (s : Session)
    → u64 (s.bufpos + encode_size ev) ≡ s.bufpos + encode_size ev
    → length (pending s) ≡ s.bufpos
    → pending (added mem ev s) ≡ pending s ++ encoding mem ev
pending-added mem ev s narrow front =
    ap (λ n. take n (added mem ev s).buffer) (narrow ∙ omega (arith, length-encoding mem ev))
    ∙ take-append (pending s) _ (length (encoding mem ev))
    ∙ ap (λ l. pending s ++ l) (take-append_self (encoding mem ev) _)

-- An event that fits is added to what waits, and the encoder stays inside the buffer.
pub encode_into-Done :
    (mem : Memory) (ev : EventData) (s : Session) (h : List EventData)
    → IsValid s
    → Log mem s h
    → encode_size ev ≤ buf_size - s.bufpos
    → Done mem (encode_into mem ev) s (h ++ (ev ∷ [])) s.table
unfolding encode_into
encode_into-Done mem ev s h v l fits =
    let i : s.bufpos ≤ buf_size = v.inside in
    let r : length s.buffer ≡ buf_size = v.room in
    let front : length (take s.bufpos s.buffer) ≡ s.bufpos =
      omega (arith, length-take s.bufpos s.buffer) in
    let back : length (drop s.bufpos s.buffer) ≡ buf_size - s.bufpos =
      omega (arith, length-drop s.bufpos s.buffer) in
    let wraps : sub_u64 buf_size s.bufpos ≡ buf_size - s.bufpos = omega arith in
    let narrow : u64 (s.bufpos + encode_size ev) ≡ s.bufpos + encode_size ev = omega arith in
    let length-added : length (added mem ev s).buffer ≡ buf_size = omega (
      arith,
      length-append (take s.bufpos s.buffer)
          (encoding mem ev ++ drop (encode_size ev) (drop s.bufpos s.buffer)),
      length-append (encoding mem ev) (drop (encode_size ev) (drop s.bufpos s.buffer)),
      length-encoding mem ev,
      length-drop (encode_size ev) (drop s.bufpos s.buffer),
    ) in
    record {
      after = added mem ev s;
      ends = rw (
        wraps,
        encode_event-success mem (drop s.bufpos s.buffer) (buf_size - s.bufpos) ev fits
            (omega arith) (omega arith),
        encode_into,
      );
      valid = record {
        room = length-added;
        inside = omega arith;
        entries = v.entries;
        bytes = v.bytes;
      };
      log = record {
        groups = l.groups;
        rest = l.rest ++ (ev ∷ []);
        sent = l.sent;
        waiting =
            pending-added mem ev s narrow front
            ∙ ap (λ b. b ++ encoding mem ev) l.waiting
            ∙ sym (encodings-snoc mem l.rest ev);
        whole = ap (λ x. x ++ (ev ∷ [])) l.whole ∙ append_assoc (flatten l.groups) l.rest (ev ∷ []);
      };
      marked = refl;
    }

-- The pieces of a string that is sent straight out are its encoding.
string_bytes :
    (mem : Memory) (handle size str : ℕ) (rest : List EventData)
    → encodings mem rest ≡ []
    → 5 ∷ (to_bytes 4 handle ++ to_bytes 2 size ++ read_memory mem str size)
      ≡ encodings mem (rest ++ (EventData.string handle size str ∷ []))
unfolding encoding to_bytes event_type fields text
string_bytes mem handle size str rest e = sym (
    encodings-snoc mem rest (EventData.string handle size str)
    ∙ ap (λ l. l ++ encoding mem (EventData.string handle size str)) e)

-- With nothing waiting, a string goes out as a message of its own.
pub send_string-Done :
    (mem : Memory) (handle size str : ℕ) (s : Session) (h : List EventData)
    → IsValid s
    → Log mem s h
    → s.bufpos ≡ 0
    → Done mem
        (send_string mem handle size str)
        s
        (h ++ (EventData.string handle size str ∷ []))
        s.table
unfolding send_string wire
send_string-Done mem handle size str s h v l empty = record {
  after = record s {
    calls =
        s.calls
        ++ (begin_socket_frame
            ∷ printf (5 ∷ [])
            ∷ write (to_bytes 4 handle)
            ∷ write (to_bytes 2 size)
            ∷ write (read_memory mem str size)
            ∷ end_socket_frame
            ∷ []);
  };
  ends = refl;
  valid = record { room = v.room; inside = v.inside; entries = v.entries; bytes = v.bytes };
  log = record {
    groups = l.groups ++ ((l.rest ++ (EventData.string handle size str ∷ [])) ∷ []);
    rest = [];
    sent = wire_next mem l.groups _ s.calls _ l.sent (
        ap (λ b. closed (map (encodings mem) l.groups ++ (b ∷ [])))
          (string_bytes mem handle size str l.rest
            (sym l.waiting ∙ ap (λ n. take n s.buffer) empty)));
    waiting = ap (λ n. take n s.buffer) empty;
    whole =
        ap (λ x. x ++ (EventData.string handle size str ∷ [])) l.whole
        ∙ append_assoc (flatten l.groups) l.rest _
        ∙ sym (regroup l.groups _);
  };
  marked = refl;
}
