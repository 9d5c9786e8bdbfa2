-- ===== src/Session/Flushing.antt =====
-- src/WebsocketSink.cpp: one operation after another, and flushing.
use mathlib.Core.List.{map, map-append}
use yardstick.Base.{
  ℕ, ◌-◌, ◌<◌, ◌≡◌, refl, sym, ap, ◌∙◌, ◌==◌, ==_iff, ltb, Bool-cases, inl, inr, List, [], ◌∷◌,
  ◌++◌, append-nil, flatten, flatten-append, arith,
}
use yardstick.Base.Words.{sub_u64}
use yardstick.Protocol.{Memory, EventData}
use yardstick.Protocol.Encoding.{encodings}
use yardstick.Session.{
  Call, begin_socket_frame, write, end_socket_frame, Session, Outcome, finished, flush_session,
  make_room, buf_size, ◌>>◌,
}
use yardstick.Session.Wire.{closed, wire, wire-append}
use yardstick.Session.Valid.{IsValid, pending, Log, Done}
use yardstick.Api.{YsResult, success}

pub >>-of_success :
    (m k : Session → Outcome) (s : Session) {s' : Session}
    → m s ≡ finished success s'
    → (m >> k) s ≡ k s'
>>-of_success m k s e = rw (e, ◌>>◌)

-- Two ends of one operation leave one session.
pub same_session : {r r' : YsResult} {t u : Session} → finished r u ≡ finished r' t → u ≡ t
same_session e = cc

-- One operation after another.
pub Done-bind :
    (mem : Memory) (m k : Session → Outcome) (s : Session) {h h' : List EventData} {t t' : List ℕ}
    → (d : Done mem m s h t) → Done mem k d.after h' t'
    → Done mem (m >> k) s h' t'
Done-bind mem m k s d d' = record {
  after = d'.after;
  ends = >>-of_success m k s d.ends ∙ d'.ends;
  valid = d'.valid;
  log = d'.log;
  marked = d'.marked;
}

-- A message that holds the encodings of `group` follows the others.
pub wire_next :
    (mem : Memory) (groups : List (List EventData)) (group : List EventData)
    (calls more : List Call)
    → wire (closed []) calls ≡ closed (map (encodings mem) groups)
    → wire (closed (map (encodings mem) groups)) more
      ≡ closed (map (encodings mem) groups ++ (encodings mem group ∷ []))
    → wire (closed []) (calls ++ more) ≡ closed (map (encodings mem) (groups ++ (group ∷ [])))
wire_next mem groups group calls more e f =
    wire-append (closed []) calls more
    ∙ ap (λ w. wire w more) e
    ∙ f
    ∙ ap closed (sym (map-append (encodings mem) groups (group ∷ [])))

pub regroup :
    (groups : List (List EventData)) (rest : List EventData)
    → flatten (groups ++ (rest ∷ [])) ++ [] ≡ flatten groups ++ rest
regroup groups rest =
    append-nil _
    ∙ flatten-append groups (rest ∷ [])
    ∙ ap (λ l. flatten groups ++ l) (append-nil rest)

-- The session after a flush.
abbrev pub emptied : Session → Session
emptied s = record s {
  bufpos = 0;
  calls = s.calls ++ (begin_socket_frame ∷ write (pending s) ∷ end_socket_frame ∷ []);
}

pub flush_session-Done :
    (mem : Memory) (s : Session) (h : List EventData)
    → IsValid s
    → Log mem s h
    → (d : Done mem flush_session s h s.table) × (d.after.bufpos ≡ 0)
unfolding flush_session wire
flush_session-Done mem s h v l = elim (Bool-cases (s.bufpos == 0)) [
  | inl empty ↦ (
    record { after = s; ends = rw empty; valid = v; log = l; marked = refl },
    (==_iff _ _).0 empty,
  )
  | inr full ↦ (
    record {
      after = emptied s;
      ends = rw full;
      valid = record { room = v.room; inside = omega arith; entries = v.entries; bytes = v.bytes };
      log = record {
        groups = l.groups ++ (l.rest ∷ []);
        rest = [];
        sent =
            wire_next mem l.groups l.rest s.calls _ l.sent
              (ap (λ b. closed (map (encodings mem) l.groups ++ (b ∷ []))) l.waiting);
        waiting = refl;
        whole = l.whole ∙ sym (regroup l.groups l.rest);
      };
      marked = refl;
    },
    refl,
  )
]

-- Afterwards `size` bytes fit, or nothing waits in the buffer.
pub make_room-Done :
    (mem : Memory) (size : ℕ) (s : Session) (h : List EventData)
    → IsValid s
    → Log mem s h
    → (d : Done mem (make_room size) s h s.table) × (buf_size - d.after.bufpos < size
        → d.after.bufpos ≡ 0)
unfolding make_room
make_room-Done mem size s h v l = elim (Bool-cases (ltb (sub_u64 buf_size s.bufpos) size)) [
  | inl short ↦
      let (d, empty) = flush_session-Done mem s h v l in
      (
        record {
          after = d.after;
          ends = rw short d.ends;
          valid = d.valid;
          log = d.log;
          marked = d.marked;
        },
        λ _. empty,
      )
  | inr fits ↦ (
    record { after = s; ends = rw fits; valid = v; log = l; marked = refl },
    λ p. absurd (let i = v.inside in ground arith),
  )
]
