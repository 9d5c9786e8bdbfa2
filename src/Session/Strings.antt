-- ===== src/Session/Strings.antt =====
-- src/WebsocketSink.cpp: `WriteSessionString` against a table that says which strings the client
-- has been told.
use Prim.Native.Nat.{bit_and, bit_or}
use yardstick.Base.{
  ℕ, zero, suc, ◌-◌, ◌%◌, ◌^◌, ◌≤◌, ◌<◌, ◌≡◌, refl, sym, ap, ◌∙◌, ◌==◌, leb, Bool-cases, inl, inr,
  Bool, true, false, List, [], ◌∷◌, ◌++◌, append-nil, append_assoc, length-set, get_or, set, All,
  arith, if◌then◌else◌,
}
use yardstick.Base.Words.{u16, sub_u64}
use yardstick.PointerHash.{hash_pointer}
use yardstick.Protocol.{Memory, EventData, encode_size}
use yardstick.Session.{
  Session, Outcome, finished, byte_index, bit_mask, string_event, buf_size, make_room, put_string,
  mark_string, write_session_string, ◌>>◌,
}
use yardstick.Session.Valid.{IsValid, Log, Done}
use yardstick.Session.Flushing.{Done-bind, make_room-Done}
use yardstick.Session.Writing.{encode_into-Done, send_string-Done}
use yardstick.Api.{success}

-- The client has been told of the handle, as far as the table knows.
unfoldable pub is_marked : List ℕ → ℕ → Bool
is_marked table handle =
    if bit_and (get_or table (byte_index handle) 0) (bit_mask handle) == 0 then false else true

unfoldable pub mark : List ℕ → ℕ → List ℕ
mark table handle =
    set table (byte_index handle)
      (bit_or (get_or table (byte_index handle) 0) (bit_mask handle) % 256)

-- What the client is told of the string at an address, and the table afterwards.
unfoldable pub news : Memory → List ℕ → ℕ → List EventData
news mem table str = if is_marked table (hash_pointer str) then [] else string_event mem str ∷ []

unfoldable pub told : List ℕ → ℕ → List ℕ
told table str = if is_marked table (hash_pointer str) then table else mark table (hash_pointer str)

-- The same for the strings at several addresses, in order.
unfoldable pub announce : Memory → List ℕ → List ℕ → List EventData
announce mem table [] = []
announce mem table (str ∷ strs) = news mem table str ++ announce mem (told table str) strs

unfoldable pub told_all : List ℕ → List ℕ → List ℕ
told_all table [] = table
told_all table (str ∷ strs) = told_all (told table str) strs

pub All-set :
    (table : List ℕ) (i v : ℕ)
    → All (λ b. b < 2 ^ 8) table
    → v < 2 ^ 8
    → All (λ b. b < 2 ^ 8) (set table i v)
All-set [] i v h lt = h
All-set (b ∷ table) zero v h lt = (lt, h.1)
All-set (b ∷ table) (suc i) v h lt = (h.0, All-set table i v h.1 lt)

mark_string-Done :
    (mem : Memory) (handle : ℕ) (s : Session) (h : List EventData)
    → IsValid s
    → Log mem s h
    → Done mem (mark_string handle) s h (mark s.table handle)
unfolding mark_string mark
mark_string-Done mem handle s h v l = record {
  after = record s { table = mark s.table handle };
  ends = refl;
  valid = record {
    room = v.room;
    inside = v.inside;
    entries = length-set s.table _ _ ∙ v.entries;
    bytes = All-set s.table _ _ v.bytes (omega arith);
  };
  log = record {
    groups = l.groups;
    rest = l.rest;
    sent = l.sent;
    waiting = l.waiting;
    whole = l.whole;
  };
  marked = refl;
}

put_string-Done :
    (mem : Memory) (str : ℕ) (s : Session) (h : List EventData)
    → IsValid s
    → Log mem s h
    → (buf_size - s.bufpos < encode_size (string_event mem str) → s.bufpos ≡ 0)
    → Done mem (put_string mem str) s (h ++ (string_event mem str ∷ [])) s.table
unfolding put_string
put_string-Done mem str s h v l room =
    let i : s.bufpos ≤ buf_size = v.inside in
    elim (Bool-cases (leb (encode_size (string_event mem str)) (sub_u64 buf_size s.bufpos))) [
      | inl fits ↦
          let d = encode_into-Done mem (string_event mem str) s h v l (ground arith) in
          record {
            after = d.after;
            ends = rw fits d.ends;
            valid = d.valid;
            log = d.log;
            marked = d.marked;
          }
      | inr long ↦
          let d =
            send_string-Done mem (hash_pointer str) (u16 (mem.strlen str)) str s h v l
              (room (ground arith)) in
          record {
            after = d.after;
            ends = rw long d.ends;
            valid = d.valid;
            log = d.log;
            marked = d.marked;
          }
    ]

-- A string that the table does not know is told once, whatever its length.
write_session_string-new :
    (mem : Memory) (str : ℕ) (s : Session) (h : List EventData)
    → IsValid s
    → Log mem s h
    → is_marked s.table (hash_pointer str) ≡ false
    → Done mem
        (write_session_string mem str)
        s
        (h ++ (string_event mem str ∷ []))
        (mark s.table (hash_pointer str))
unfolding write_session_string is_marked
write_session_string-new mem str s h v l new =
    let (d, room) = make_room-Done mem (encode_size (string_event mem str)) s h v l in
    let p = put_string-Done mem str d.after h d.valid d.log room in
    let handle = hash_pointer str in
    let q =
      Done-bind mem (make_room (encode_size (string_event mem str))) (put_string mem str) s d p in
    let m = mark_string-Done mem handle q.after (h ++ (string_event mem str ∷ [])) q.valid q.log in
    let b =
      Done-bind mem (make_room (encode_size (string_event mem str)) >> put_string mem str)
        (mark_string handle) s q m in
    let clear : (bit_and (get_or s.table (byte_index handle) 0) (bit_mask handle) == 0) ≡ true =
      ground arith in
    record {
      after = b.after;
      ends = rw clear b.ends;
      valid = b.valid;
      log = b.log;
      marked = b.marked ∙ ap (λ t. mark t handle) (q.marked ∙ d.marked);
    }

write_session_string-old :
    (mem : Memory) (str : ℕ) (s : Session)
    → is_marked s.table (hash_pointer str) ≡ true
    → write_session_string mem str s ≡ finished success s
unfolding write_session_string is_marked
write_session_string-old mem str s old = ground arith

-- In a valid session WriteSessionString returns Success, tells the client of the string exactly if
-- its handle is not marked in the table, through the buffer or in a frame of its own, marks it, and
-- leaves the session valid.
pub write_session_string-Done :
    (mem : Memory) (str : ℕ) (s : Session) (h : List EventData)
    → IsValid s
    → Log mem s h
    → Done mem (write_session_string mem str) s (h ++ news mem s.table str) (told s.table str)
unfolding news told
write_session_string-Done mem str s h v l =
    elim (Bool-cases (is_marked s.table (hash_pointer str))) [
      | inl old ↦ record {
        after = s;
        ends = write_session_string-old mem str s old;
        valid = v;
        log = rw (old, append-nil) l;
        marked = rw old;
      }
      | inr new ↦
          let d = write_session_string-new mem str s h v l new in
          record {
            after = d.after;
            ends = d.ends;
            valid = d.valid;
            log = rw new d.log;
            marked = d.marked ∙ rw new;
          }
    ]

-- A table and a history in place of equal ones.
pub Done-cast :
    (mem : Memory) (m : Session → Outcome) (s : Session) {h h' : List EventData} {t t' : List ℕ}
    → h ≡ h'
    → t ≡ t'
    → Done mem m s h t
    → Done mem m s h' t'
Done-cast mem m s e f d = record {
  after = d.after;
  ends = d.ends;
  valid = d.valid;
  log = rw (← e) d.log;
  marked = d.marked ∙ f;
}

-- Two strings, one after the other.
pub write_two-Done :
    (mem : Memory) (name file : ℕ) (s : Session) (h : List EventData)
    → IsValid s
    → Log mem s h
    → Done mem
        (write_session_string mem name >> write_session_string mem file)
        s
        (h ++ announce mem s.table (name ∷ file ∷ []))
        (told_all s.table (name ∷ file ∷ []))
unfolding announce told_all
write_two-Done mem name file s h v l =
    let a = write_session_string-Done mem name s h v l in
    let b = write_session_string-Done mem file a.after _ a.valid a.log in
    Done-cast mem _ s
      (append_assoc h (news mem s.table name) _
        ∙ ap (λ t. h ++ (news mem s.table name ++ news mem t file)) a.marked
        ∙ ap (λ x. h ++ (news mem s.table name ++ x)) (sym (append-nil _)))
      (ap (λ t. told t file) a.marked)
      (Done-bind mem (write_session_string mem name) (write_session_string mem file) s a b)
