-- ===== src/Client/RoundTrip.antt =====
-- The reader of tools/web/js/ysProtocol.js on the bytes that src/Protocol.cpp writes.
use yardstick.Base.{
  ℕ, zero, suc, ◌+◌, ◌/◌, ◌%◌, ◌^◌, ◌<◌, ◌≡◌, refl, sym, ap, ap₂, ◌∙◌, Option, none, some, List, [],
  ◌∷◌, ◌++◌, append_assoc, length, length-append, drop, drop-append, drop-drop, get_elem?,
  get_elem?-append, arith, leb, false,
}
use yardstick.Base.Words.{to_bytes, of_bytes, of_bytes-to_bytes}
use native.Mathlib.Nat.{add_assoc}
use yardstick.Api.{IsTime, IsStringHandle}
use yardstick.PointerHash.Forms.{hash_pointer-lt}
use yardstick.PointerHash.{hash_pointer}
use yardstick.Protocol.{Memory, read_memory, EventData, event_type, encode_size}
use yardstick.Protocol.Encoding.{fields, text, encoding}
use yardstick.Client.{
  Event, header, tick, region, counter_set, string, counter_add, get_uint8, get_uint16, get_uint32,
  get_float64, get_text, get_uint64, read_event, read,
}

-- The values of an event fit the types of its members.
abbrev pub IsEvent : EventData → Type 0
IsEvent EventData.none = Unit {0}
IsEvent (EventData.header frequency start) = IsTime frequency × IsTime start
IsEvent (EventData.tick when) = IsTime when
IsEvent (EventData.region line name file begin end) = (line < 2 ^ 32) × IsTime begin × IsTime end
IsEvent (EventData.counter_set line name file when value) =
    (line < 2 ^ 32) × IsTime when × (value < 2 ^ 64)
IsEvent (EventData.string id size str) = IsStringHandle id × (size < 2 ^ 16)
IsEvent (EventData.counter_add name amount) = amount < 2 ^ 64

-- A word of `n` bytes that stands `k` bytes behind the position.
read_at :
    (n k : ℕ) (before xs rest : List ℕ) (v : ℕ)
    → drop k xs ≡ to_bytes n v ++ rest
    → v < 256 ^ n
    → of_bytes n (drop (length before + k) (before ++ xs)) ≡ some v
read_at n k before xs rest v e h =
    ap (of_bytes n) (drop-append before xs k ∙ e) ∙ of_bytes-to_bytes n v rest h

cons_path : {x y : ℕ} {xs ys : List ℕ} → x ≡ y → xs ≡ ys → ◌≡◌ {A = List ℕ} (x ∷ xs) (y ∷ ys)
cons_path = ap₂ ◌∷◌

-- The two halves of eight bytes.
halves : (v : ℕ) → v < 2 ^ 64 → to_bytes 8 v ≡ to_bytes 4 (v % 2 ^ 32) ++ to_bytes 4 (v / 2 ^ 32)
unfolding to_bytes
halves v h = cons_path (omega arith) (
    cons_path (omega arith) (
      cons_path (omega arith) (
        cons_path (omega arith) (
          cons_path (omega arith)
            (cons_path (omega arith) (cons_path (omega arith) (cons_path (omega arith) refl)))))))

four : (v : ℕ) (rest : List ℕ) → drop 4 (to_bytes 4 v ++ rest) ≡ rest
unfolding to_bytes
four v rest = refl

get_uint64_at :
    (round : ℕ → ℕ) (k : ℕ) (before xs rest : List ℕ) (v : ℕ)
    → drop k xs ≡ to_bytes 8 v ++ rest
    → v < 2 ^ 64
    → get_uint64 round (before ++ xs) (length before + k) ≡ some (round v)
unfolding get_uint64 get_uint32
get_uint64_at round k before xs rest v e h = rw (lo, hi) (ap (λ n. some (round n)) (omega arith))
  where
    apart : drop k xs ≡ to_bytes 4 (v % 2 ^ 32) ++ (to_bytes 4 (v / 2 ^ 32) ++ rest)
    apart =
        e
        ∙ ap (λ l. l ++ rest) (halves v h)
        ∙ append_assoc (to_bytes 4 (v % 2 ^ 32)) (to_bytes 4 (v / 2 ^ 32)) rest

    lo : of_bytes 4 (drop (length before + k) (before ++ xs)) ≡ some (v % 2 ^ 32)
    lo = read_at 4 k before xs _ (v % 2 ^ 32) apart (omega arith)

    hi : of_bytes 4 (drop (length before + k + 4) (before ++ xs)) ≡ some (v / 2 ^ 32)
    hi =
        ap (λ n. of_bytes 4 (drop n (before ++ xs))) (add_assoc (length before) k 4)
        ∙ read_at 4 (k + 4) before xs rest (v / 2 ^ 32)
            (sym (drop-drop 4 k xs) ∙ ap (drop 4) apart ∙ four (v % 2 ^ 32) _) (omega arith)

get_text-read_memory :
    (mem : Memory) (size str pos : ℕ) (view before rest : List ℕ)
    → view ≡ before ++ (read_memory mem str size ++ rest)
    → pos ≡ length before
    → get_text view pos size ≡ some (read_memory mem str size)
unfolding get_text read_memory get_uint8
get_text-read_memory mem zero str pos view before rest e p = refl
get_text-read_memory mem (suc size) str pos view before rest e p =
    let here : get_elem? view pos ≡ some (mem.byte str) =
      rw (e, p) (get_elem?-append before (mem.byte str) _) in
    let later : get_text view (pos + 1) size ≡ some (read_memory mem (str + 1) size) =
      get_text-read_memory mem size (str + 1) (pos + 1) view (before ++ (mem.byte str ∷ [])) rest
        (e ∙ sym (append_assoc before (mem.byte str ∷ []) _))
        (omega (arith, length-append before (mem.byte str ∷ []))) in
    rw (here, later)

-- What the client sees of an event: a handle for each string, times as rounded numbers. It takes a
-- `none` event for a parse error.
unfoldable pub seen : (ℕ → ℕ) → Memory → EventData → Option Event
seen round mem EventData.none = none
seen round mem (EventData.header frequency start) = some (header (round frequency) (round start))
seen round mem (EventData.tick when) = some (tick (round when))
seen round mem (EventData.region line name file begin end) =
    some (region line (hash_pointer name) (hash_pointer file) (round begin) (round end))
seen round mem (EventData.counter_set line name file when value) =
    some (counter_set line (hash_pointer name) (hash_pointer file) (round when) value)
seen round mem (EventData.string id size str) = some (string id size (read_memory mem str size))
seen round mem (EventData.counter_add name amount) = some (counter_add (hash_pointer name) amount)

pub encoding-cons :
    (mem : Memory) (ev : EventData) → (rest : List ℕ) × (encoding mem ev ≡ event_type ev ∷ rest)
unfolding encoding to_bytes event_type
encoding-cons mem EventData.none = (_, refl)
encoding-cons mem (EventData.header _ _) = (_, refl)
encoding-cons mem (EventData.tick _) = (_, refl)
encoding-cons mem (EventData.region _ _ _ _ _) = (_, refl)
encoding-cons mem (EventData.counter_set _ _ _ _ _) = (_, refl)
encoding-cons mem (EventData.string _ _ _) = (_, refl)
encoding-cons mem (EventData.counter_add _ _) = (_, refl)

module _ (round : ℕ → ℕ) (mem : Memory) (before post : List ℕ) where
  -- The `switch` of the reader, on the bytes of an event.
  read_event-encoding :
      (ev : EventData) {out : Event}
      → IsEvent ev
      → seen round mem ev ≡ some out
      → read_event round (before ++ (encoding mem ev ++ post)) (length before) (event_type ev)
        ≡ some (some (encode_size ev, out))
  unfolding seen encoding fields text event_type to_bytes read_event encode_size get_uint32
      get_float64 get_uint16
  read_event-encoding EventData.none h e = cc
  read_event-encoding (EventData.header frequency start) (hf, hs) e =
      rw
        (
          get_uint64_at round 1 before _ _ frequency refl hf,
          get_uint64_at round 9 before _ _ start refl hs,
        )
        (cc)
  read_event-encoding (EventData.tick when) h e =
      rw (get_uint64_at round 1 before _ _ when refl h) (cc)
  read_event-encoding (EventData.region line name file begin end) (hl, hb, he) e =
      rw
        (
          read_at 4 1 before _ _ line refl hl,
          read_at 4 5 before _ _ (hash_pointer name) refl (hash_pointer-lt name),
          read_at 4 9 before _ _ (hash_pointer file) refl (hash_pointer-lt file),
          get_uint64_at round 13 before _ _ begin refl hb,
          get_uint64_at round 21 before _ _ end refl he,
        )
        (cc)
  read_event-encoding (EventData.counter_set line name file when value) (hl, hw, hv) e =
      rw
        (
          read_at 4 1 before _ _ line refl hl,
          read_at 4 5 before _ _ (hash_pointer name) refl (hash_pointer-lt name),
          read_at 4 9 before _ _ (hash_pointer file) refl (hash_pointer-lt file),
          get_uint64_at round 13 before _ _ when refl hw,
          read_at 8 21 before _ _ value refl hv,
        )
        (cc)
  read_event-encoding (EventData.string id size str) (hi, hs) e =
      let head = to_bytes 1 5 ++ (to_bytes 4 id ++ to_bytes 2 size) in
      let letters : get_text (before ++ (encoding mem (EventData.string id size str) ++ post))
            (length before + 7) size
          ≡ some (read_memory mem str size) =
        get_text-read_memory mem size str (length before + 7) _ (before ++ head) post
          (sym (append_assoc before head _)) (sym (length-append before head)) in
      rw (read_at 4 1 before _ _ id refl hi, read_at 2 5 before _ _ size refl hs, letters) (cc)
  read_event-encoding (EventData.counter_add name amount) h e =
      rw
        (
          read_at 4 1 before _ _ (hash_pointer name) refl (hash_pointer-lt name),
          read_at 8 5 before _ _ amount refl h,
        )
        (cc)

  -- At the first byte of an encoded event of a type other than None, whose values fit their types,
  -- whatever stands before and behind it, the web tool's reader returns what it is to show of the
  -- event, and steps over the bytes of the event and no more.
  pub read-encoding :
      (ev : EventData) {out : Event}
      → IsEvent ev
      → seen round mem ev ≡ some out
      → (error : Option (ℕ × ℕ))
      → read round (record {
        view = before ++ (encoding mem ev ++ post);
        pos = length before;
        error = error;
      })
        ≡ some (
          some out,
          record {
            view = before ++ (encoding mem ev ++ post);
            pos = length before + encode_size ev;
            error = error;
          },
        )
  unfolding read get_uint8
  read-encoding ev {out} h e error =
      let (rest, head) = encoding-cons mem ev in
      let inside : leb (length (before ++ (encoding mem ev ++ post))) (length before) ≡ false =
        rw head (ground (arith, length-append before (event_type ev ∷ (rest ++ post)))) in
      let tag : get_elem? (before ++ (encoding mem ev ++ post)) (length before)
          ≡ some (event_type ev) =
        rw head (get_elem?-append before (event_type ev) (rest ++ post)) in
      rw (inside, tag, read_event-encoding ev h e)
