-- ===== src/Protocol/Encoding.antt =====
-- The bytes of an event as one list (src/Protocol.cpp), and what a run of checked writes does to a
-- buffer.
use yardstick.Base.{
  flatten, ℕ, zero, suc, ◌+◌, ◌^◌, ◌≤◌, ◌<◌, ◌≡◌, refl, sym, ap, ◌∙◌, List, [], ◌∷◌, ◌++◌,
  append-nil, append_assoc, length, length-append, drop, take-append_self, Bool-cases, drop-append,
  drop-drop, length-drop, ◌%◌, arith, true, false, leb, ltb, inl, inr,
}
use yardstick.Base.Words.{sub_u64, to_bytes}
use yardstick.PointerHash.{hash_pointer}
use yardstick.Protocol.{
  Memory, read_memory, EventData, event_type, Output, Run, running, returned, overrun, ◌>>◌, copy,
  try_write, encode_size,
}
use yardstick.Api.{YsResult, no_memory}

-- The values that are written through `TRY_WRITE`, each as its bytes.
unfoldable pub fields : EventData → List (List ℕ)
fields EventData.none = []
fields (EventData.header frequency start) = to_bytes 8 frequency ∷ to_bytes 8 start ∷ []
fields (EventData.tick when) = to_bytes 8 when ∷ []
fields (EventData.region line name file begin end) =
    to_bytes 4 line
    ∷ to_bytes 4 (hash_pointer name)
    ∷ to_bytes 4 (hash_pointer file)
    ∷ to_bytes 8 begin
    ∷ to_bytes 8 end
    ∷ []
fields (EventData.counter_set line name file when value) =
    to_bytes 4 line
    ∷ to_bytes 4 (hash_pointer name)
    ∷ to_bytes 4 (hash_pointer file)
    ∷ to_bytes 8 when
    ∷ to_bytes 8 value
    ∷ []
fields (EventData.string id size str) = to_bytes 4 id ∷ to_bytes 2 size ∷ []
fields (EventData.counter_add name amount) = to_bytes 4 (hash_pointer name) ∷ to_bytes 8 amount ∷ []

-- What follows the fields unchecked: the text of a string.
unfoldable pub text : Memory → EventData → List ℕ
text mem (EventData.string id size str) = read_memory mem str size
text mem _ = []

-- The bytes that stand for an event: its tag, its fields, its text.
unfoldable pub encoding : Memory → EventData → List ℕ
encoding mem ev = flatten (to_bytes 1 (event_type ev) ∷ fields ev) ++ text mem ev

-- The bytes of several events, one behind the other.
abbrev pub encodings : Memory → List EventData → List ℕ
encodings mem [] = []
encodings mem (ev ∷ evs) = encoding mem ev ++ encodings mem evs

pub encodings-append :
    (mem : Memory) (a b : List EventData)
    → encodings mem (a ++ b) ≡ encodings mem a ++ encodings mem b
encodings-append mem [] b = refl
encodings-append mem (ev ∷ a) b =
    ap (λ l. encoding mem ev ++ l) (encodings-append mem a b)
    ∙ sym (append_assoc (encoding mem ev) (encodings mem a) (encodings mem b))

pub length-read_memory : (mem : Memory) (ptr size : ℕ) → length (read_memory mem ptr size) ≡ size
unfolding read_memory
length-read_memory mem ptr zero = refl
length-read_memory mem ptr (suc size) = ap suc (length-read_memory mem (ptr + 1) size)

-- The size that `EncodeSize` computes is the number of bytes, split into checked and unchecked.
pub length-flatten-fields :
    (mem : Memory) (ev : EventData)
    → length (flatten (to_bytes 1 (event_type ev) ∷ fields ev)) + length (text mem ev)
      ≡ encode_size ev
unfolding fields text to_bytes encode_size
length-flatten-fields mem EventData.none = refl
length-flatten-fields mem (EventData.header _ _) = refl
length-flatten-fields mem (EventData.tick _) = refl
length-flatten-fields mem (EventData.region _ _ _ _ _) = refl
length-flatten-fields mem (EventData.counter_set _ _ _ _ _) = refl
length-flatten-fields mem (EventData.string id size str) =
    ap (λ n. 7 + n) (length-read_memory mem str size)
length-flatten-fields mem (EventData.counter_add _ _) = refl

pub length-encoding : (mem : Memory) (ev : EventData) → length (encoding mem ev) ≡ encode_size ev
unfolding encoding
length-encoding mem ev = length-append _ (text mem ev) ∙ length-flatten-fields mem ev

-- The buffer with `done` written over its first bytes.
abbrev pub written : List ℕ → List ℕ → Output
written done buffer = record {
  buffer = done ++ drop (length done) buffer;
  out_length = length done;
}

-- `TRY_WRITE` of each value in turn.
unfoldable pub write_fields : ℕ → List (List ℕ) → Output → Run
write_fields available [] = running
write_fields available (f ∷ fs) = try_write available f >> write_fields available fs

pub >>-of_running :
    (m k : Output → Run) (o : Output) {o' : Output} → m o ≡ running o' → (m >> k) o ≡ k o'
>>-of_running m k o e =
    ap (λ r. elim r [ running o' ↦ k o' | returned r o' ↦ returned r o' | overrun ↦ overrun ]) e

pub >>-of_returned :
    (m k : Output → Run) (o : Output) {r : YsResult} {o' : Output}
    → m o ≡ returned r o'
    → (m >> k) o ≡ returned r o'
>>-of_returned m k o e =
    ap (λ r. elim r [ running o' ↦ k o' | returned r o' ↦ returned r o' | overrun ↦ overrun ]) e

pub copy_lem :
    (buffer done bytes : List ℕ)
    → length done + length bytes ≤ length buffer
    → length buffer < 2 ^ 64
    → copy bytes (written done buffer) ≡ running (written (done ++ bytes) buffer)
unfolding copy
copy_lem buffer done bytes fits small =
    rw (room, wide, take-append_self done (drop (length done) buffer), rest, append_assoc)
      (ap running (λ i. record {
        buffer = done ++ (bytes ++ drop (sym (length-append done bytes) i) buffer);
        out_length = sym (length-append done bytes) i;
      }))
  where
    room : leb (length done + length bytes) (length (done ++ drop (length done) buffer)) ≡ true
    room =
        ground
          (arith, length-append done (drop (length done) buffer), length-drop (length done) buffer)

    wide : (length done + length bytes) % 2 ^ 64 ≡ length done + length bytes
    wide = omega arith

    rest :
        drop (length done + length bytes) (done ++ drop (length done) buffer)
        ≡ drop (length done + length bytes) buffer
    rest =
        drop-append done (drop (length done) buffer) (length bytes)
        ∙ drop-drop (length bytes) (length done) buffer

pub try_write_lem :
    (buffer done value : List ℕ) (available : ℕ)
    → length done + length value ≤ available
    → available ≤ length buffer
    → length buffer < 2 ^ 64
    → try_write available value (written done buffer) ≡ running (written (done ++ value) buffer)
unfolding try_write
try_write_lem buffer done value available fits room small =
    rw enough (copy_lem buffer done value (omega arith) small)
  where
    enough : ltb (sub_u64 available (length done)) (length value) ≡ false
    enough = ground arith

pub try_write-no_memory :
    (buffer done value : List ℕ) (available : ℕ)
    → length done ≤ available
    → available < length done + length value
    → available < 2 ^ 64
    → try_write available value (written done buffer) ≡ returned no_memory (written done buffer)
unfolding try_write
try_write-no_memory buffer done value available start long small = rw short
  where
    short : ltb (sub_u64 available (length done)) (length value) ≡ true
    short = ground arith

-- All values are written if they fit.
pub write_fields_lem :
    (fs : List (List ℕ)) (buffer done : List ℕ) (available : ℕ)
    → length done + length (flatten fs) ≤ available
    → available ≤ length buffer
    → length buffer < 2 ^ 64
    → write_fields available fs (written done buffer)
      ≡ running (written (done ++ flatten fs) buffer)
unfolding write_fields
write_fields_lem [] buffer done available fits room small =
    ap (λ d. running (written d buffer)) (sym (append-nil done))
write_fields_lem (f ∷ fs) buffer done available fits room small =
    let split : length (f ++ flatten fs) ≡ length f + length (flatten fs) =
      length-append f (flatten fs) in
    let joined : length (done ++ f) ≡ length done + length f = length-append done f in
    >>-of_running (try_write available f) (write_fields available fs) (written done buffer)
      (try_write_lem buffer done f available (omega arith) room small)
    ∙ write_fields_lem fs buffer (done ++ f) available (omega arith) room small
    ∙ ap (λ d. running (written d buffer)) (append_assoc done f (flatten fs))

-- If they do not fit, the writer stops inside the buffer with `NoMemory`.
pub write_fields-no_memory :
    (fs : List (List ℕ)) (buffer done : List ℕ) (available : ℕ)
    → length done ≤ available
    → available < length done + length (flatten fs)
    → available ≤ length buffer
    → length buffer < 2 ^ 64
    → (stop : List ℕ) × (length stop ≤ available)
      × (write_fields available fs (written done buffer) ≡ returned no_memory (written stop buffer))
unfolding write_fields
write_fields-no_memory [] buffer done available start long room small = absurd (omega arith)
write_fields-no_memory (f ∷ fs) buffer done available start long room small =
    let split : length (f ++ flatten fs) ≡ length f + length (flatten fs) =
      length-append f (flatten fs) in
    let joined : length (done ++ f) ≡ length done + length f = length-append done f in
    elim (Bool-cases (ltb available (length done + length f))) [
      | inl short ↦ (
        done,
        start,
        >>-of_returned (try_write available f) (write_fields available fs) (written done buffer)
            (try_write-no_memory buffer done f available start (ground arith) (omega arith)),
      )
      | inr fits ↦
          let (stop, inside, e) =
            write_fields-no_memory fs buffer (done ++ f) available (ground arith) (omega arith) room
              small in
          (
            stop,
            inside,
            >>-of_running (try_write available f) (write_fields available fs) (written done buffer)
                  (try_write_lem buffer done f available (ground arith) room small)
                ∙ e,
          )
    ]
