-- ===== src/Protocol/Bounds.antt =====
-- `EncodeEvent` on every event and every size of buffer (src/Protocol.cpp).
use mathlib.Core.Path.{fun_ext}
use mathlib.Core.Option
use yardstick.Base.{
  flatten, ℕ, ◌+◌, ◌^◌, ◌≤◌, ◌<◌, ◌≡◌, sym, ap, ◌∙◌, List, [], ◌∷◌, ◌++◌, append-nil, length,
  length-append, length-drop, drop, arith,
}
use yardstick.Base.Words.{to_bytes}
use yardstick.Protocol.{
  Memory, EventData, event_type, Output, Run, running, returned, overrun, ◌>>◌, copy, try_write,
  return, encode_body, encode_event, encode_size,
}
use yardstick.Protocol.Encoding.{
  fields, text, encoding, written, write_fields, write_fields_lem, copy_lem, length-flatten-fields,
  write_fields-no_memory, length-encoding, >>-of_running, >>-of_returned, length-read_memory,
}
use yardstick.Api.{success, no_memory}

>>-running : (m : Output → Run) → (m >> running) ≡ m
>>-running m = fun_ext λ o. ground arith

>>-of_overrun : (m k : Output → Run) (o : Output) → m o ≡ overrun → (m >> k) o ≡ overrun
>>-of_overrun m k o e = ground arith

copy-overrun :
    (o : Output) (bytes : List ℕ)
    → length o.buffer < o.out_length + length bytes
    → copy bytes o ≡ overrun
unfolding copy
copy-overrun o bytes h = ground arith

text_last :
    (a b c d e : Output → Run) (o : Output)
    → (a >> (b >> (c >> d)) >> e) o ≡ (a >> (b >> (c >> running)) >> (d >> e)) o
text_last a b c d e o = ground arith

abbrev write_text : Memory → EventData → Output → Run
write_text mem (EventData.string id size str) = copy (text mem (EventData.string id size str))
write_text mem _ = running

-- What is written checked.
abbrev values : EventData → List ℕ
values ev = flatten (to_bytes 1 (event_type ev) ∷ fields ev)

-- The encoder writes its tag and its fields checked, and the text of a string unchecked.
encode_event-fields :
    (mem : Memory) (buffer : List ℕ) (available : ℕ) (ev : EventData)
    → encode_event mem (Option.some buffer) available ev
      ≡ (write_fields available (to_bytes 1 (event_type ev) ∷ fields ev)
            >> (write_text mem ev >> return success))
          (written [] buffer)
unfolding encode_event encode_body write_fields fields text event_type
encode_event-fields mem buffer available EventData.none = simp >>-running
encode_event-fields mem buffer available (EventData.header a b) = simp >>-running
encode_event-fields mem buffer available (EventData.tick a) = simp >>-running
encode_event-fields mem buffer available (EventData.region a b c d e) = simp >>-running
encode_event-fields mem buffer available (EventData.counter_set a b c d e) = simp >>-running
encode_event-fields mem buffer available (EventData.string a b c) =
    text_last (try_write available (to_bytes 1 5)) (try_write available (to_bytes 4 a))
      (try_write available (to_bytes 2 b)) _ (return success) (written [] buffer)
encode_event-fields mem buffer available (EventData.counter_add a b) = simp >>-running

write_text_lem :
    (mem : Memory) (ev : EventData) (buffer done : List ℕ)
    → length done + length (text mem ev) ≤ length buffer
    → length buffer < 2 ^ 64
    → write_text mem ev (written done buffer) ≡ running (written (done ++ text mem ev) buffer)
unfolding text
write_text_lem mem (EventData.string id size str) buffer done fits small =
    copy_lem buffer done (text mem (EventData.string id size str)) fits small
write_text_lem mem ev buffer done fits small =
    ap (λ d. running (written d buffer)) (sym (append-nil done))

-- EncodeEvent of an event whose EncodeSize fits the space given, which lies inside a buffer of less
-- than 2^64 bytes, returns Success; it writes the event's encoding over the first bytes of the
-- buffer, leaves the others as they are, and reports EncodeSize as the length.
pub encode_event-success :
    (mem : Memory) (buffer : List ℕ) (available : ℕ) (ev : EventData)
    → encode_size ev ≤ available
    → available ≤ length buffer
    → length buffer < 2 ^ 64
    → encode_event mem (Option.some buffer) available ev
      ≡ returned success (record {
        buffer = encoding mem ev ++ drop (encode_size ev) buffer;
        out_length = encode_size ev;
      })
unfolding encoding
encode_event-success mem buffer available ev fits room small =
    let parts : length (values ev) + length (text mem ev) ≡ encode_size ev =
      length-flatten-fields mem ev in
    encode_event-fields mem buffer available ev
    ∙ >>-of_running (write_fields available _) (write_text mem ev >> return success)
        (written [] buffer) (write_fields_lem _ buffer [] available (omega arith) room small)
    ∙ >>-of_running (write_text mem ev) (return success) (written (values ev) buffer)
        (write_text_lem mem ev buffer (values ev) (omega arith) small)
    ∙ λ i. returned success (record {
      buffer = encoding mem ev ++ drop (length-encoding mem ev i) buffer;
      out_length = length-encoding mem ev i;
    })

-- EncodeEvent of an event with no text that does not fit the space given, which lies inside a
-- buffer of less than 2^64 bytes, returns NoMemory, and what it wrote before lies inside that
-- space.
pub encode_event-no_memory :
    (mem : Memory) (buffer : List ℕ) (available : ℕ) (ev : EventData)
    → text mem ev ≡ []
    → available < encode_size ev
    → available ≤ length buffer
    → length buffer < 2 ^ 64
    → (stop : List ℕ) × (length stop ≤ available)
      × (encode_event mem (Option.some buffer) available ev
          ≡ returned no_memory (written stop buffer))
encode_event-no_memory mem buffer available ev plain long room small =
    let parts : length (values ev) + length (text mem ev) ≡ encode_size ev =
      length-flatten-fields mem ev in
    let silent : length (text mem ev) ≡ 0 = ap length plain in
    let (stop, inside, e) =
      write_fields-no_memory (to_bytes 1 (event_type ev) ∷ fields ev) buffer [] available
        (omega arith) (omega arith) room small in
    (
      stop,
      inside,
      encode_event-fields mem buffer available ev
          ∙ >>-of_returned (write_fields available _) (write_text mem ev >> return success)
              (written [] buffer) e,
    )

-- EncodeEvent of a string whose seven bytes of head fit the space given, inside an object of less
-- than 2^64 bytes, and which as a whole does not fit that object, writes past the end of the
-- object.
pub encode_event-overrun :
    (mem : Memory) (buffer : List ℕ) (available id size str : ℕ)
    → 7 ≤ available
    → available ≤ length buffer
    → length buffer < 7 + size
    → length buffer < 2 ^ 64
    → encode_event mem (Option.some buffer) available (EventData.string id size str) ≡ overrun
unfolding text encode_size
encode_event-overrun mem buffer available id size str head room long small =
    let ev = EventData.string id size str in
    let parts : length (values ev) + length (text mem ev) ≡ 7 + size =
      length-flatten-fields mem ev in
    let body : length (text mem ev) ≡ size = length-read_memory mem str size in
    encode_event-fields mem buffer available ev
    ∙ >>-of_running (write_fields available _) (write_text mem ev >> return success)
        (written [] buffer) (write_fields_lem _ buffer [] available (omega arith) room small)
    ∙ >>-of_overrun (write_text mem ev) (return success) (written (values ev) buffer) (
        copy-overrun (written (values ev) buffer) (text mem ev) (
          omega (
            arith,
            length-append (values ev) (drop (length (values ev)) buffer),
            length-drop (length (values ev)) buffer,
          )))
