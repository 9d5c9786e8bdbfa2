-- ===== src/Session.antt =====
-- src/WebsocketSink.cpp: the outgoing side of one session, that is `WriteSessionString`,
-- `WriteSessionEvent` and `FlushSession`.
-- The calls of the web server's library that a session makes are kept, in order, as a trace.
pub mod Wire
pub mod Valid
pub mod Flushing
pub mod Writing
pub mod Strings
pub mod Events
pub mod Collisions
pub mod Naming
pub mod Hearing
use Prim.Native.Nat.{bit_and, bit_or}
use yardstick.Base.{
  ℕ, ◌+◌, ◌-◌, ◌*◌, ◌/◌, ◌%◌, ◌^◌, ◌==◌, leb, ltb, if◌then◌else◌, List, [], ◌∷◌, ◌++◌, take, drop,
  get_or, set, some,
}
use yardstick.Base.Words.{u16, u64, sub_u64, to_bytes}
use yardstick.Api.{YsResult, success}
use yardstick.PointerHash.{hash_pointer}
use yardstick.Protocol.{
  Memory, read_memory, EventData, Run, running, returned, overrun, encode_event, encode_size,
}

-- `Session::kBufSize`, `kTableSize` and `kTableBitMask`
abbrev pub buf_size : ℕ
buf_size = 4096

abbrev pub table_size : ℕ
table_size = 4096

abbrev pub table_bit_mask : ℕ
table_bit_mask = table_size * 8 - 1

-- The calls on the session's connection: `WebbyBeginSocketFrame` with
-- `WEBBY_WS_OP_BINARY_FRAME`, `WebbyWrite`, `WebbyPrintf`, `WebbyEndSocketFrame`.
pub data Call : Type 0 where
  begin_socket_frame : Call
  write : List ℕ → Call
  printf : List ℕ → Call
  end_socket_frame : Call

-- The fields of `Session` that writing uses, and the calls made so far.
pub record Session : Type 0 where
  pub connection : ℕ
  pub bufpos : ℕ
  pub buffer : List ℕ
  pub table : List ℕ
  pub calls : List Call

-- The session afterwards and the code returned, or a write outside the buffer.
pub data Outcome : Type 0 where
  finished : YsResult → Session → Outcome
  crashed : Outcome

-- `YS_TRY`
infixl 5 ◌>>◌
abbrev pub ◌>>◌ : (Session → Outcome) → (Session → Outcome) → Session → Outcome
◌>>◌ m k s = elim (m s) [
  | finished success s' ↦ k s'
  | finished r s' ↦ finished r s'
  | crashed ↦ crashed
]

abbrev pub return : YsResult → Session → Outcome
return r s = finished r s

unfoldable pub flush_session : Session → Outcome
flush_session s =
    if s.bufpos == 0
    then finished success s
    else finished success (record s {
      bufpos = 0;
      calls =
          s.calls ++ (begin_socket_frame ∷ write (take s.bufpos s.buffer) ∷ end_socket_frame ∷ []);
    })

-- `EncodeEvent` at `_buffer + _bufpos`, and `_bufpos += written` where it succeeds.
unfoldable pub encode_into : Memory → EventData → Session → Outcome
encode_into mem ev s =
    elim (encode_event mem (some (drop s.bufpos s.buffer)) (sub_u64 buf_size s.bufpos) ev) [
      | returned success o ↦ finished success (record s {
        buffer = take s.bufpos s.buffer ++ o.buffer;
        bufpos = u64 (s.bufpos + o.out_length);
      })
      | returned r o ↦ finished r (record s { buffer = take s.bufpos s.buffer ++ o.buffer })
      | running o ↦ crashed
      | overrun ↦ crashed
    ]

-- `if (size > kBufSize - _bufpos) YS_TRY(FlushSession(session))`
unfoldable pub make_room : ℕ → Session → Outcome
make_room size s =
    if ltb (sub_u64 buf_size s.bufpos) size then flush_session s else finished success s

-- A string that no buffer holds, in a frame of its own.
unfoldable pub send_string : Memory → (handle size str : ℕ) → Session → Outcome
send_string mem handle size str s = finished success (record s {
  calls =
      s.calls
      ++ (begin_socket_frame
          ∷ printf (5 ∷ [])
          ∷ write (to_bytes 4 handle)
          ∷ write (to_bytes 2 size)
          ∷ write (read_memory mem str size)
          ∷ end_socket_frame
          ∷ []);
})

-- `index >> 3` and `1 << (index & 5)`, for the low bits `index` of the handle.
abbrev pub byte_index : ℕ → ℕ
byte_index handle = bit_and handle table_bit_mask / 2 ^ 3

abbrev pub bit_mask : ℕ → ℕ
bit_mask handle = 2 ^ bit_and (bit_and handle table_bit_mask) 5

-- `byte |= bitMask` on an unsigned char of the table.
unfoldable pub mark_string : ℕ → Session → Outcome
mark_string handle s = finished success (record s {
  table =
      set s.table (byte_index handle)
        (bit_or (get_or s.table (byte_index handle) 0) (bit_mask handle) % 256);
})

-- The event that introduces a string.
abbrev pub string_event : Memory → ℕ → EventData
string_event mem str = EventData.string (hash_pointer str) (u16 (mem.strlen str)) str

-- Into the buffer if the string fits what is free there now, and else straight out.
unfoldable pub put_string : Memory → ℕ → Session → Outcome
put_string mem str s =
    if leb (encode_size (string_event mem str)) (sub_u64 buf_size s.bufpos)
    then encode_into mem (string_event mem str) s
    else send_string mem (hash_pointer str) (u16 (mem.strlen str)) str s

unfoldable pub write_session_string : Memory → ℕ → Session → Outcome
write_session_string mem str s =
    if bit_and (get_or s.table (byte_index (hash_pointer str)) 0) (bit_mask (hash_pointer str)) == 0
    then (make_room (encode_size (string_event mem str))
          >> put_string mem str
          >> mark_string (hash_pointer str))
        s
    else finished success s

-- The `switch` of `WriteSessionEvent`: the strings that an event mentions go first.
unfoldable pub write_strings : Memory → EventData → Session → Outcome
write_strings mem (EventData.region line name file begin end) =
    write_session_string mem name >> write_session_string mem file
write_strings mem (EventData.counter_set line name file when value) =
    write_session_string mem name >> write_session_string mem file
write_strings mem (EventData.counter_add name amount) = write_session_string mem name
write_strings mem ev = return success

unfoldable pub write_session_event : Memory → EventData → Session → Outcome
write_session_event mem ev =
    write_strings mem ev >> (make_room (encode_size ev) >> encode_into mem ev)
