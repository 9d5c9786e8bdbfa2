-- ===== src/Protocol.antt =====
-- src/Protocol.h and src/Protocol.cpp: an event, and the bytes that it is written as.
pub mod Encoding
pub mod Bounds
pub mod Reading
pub mod Contract
use yardstick.Base.{
  ℕ, zero, suc, ◌+◌, ◌^◌, ◌<◌, Option, List, [], ◌∷◌, ◌++◌, length, take, drop, leb, ltb,
  if◌then◌else◌,
}
use yardstick.Base.Words.{u64, sub_u64, to_bytes}
use yardstick.Api.{YsResult, success, invalid_parameter, no_memory}
use yardstick.PointerHash.{hash_pointer}

-- What the encoder reads of the process's memory: the byte at an address, and the C library's
-- `strlen` of a string at an address.
pub record Memory : Type 0 where
  pub byte : ℕ → ℕ
  pub strlen : ℕ → ℕ

-- `size` bytes from an address on, as `memcpy` reads them.
unfoldable pub read_memory : Memory → ℕ → ℕ → List ℕ
read_memory mem ptr zero = []
read_memory mem ptr (suc size) = mem.byte ptr ∷ read_memory mem (ptr + 1) size

-- `EventData`: the tag and its member of the union. The struct that the encoder calls `counter_set`
-- belongs to a region, and `record` to a counter that is set. A pointer is its address, a double
-- its 64 bits, which the encoder only copies.
pub data EventData : Type 0 where
  none : EventData
  header : (frequency start : ℕ) → EventData
  tick : (when : ℕ) → EventData
  region : (line name file begin end : ℕ) → EventData
  counter_set : (line name file when value : ℕ) → EventData
  string : (id size str : ℕ) → EventData
  counter_add : (name amount : ℕ) → EventData

-- `EventType`
unfoldable pub event_type : EventData → ℕ
event_type none = 0
event_type (header _ _) = 1
event_type (tick _) = 2
event_type (region _ _ _ _ _) = 3
event_type (counter_set _ _ _ _ _) = 4
event_type (string _ _ _) = 5
event_type (counter_add _ _) = 6

-- The object that `out_buffer` points into, from there to its end, and `out_length`.
pub record Output : Type 0 where
  pub buffer : List ℕ
  pub out_length : ℕ

-- A run of the encoder: it goes on, it has returned, or it has written past the end of the object.
pub data Run : Type 0 where
  running : Output → Run
  returned : YsResult → Output → Run
  overrun : Run

infixl 5 ◌>>◌
abbrev pub ◌>>◌ : (Output → Run) → (Output → Run) → Output → Run
◌>>◌ m k o = elim (m o) [ running o' ↦ k o' | returned r o' ↦ returned r o' | overrun ↦ overrun ]

-- `std::memcpy(buffer + out_length, …)` and `out_length += …`
unfoldable pub copy : List ℕ → Output → Run
copy bytes o =
    if leb (o.out_length + length bytes) (length o.buffer)
    then running (record {
      buffer = take o.out_length o.buffer ++ (bytes ++ drop (o.out_length + length bytes) o.buffer);
      out_length = u64 (o.out_length + length bytes);
    })
    else overrun

-- `TRY_WRITE`, with `write`: the value is the list of its bytes in memory.
unfoldable pub try_write : ℕ → List ℕ → Output → Run
try_write available value o =
    if ltb (sub_u64 available o.out_length) (length value)
    then returned no_memory o
    else copy value o

-- `TRY_READ`, with `read` of a value of `size` bytes: the bytes of the value, and `inout_read`
-- afterwards; `none` where it returns false. Bytes behind the end of the object are not there.
unfoldable pub read_value : (size : ℕ) → List ℕ → (available inout_read : ℕ) → Option (List ℕ × ℕ)
read_value size buffer available inout_read =
    if ltb (sub_u64 available inout_read) size
    then Option.none
    else Option.some (take size (drop inout_read buffer), u64 (inout_read + size))

abbrev pub return : YsResult → Output → Run
return r o = returned r o

-- The `switch` of `EncodeEvent`.
unfoldable pub encode_body : Memory → ℕ → EventData → Output → Run
encode_body mem available none = running
encode_body mem available (header frequency start) = do
  try_write available (to_bytes 8 frequency)
  try_write available (to_bytes 8 start)
encode_body mem available (tick when) = try_write available (to_bytes 8 when)
encode_body mem available (region line name file begin end) = do
  try_write available (to_bytes 4 line)
  try_write available (to_bytes 4 (hash_pointer name))
  try_write available (to_bytes 4 (hash_pointer file))
  try_write available (to_bytes 8 begin)
  try_write available (to_bytes 8 end)
encode_body mem available (counter_set line name file when value) = do
  try_write available (to_bytes 4 line)
  try_write available (to_bytes 4 (hash_pointer name))
  try_write available (to_bytes 4 (hash_pointer file))
  try_write available (to_bytes 8 when)
  try_write available (to_bytes 8 value)
encode_body mem available (string id size str) = do
  try_write available (to_bytes 4 id)
  try_write available (to_bytes 2 size)
  copy (read_memory mem str size)
encode_body mem available (counter_add name amount) = do
  try_write available (to_bytes 4 (hash_pointer name))
  try_write available (to_bytes 8 amount)

-- `EncodeEvent`. A buffer of `none` is the null pointer.
unfoldable pub encode_event : Memory → Option (List ℕ) → ℕ → EventData → Run
encode_event mem Option.none available ev =
    returned invalid_parameter (record { buffer = []; out_length = 0 })
encode_event mem (Option.some buffer) available ev =
    (try_write available (to_bytes 1 (event_type ev))
        >> encode_body mem available ev
        >> return success)
      (record { buffer = buffer; out_length = 0 })

-- `EncodeSize`
unfoldable pub encode_size : EventData → ℕ
encode_size none = 1
encode_size (header _ _) = 1 + 8 + 8
encode_size (tick _) = 1 + 8
encode_size (region _ _ _ _ _) = 1 + 4 + 4 + 4 + 8 + 8
encode_size (counter_set _ _ _ _ _) = 1 + 4 + 4 + 4 + 8 + 8
encode_size (string _ size _) = 1 + 4 + 2 + size
encode_size (counter_add _ _) = 1 + 4 + 8
