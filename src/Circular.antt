-- ===== src/Circular.antt =====
-- src/ConcurrentCircularBuffer.h: the ring of bytes, at its default size of 1024, as one reader and
-- one writer use it one after another.
-- An array is a list. `TryWrite` and `Read` return it with what they answer; `Read` also returns the
-- bytes that it copies out.
pub mod Bytes
pub mod Refine
pub mod Reading
use Prim.Native.Nat.{bit_and}
use yardstick.Base.{
  ℕ, ◌+◌, ◌-◌, ◌^◌, ltb, if◌then◌else◌, Bool, true, false, List, [], ◌∷◌, ◌++◌, length, take, drop,
  replicate,
}
use yardstick.Base.Words.{u32, sub_u32}

abbrev pub ring_size : ℕ
ring_size = 1024

abbrev pub ring_mask : ℕ
ring_mask = ring_size - 1

pub record Circular : Type 0 where
  pub write : ℕ
  pub read : ℕ
  pub buffer : List ℕ

-- `std::memcpy(_buffer + at, bytes, …)`
unfoldable pub copy_in : ℕ → List ℕ → List ℕ → List ℕ
copy_in at bytes buffer = take at buffer ++ (bytes ++ drop (at + length bytes) buffer)

-- The constructor, over what the buffer's memory holds.
unfoldable pub empty_circular : List ℕ → Circular
empty_circular memory = record { write = 0; read = 0; buffer = memory }

-- `TryWrite` of the bytes of `data`, here `bytes`, whose number is a uint32.
unfoldable pub try_write_bytes : List ℕ → Circular → Bool × Circular
try_write_bytes bytes c =
    let size : ℕ = length bytes in
    let tail : ℕ = c.read in
    let head : ℕ = c.write in
    let used : ℕ = bit_and (sub_u32 head tail) ring_mask in
    let available : ℕ = sub_u32 ring_size used in
    let space : ℕ = sub_u32 ring_size head in
    let count : ℕ = if ltb size space then size else space in
    if ltb size available
    then (
      true,
      record c {
        buffer = copy_in 0 (drop count bytes) (copy_in head (take count bytes) c.buffer);
        write = bit_and (u32 (head + size)) ring_mask;
      },
    )
    else (false, c)

-- `Read` of up to `size` bytes.
unfoldable pub read_bytes : ℕ → Circular → List ℕ × Circular
read_bytes size c =
    let tail : ℕ = c.write in
    let head : ℕ = c.read in
    let available : ℕ = bit_and (sub_u32 tail head) ring_mask in
    let amount : ℕ = if ltb size available then size else available in
    let space : ℕ = sub_u32 ring_size head in
    let count : ℕ = if ltb space amount then space else amount in
    if ltb 0 available
    then (
      take count (drop head c.buffer) ++ take (amount - count) c.buffer,
      record c { read = bit_and (u32 (head + amount)) ring_mask },
    )
    else ([], c)
