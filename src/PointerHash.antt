-- ===== src/PointerHash.antt =====
-- src/PointerHash.h: the hash that stands for a string's address on the wire.
-- A left shift and a sum wrap at the word's width, `~key` is the complement.
pub mod Forms
use Prim.Native.Nat.{bit_xor}
use yardstick.Base.{ℕ, ◌+◌, ◌-◌, ◌*◌, ◌/◌, ◌^◌, ◌==◌, if◌then◌else◌, Option, none, some}
use yardstick.Base.Words.{u32, u64}

-- `_hash_pointer_impl<4>::hash`
pub hash32 : ℕ → ℕ
hash32 key0 =
    let key1 = u32 (2 ^ 32 - 1 - key0 + u32 (key0 * 2 ^ 15)) in
    let key2 = bit_xor key1 (key1 / 2 ^ 12) in
    let key3 = u32 (key2 + u32 (key2 * 2 ^ 2)) in
    let key4 = bit_xor key3 (key3 / 2 ^ 4) in
    let key5 = u32 (key4 * 2057) in bit_xor key5 (key5 / 2 ^ 16)

-- `_hash_pointer_impl<8>::hash`
pub hash64 : ℕ → ℕ
hash64 key0 =
    let key1 = u64 (2 ^ 64 - 1 - key0 + u64 (key0 * 2 ^ 18)) in
    let key2 = bit_xor key1 (key1 / 2 ^ 31) in
    let key3 = u64 (key2 * 21) in
    let key4 = bit_xor key3 (key3 / 2 ^ 11) in
    let key5 = u64 (key4 + u64 (key4 * 2 ^ 6)) in u32 (bit_xor key5 (key5 / 2 ^ 22))

-- `_hash_pointer_impl` at a size of pointers: there is one for 4 bytes and one for 8, and a program
-- with another does not compile.
unfoldable pub hash_pointer_impl : (pointer_size : ℕ) → Option (ℕ → ℕ)
unfolding hash32 hash64
hash_pointer_impl pointer_size =
    if pointer_size == 4 then some hash32 else if pointer_size == 8 then some hash64 else none

-- `hash_pointer` where `sizeof(ptr)` is 8.
unfoldable pub hash_pointer : ℕ → ℕ
unfolding hash64
hash_pointer ptr = hash64 ptr
