-- ===== src/PointerHash/Forms.antt =====
-- The shift forms that the comments beside the hash give for its sums and products.
use Prim.Native.Nat.{bit_xor}
use yardstick.Base.{ℕ, ◌+◌, ◌-◌, ◌*◌, ◌/◌, ◌^◌, ◌<◌, ◌≡◌, arith}
use yardstick.Base.Words.{u32, u64, sub_u64}
use yardstick.Api.{IsStringHandle}
use yardstick.PointerHash.{hash64, hash_pointer}

pub hash_pointer-lt : (ptr : ℕ) → IsStringHandle (hash_pointer ptr)
unfolding hash_pointer
hash_pointer-lt ptr = omega arith

-- `(key << 18) - key - 1`, each operation on a uint64.
first64 : ℕ → ℕ
first64 key = sub_u64 (sub_u64 (u64 (key * 2 ^ 18)) key) 1

-- `(key + (key << 2)) + (key << 4)`
times21 : ℕ → ℕ
times21 key = u64 (u64 (key + u64 (key * 2 ^ 2)) + u64 (key * 2 ^ 4))

pub hash64_shifts : ℕ → ℕ
unfolding first64 times21
hash64_shifts key0 =
    let key1 = first64 key0 in
    let key2 = bit_xor key1 (key1 / 2 ^ 31) in
    let key3 = times21 key2 in
    let key4 = bit_xor key3 (key3 / 2 ^ 11) in
    let key5 = u64 (key4 + u64 (key4 * 2 ^ 6)) in u32 (bit_xor key5 (key5 / 2 ^ 22))

first64-eq : (key : ℕ) → key < 2 ^ 64 → u64 (2 ^ 64 - 1 - key + u64 (key * 2 ^ 18)) ≡ first64 key
unfolding first64
first64-eq key h = omega arith

times21-eq : (key : ℕ) → u64 (key * 21) ≡ times21 key
unfolding times21
times21-eq key = omega arith

-- On a 64-bit key the hash of PointerHash.h gives what the shift forms in its comments give, each
-- operation wrapped at 64 bits.
pub hash64-eq-shifts : (key : ℕ) → key < 2 ^ 64 → hash64 key ≡ hash64_shifts key
unfolding hash64 hash64_shifts
hash64-eq-shifts key h = rw (first64-eq key h, times21-eq)
