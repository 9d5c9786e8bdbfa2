-- ===== src/Atomics/Sharing.antt =====
-- src/Atomics.h: no two elements of an array share a line of the cache.
use yardstick.Base.{ℕ, ◌+◌, ◌*◌, ◌<◌, ◌≤◌, ◌≡◌, ◌≢◌, sym, ◌∙◌, arith}
use yardstick.Atomics.{cacheline_size, padding, aligned_size, element_address, cacheline}

-- The last of the `static_assert`s, for every atomic that is smaller than a line.
aligned_size-small :
    (atomic_size : ℕ) → atomic_size ≤ cacheline_size → aligned_size atomic_size ≡ cacheline_size
unfolding aligned_size padding
aligned_size-small atomic_size h = omega arith

cacheline-element :
    (line atomic_size i a : ℕ)
    → atomic_size ≤ cacheline_size
    → a < cacheline_size
    → cacheline (element_address (line * cacheline_size) atomic_size i + a) ≡ line + i
unfolding cacheline element_address
cacheline-element line atomic_size i a h in_line =
    let e = aligned_size-small atomic_size h in rw e (omega arith)

-- In an array of AlignedAtomic of an atomic of at most 64 bytes, which begins at the start of a
-- line of the cache, no byte of one element lies in the line of a byte of another.
pub element_address-apart :
    (line atomic_size i j a b : ℕ)
    → atomic_size ≤ cacheline_size
    → a < cacheline_size
    → b < cacheline_size
    → i ≢ j
    → cacheline (element_address (line * cacheline_size) atomic_size i + a)
      ≢ cacheline (element_address (line * cacheline_size) atomic_size j + b)
element_address-apart line atomic_size i j a b small in_a in_b apart e = apart (
    omega (
      arith,
      sym (cacheline-element line atomic_size i a small in_a)
          ∙ e
          ∙ cacheline-element line atomic_size j b small in_b,
    ))
