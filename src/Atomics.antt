-- ===== src/Atomics.antt =====
-- src/Atomics.h: how an `AlignedAtomic` lies in memory. Sizes and addresses are in bytes; the size of
-- the `std::atomic` is an argument.
pub mod Sharing
use yardstick.Base.{ℕ, ◌+◌, ◌-◌, ◌*◌, ◌/◌}

-- `kCachelineSize`
abbrev pub cacheline_size : ℕ
cacheline_size = 64

-- The size of `_padding`.
unfoldable pub padding : (atomic_size : ℕ) → ℕ
padding atomic_size = cacheline_size - atomic_size

-- `sizeof(AlignedAtomic<T>)`: the members, rounded up to the alignment, `alignas(kCachelineSize)`.
unfoldable pub aligned_size : (atomic_size : ℕ) → ℕ
aligned_size atomic_size =
    (atomic_size + padding atomic_size + (cacheline_size - 1)) / cacheline_size * cacheline_size

-- Where the element at an index of an array of them begins.
unfoldable pub element_address : (base atomic_size i : ℕ) → ℕ
element_address base atomic_size i = base + i * aligned_size atomic_size

-- The line of the cache that an address lies in.
unfoldable pub cacheline : (address : ℕ) → ℕ
cacheline address = address / cacheline_size
