-- ===== src/Base/Words.antt =====
-- Unsigned machine words as native numbers with their wrap-around, and the bytes of a word in
-- memory, lowest first.
use Prim.Native.Nat.{ℕ, zero, suc, ◌+◌, ◌-◌, ◌*◌, ◌/◌, ◌%◌, ◌^◌, ◌<◌}
use mathlib.Core.Path.{◌≡◌, refl, ap}
use mathlib.Core.List.{List, [], ◌∷◌, ◌++◌}
use mathlib.Core.Option
use mathlib.Core.Option.{Option, none, some}
use native.Mathlib.Nat.{pow-suc}
use native.Mathlib.Omega.{arith}
use yardstick.Base.Lists.{length}

abbrev pub u16 : ℕ → ℕ
u16 n = n % 2 ^ 16

abbrev pub u32 : ℕ → ℕ
u32 n = n % 2 ^ 32

abbrev pub u64 : ℕ → ℕ
u64 n = n % 2 ^ 64

-- `a - b` on an unsigned type.
abbrev pub sub_u32 : ℕ → ℕ → ℕ
sub_u32 a b = (a + 2 ^ 32 - b) % 2 ^ 32

abbrev pub sub_u64 : ℕ → ℕ → ℕ
sub_u64 a b = (a + 2 ^ 64 - b) % 2 ^ 64

-- The `n` bytes of a word, as a little-endian machine lays them out.
unfoldable pub to_bytes : ℕ → ℕ → List ℕ
to_bytes zero v = []
to_bytes (suc n) v = v % 256 ∷ to_bytes n (v / 256)

-- The word that the first `n` bytes stand for; `none` if there are fewer.
unfoldable pub of_bytes : ℕ → List ℕ → Option ℕ
of_bytes zero xs = some 0
of_bytes (suc n) [] = none
of_bytes (suc n) (b ∷ xs) = Option.map (λ v. b + 256 * v) (of_bytes n xs)

pub length-to_bytes : (n v : ℕ) → length (to_bytes n v) ≡ n
unfolding to_bytes
length-to_bytes zero v = refl
length-to_bytes (suc n) v = ap suc (length-to_bytes n (v / 256))

-- Reading takes a word back modulo its width, whatever follows it.
pub of_bytes-to_bytes :
    (n v : ℕ) (rest : List ℕ) → v < 256 ^ n → of_bytes n (to_bytes n v ++ rest) ≡ some v
unfolding to_bytes of_bytes
of_bytes-to_bytes zero v rest h = ap some (omega arith)
of_bytes-to_bytes (suc n) v rest h =
    rw (of_bytes-to_bytes n (v / 256) rest (omega (arith, pow-suc 256 n))) (ap some (omega arith))
