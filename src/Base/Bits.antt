-- ===== src/Base/Bits.antt =====
-- Facts about `bit_and` and `bit_or` at variables: a mask of low bits is a remainder, and what
-- holds of every byte is checked by evaluation.
use Prim.Native.Nat.{
  ℕ, zero, suc, ◌+◌, ◌-◌, ◌*◌, ◌/◌, ◌%◌, ◌^◌, ◌≤◌, ◌<◌, min, bit_and, digits, bit_and-bitwise,
}
use mathlib.Core.Path.{◌≡◌, refl, sym, ap, ap₂, ◌∙◌}
use mathlib.Core.Bool.{Bool, true, ◌&&◌}
use native.Mathlib.Nat.{pow-suc, div-add-mod, add-mul-mod_self_right, mod-eq_of_lt, mod-lt}
use native.Mathlib.Omega.{arith}
use native.Mathlib.Decide.{ℕ_discrete}

-- Whether `p` holds of all the numbers below a bound.
unfoldable pub all_below : (ℕ → Bool) → ℕ → Bool
all_below p zero = true
all_below p (suc n) = all_below p n && p n

pub all_below_sound : (p : ℕ → Bool) (n x : ℕ) → x < n → all_below p n ≡ true → p x ≡ true
unfolding all_below
all_below_sound p zero x lt h = absurd (omega arith)
all_below_sound p (suc n) x lt h = elim (ℕ_discrete x n) [
  | yes last ↦ ap p last ∙ ground arith
  | no other ↦ ground (arith, all_below_sound p n x (omega arith))
]

-- What the native operation stands for, with the fuel of its recursion.
abbrev common_bits : ℕ → ℕ → ℕ → ℕ
common_bits fuel x mask = digits (λ rest. 0) min fuel x mask

no_bits : (fuel mask : ℕ) → common_bits fuel 0 mask ≡ 0
no_bits zero mask = refl
no_bits (suc fuel) mask = refl

no_mask : (fuel x : ℕ) → common_bits fuel x 0 ≡ 0
no_mask fuel zero = no_bits fuel 0
no_mask zero (suc x) = refl
no_mask (suc fuel) (suc x) = omega (arith, no_mask fuel (suc x / 2))

-- Fuel beyond the number itself changes nothing.
more_fuel :
    (fuel extra x mask : ℕ) → x ≤ fuel → common_bits (fuel + extra) x mask ≡ common_bits fuel x mask
more_fuel fuel extra zero mask h = no_bits (fuel + extra) mask ∙ sym (no_bits fuel mask)
more_fuel zero extra (suc x) mask h = absurd (omega arith)
more_fuel (suc fuel) extra (suc x) mask h =
    let more : suc fuel + extra ≡ suc (fuel + extra) = omega arith in
    ap (λ n. common_bits n (suc x) mask) more
    ∙ ap (λ n. n * 2 + min (suc x % 2) (mask % 2))
        (more_fuel fuel extra (suc x / 2) (mask / 2) (omega arith))

enough_fuel : (fuel x mask : ℕ) → x ≤ fuel → common_bits fuel x mask ≡ bit_and x mask
enough_fuel fuel x mask h =
    let whole : fuel ≡ x + (fuel - x) = omega arith in
    ap (λ n. common_bits n x mask) whole
    ∙ more_fuel x (fuel - x) x mask (omega arith)
    ∙ sym (bit_and-bitwise x mask)

-- The lowest digit apart from the others.
pub bit_and-halves : (a b : ℕ) → bit_and a b ≡ bit_and (a / 2) (b / 2) * 2 + min (a % 2) (b % 2)
bit_and-halves zero b =
    omega (arith, enough_fuel 0 0 b, enough_fuel 0 0 (b / 2), no_bits 0 b, no_bits 0 (b / 2))
bit_and-halves (suc x) b =
    bit_and-bitwise (suc x) b
    ∙ ap (λ n. n * 2 + min (suc x % 2) (b % 2)) (enough_fuel x (suc x / 2) (b / 2) (omega arith))

pub bit_and-zero : (a : ℕ) → bit_and a 0 ≡ 0
bit_and-zero a = bit_and-bitwise a 0 ∙ no_mask a a

pub two_pow_pos : (k : ℕ) → 0 < 2 ^ k
two_pow_pos zero = omega arith
two_pow_pos (suc k) = omega (arith, pow-suc 2 k, two_pow_pos k)

-- Division with remainder by `2 * p` is division by 2 and then by `p`.
mod_double : (x p : ℕ) → 0 < p → x % (p * 2) ≡ x / 2 % p * 2 + x % 2
mod_double x p h =
    ap (λ t. t % (p * 2)) whole
    ∙ add-mul-mod_self_right (x / 2 % p * 2 + x % 2) (x / 2 / p) (p * 2)
    ∙ mod-eq_of_lt (omega (arith, mod-lt (x / 2) h))
  where
    whole : x ≡ x / 2 % p * 2 + x % 2 + x / 2 / p * (p * 2)
    whole = omega (arith, div-add-mod (x / 2) p)

-- A mask of `k` ones takes the remainder modulo `2 ^ k`.
pub bit_and_mask : (k x : ℕ) → bit_and x (2 ^ k - 1) ≡ x % 2 ^ k
bit_and_mask zero x = omega (arith, bit_and-zero x)
bit_and_mask (suc k) x =
    bit_and-halves x (2 ^ suc k - 1)
    ∙ ap₂ (λ a b. bit_and (x / 2) a * 2 + min (x % 2) b) half low
    ∙ ap₂ (λ a b. a * 2 + b) (bit_and_mask k (x / 2)) (omega arith)
    ∙ sym (ap (λ t. x % t) (pow-suc 2 k) ∙ mod_double x (2 ^ k) (two_pow_pos k))
  where
    half : (2 ^ suc k - 1) / 2 ≡ 2 ^ k - 1
    half = omega (arith, pow-suc 2 k, two_pow_pos k)

    low : (2 ^ suc k - 1) % 2 ≡ 1
    low = omega (arith, pow-suc 2 k, two_pow_pos k)

-- `x & 5` keeps the bits 0 and 2.
pub bit_and_five : (x : ℕ) → bit_and x 5 ≡ x / 4 % 2 * 4 + x % 2
bit_and_five x = omega (
  arith,
  bit_and-halves x 5,
  bit_and-halves (x / 2) 2,
  bit_and-halves (x / 2 / 2) 1,
  bit_and-zero (x / 2 / 2 / 2),
)
