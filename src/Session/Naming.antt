-- ===== src/Session/Naming.antt =====
-- src/WebsocketSink.cpp: what marking a handle in the table of strings leaves unmarked.
use Prim.Native.Nat.{bit_and, bit_or}
use yardstick.Base.{
  ℕ, ◌+◌, ◌*◌, ◌/◌, ◌%◌, ◌^◌, ◌<◌, ◌≡◌, ◌≢◌, ◌⊎◌, inl, inr, refl, sym, ap, ap₂, ◌∙◌, ◌==◌, true,
  false, ◌||◌, List, length, length-set, get_or, get_or-set_self, get_or-set_ne, All, arith,
  if◌then◌else◌,
}
use native.Mathlib.Decide.{ℕ_discrete}
use yardstick.Base.Bits.{all_below, all_below_sound}
use yardstick.Session.{byte_index, bit_mask, table_size}
use yardstick.Session.Strings.{is_marked, mark, All-set}
use yardstick.Session.Collisions.{byte_index-lt, bit_mask-eq, All-get_or}

-- Of each byte and each two of the masks: what is set after one is set was set, or is that one.
or_adds :
    all_below
      (λ b.
        all_below
          (λ k.
            all_below
              (λ m. (k == m) || (bit_and (bit_or b (2 ^ k) % 256) (2 ^ m) == bit_and b (2 ^ m)))
              6)
          6)
      256
    ≡ true
unfolding all_below
or_adds = refl

bit_or-adds :
    (b k m : ℕ)
    → b < 2 ^ 8
    → k < 6
    → m < 6
    → k ≢ m
    → bit_and (bit_or b (2 ^ k) % 256) (2 ^ m) ≡ bit_and b (2 ^ m)
bit_or-adds b k m hb hk hm ne =
    let entry : ((k == m) || (bit_and (bit_or b (2 ^ k) % 256) (2 ^ m) == bit_and b (2 ^ m)))
        ≡ true =
      all_below_sound _ 6 m hm (all_below_sound _ 6 k hk (all_below_sound _ 256 b hb or_adds)) in
    ground arith

-- The bit that `bit_mask` sets.
abbrev bit_number : ℕ → ℕ
bit_number handle = handle / 4 % 2 * 4 + handle % 2

-- A table of a session.
pub record IsTable (table : List ℕ) : Type 0 where
  pub entries : length table ≡ table_size
  pub bytes : All (λ b. b < 2 ^ 8) table

-- The bits of the table that the handles stand for are the same.
abbrev pub SameBit : ℕ → ℕ → Type 0
SameBit a b = (byte_index a ≡ byte_index b) × (bit_mask a ≡ bit_mask b)

-- The bit of `b` after another bit of the same byte is set.
mark-other_bit :
    (table : List ℕ) (a b : ℕ)
    → IsTable table
    → byte_index a ≡ byte_index b
    → bit_number a ≢ bit_number b
    → bit_and (get_or (mark table a) (byte_index b) 0) (bit_mask b)
      ≡ bit_and (get_or table (byte_index b) 0) (bit_mask b)
unfolding mark
mark-other_bit table a b t same other =
    let byte = get_or table (byte_index a) 0 in
    let inside : byte_index a < length table =
      let e = t.entries in omega (arith, byte_index-lt a) in
    ap (λ i. bit_and (get_or (mark table a) i 0) (bit_mask b)) (sym same)
    ∙ ap (λ x. bit_and x (bit_mask b)) (get_or-set_self table (byte_index a) _ 0 inside)
    ∙ ap₂ (λ p q. bit_and (bit_or byte p % 256) q) (bit_mask-eq a) (bit_mask-eq b)
    ∙ bit_or-adds byte (bit_number a) (bit_number b) (All-get_or table (byte_index a) t.bytes)
        (omega arith) (omega arith) other
    ∙ ap (λ q. bit_and byte q) (sym (bit_mask-eq b))
    ∙ ap (λ i. bit_and (get_or table i 0) (bit_mask b)) same

-- Marking a handle marks no handle with another bit.
pub is_marked-mark_only :
    (table : List ℕ) (a b : ℕ)
    → IsTable table
    → is_marked (mark table a) b ≡ true
    → SameBit a b ⊎ (is_marked table b ≡ true)
unfolding is_marked mark
is_marked-mark_only table a b t e = elim (ℕ_discrete (byte_index a) (byte_index b)) [
  | no other ↦ inr (
      sym (
        ap (λ x. if bit_and x (bit_mask b) == 0 then false else true)
          (get_or-set_ne table _ 0 other))
      ∙ e)
  | yes same ↦ elim (ℕ_discrete (bit_number a) (bit_number b)) [
    | yes bit ↦ inl (same, bit_mask-eq a ∙ ap (λ n. 2 ^ n) bit ∙ sym (bit_mask-eq b))
    | no other ↦
        inr (
          sym (ap (λ x. if x == 0 then false else true) (mark-other_bit table a b t same other))
          ∙ e)
  ]
]

pub mark-IsTable : (table : List ℕ) (handle : ℕ) → IsTable table → IsTable (mark table handle)
unfolding mark
mark-IsTable table handle t = record {
  entries = length-set table _ _ ∙ t.entries;
  bytes = All-set table _ _ t.bytes (omega arith);
}
