-- ===== src/Session/Collisions.antt =====
-- src/WebsocketSink.cpp: the table of strings. Which handles share a bit of it.
use Prim.Native.Nat.{bit_and, bit_or}
use yardstick.Base.{
  ◌*◌, ap₂, ℕ, zero, suc, ◌+◌, ◌/◌, ◌%◌, ◌^◌, ◌<◌, ◌≡◌, refl, sym, ap, ◌∙◌, ◌==◌, true, false, not,
  List, [], ◌∷◌, get_or, get_or-set_self, All, arith, if◌then◌else◌,
}
use yardstick.Base.Bits.{bit_and_mask, bit_and_five, all_below, all_below_sound}
use yardstick.Session.{Session, byte_index, bit_mask, table_size, table_bit_mask}
use yardstick.Session.Valid.{IsValid}
use yardstick.Session.Strings.{is_marked, mark}

-- Every handle has its byte inside the table.
pub byte_index-lt : (handle : ℕ) → byte_index handle < table_size
byte_index-lt handle = omega (arith, bit_and_mask 15 handle)

byte_index-eq : (handle : ℕ) → byte_index handle ≡ handle % 2 ^ 15 / 8
byte_index-eq handle = ap (λ n. n / 8) (bit_and_mask 15 handle)

-- `index & 5` keeps two of the three bits that the byte's index leaves.
pub bit_mask-eq : (handle : ℕ) → bit_mask handle ≡ 2 ^ (handle / 4 % 2 * 4 + handle % 2)
bit_mask-eq handle =
    ap (λ n. 2 ^ bit_and n 5) (bit_and_mask 15 handle)
    ∙ ap (λ n. 2 ^ n) (bit_and_five (handle % 2 ^ 15) ∙ omega arith)

-- Of each byte, and each of the four masks in use.
or_table :
    all_below (λ b. all_below (λ k. not (bit_and (bit_or b (2 ^ k) % 256) (2 ^ k) == 0)) 6) 256
    ≡ true
unfolding all_below
or_table = refl

bit_or-marks :
    (b k : ℕ) → b < 2 ^ 8 → k < 6 → (bit_and (bit_or b (2 ^ k) % 256) (2 ^ k) == 0) ≡ false
bit_or-marks b k hb hk =
    let entry : not (bit_and (bit_or b (2 ^ k) % 256) (2 ^ k) == 0) ≡ true =
      all_below_sound _ 6 k hk (all_below_sound _ 256 b hb or_table) in
    ground arith

pub All-get_or : (table : List ℕ) (i : ℕ) → All (λ b. b < 2 ^ 8) table → get_or table i 0 < 2 ^ 8
All-get_or [] i h = omega arith
All-get_or (b ∷ table) zero h = h.0
All-get_or (b ∷ table) (suc i) h = All-get_or table i h.1

-- In a valid session, once a handle is marked, every handle with the same byte and the same mask
-- counts as marked.
pub is_marked-mark :
    (s : Session) (a b : ℕ)
    → IsValid s
    → byte_index a ≡ byte_index b
    → bit_mask a ≡ bit_mask b
    → is_marked (mark s.table a) b ≡ true
unfolding is_marked mark
is_marked-mark s a b v same_byte same_mask =
    ap₂ (λ i m. if bit_and (get_or (mark s.table a) i 0) m == 0 then false else true)
      (sym same_byte) (sym same_mask)
    ∙ ap (λ x. if bit_and x (bit_mask a) == 0 then false else true) stored
    ∙ ap (λ t. if t then false else true) nonzero
  where
    byte : ℕ
    byte = get_or s.table (byte_index a) 0

    k : ℕ
    k = bit_and (bit_and a table_bit_mask) 5

    stored : get_or (mark s.table a) (byte_index a) 0 ≡ bit_or byte (bit_mask a) % 256
    stored =
        get_or-set_self s.table (byte_index a) _ 0
          (let e = v.entries in omega (arith, byte_index-lt a))

    nonzero : (bit_and (bit_or byte (bit_mask a) % 256) (bit_mask a) == 0) ≡ false
    nonzero =
        bit_or-marks byte k (All-get_or s.table (byte_index a) v.bytes)
          (omega (arith, bit_and_five (bit_and a table_bit_mask)))

-- A string that has been told is not told again: its own handle is marked.
pub is_marked-mark_self :
    (s : Session) (handle : ℕ) → IsValid s → is_marked (mark s.table handle) handle ≡ true
is_marked-mark_self s handle v = is_marked-mark s handle handle v refl refl

-- In a valid session, once a handle is marked, a handle that differs from it in bit 1 only counts
-- as marked too.
pub is_marked-collision :
    (s : Session) (a b : ℕ)
    → IsValid s
    → a / 4 ≡ b / 4
    → a % 2 ≡ b % 2
    → is_marked (mark s.table a) b ≡ true
is_marked-collision s a b v high low =
    is_marked-mark s a b v (byte_index-eq a ∙ omega arith ∙ sym (byte_index-eq b))
      (bit_mask-eq a ∙ ap (λ n. 2 ^ n) (omega arith) ∙ sym (bit_mask-eq b))
