-- ===== src/Circular/Refine.antt =====
-- src/ConcurrentCircularBuffer.h against a queue of bytes.
use Prim.Native.Nat.{bit_and}
use yardstick.Base.{
  ℕ, ◌+◌, ◌-◌, ◌%◌, ◌≤◌, ◌<◌, ◌≡◌, ◌⊎◌, refl, sym, ap, ◌∙◌, true, false, List, ◌++◌, length,
  length-append, length-take, length-drop, take, drop, get_elem?, arith, get_elem?-append_front,
  Bool-cases, ltb, ltb→lt, not_ltb→le, inl, inr, min, if◌then◌else◌,
}
use yardstick.Base.Words.{u32, sub_u32}
use yardstick.Base.Bits.{bit_and_mask}
use yardstick.Circular.{Circular, ring_size, ring_mask, copy_in, try_write_bytes}
use yardstick.Circular.Bytes.{
  get_elem?-append_back, get_elem?-take, get_elem?-drop, copy_in-inside, copy_in-before,
  copy_in-behind, length-copy_in,
}

-- The buffer holds `xs`, oldest first, from `_read` on.
pub record Stores (c : Circular) (xs : List ℕ) : Type 0 where
  pub whole : length c.buffer ≡ ring_size
  pub start : c.read < ring_size
  pub few : length xs < ring_size
  pub end : c.write ≡ (c.read + length xs) % ring_size
  pub bytes :
      (k : ℕ) → k < length xs → get_elem? xs k ≡ get_elem? c.buffer ((c.read + k) % ring_size)

pub used-Stores :
    (c : Circular) (xs : List ℕ)
    → Stores c xs
    → bit_and (sub_u32 c.write c.read) ring_mask ≡ length xs
used-Stores c xs h =
    let s : c.read < ring_size = h.start in
    let f : length xs < ring_size = h.few in
    let e : c.write ≡ (c.read + length xs) % ring_size = h.end in
    bit_and_mask 10 (sub_u32 c.write c.read) ∙ omega arith

-- A copy leaves a place that it does not cover.
copy_in-elsewhere :
    (at : ℕ) (bytes buffer : List ℕ) (p : ℕ)
    → at ≤ length buffer
    → (p < at) ⊎ (at + length bytes ≤ p)
    → get_elem? (copy_in at bytes buffer) p ≡ get_elem? buffer p
copy_in-elsewhere at bytes buffer p h (inl before) = copy_in-before at bytes buffer p h before
copy_in-elsewhere at bytes buffer p h (inr behind) =
    let far : p ≡ at + length bytes + (p - (at + length bytes)) = omega arith in
    ap (get_elem? (copy_in at bytes buffer)) far
    ∙ copy_in-behind at bytes buffer (p - (at + length bytes)) h
    ∙ ap (get_elem? buffer) (sym far)

module _ (c : Circular) (xs bytes : List ℕ) (h : Stores c xs)
    (room : length xs + length bytes < ring_size) where
  -- How many bytes fit before the end of the array.
  abbrev count : ℕ
  count = if ltb (length bytes) (ring_size - c.write) then length bytes else ring_size - c.write

  abbrev first_copy : List ℕ
  first_copy = copy_in c.write (take count bytes) c.buffer

  abbrev both_copies : List ℕ
  both_copies = copy_in 0 (drop count bytes) first_copy

  count-cases :
      (count ≡ min (length bytes) (ring_size - c.write))
      × (c.write < ring_size)
      × (length (take count bytes) ≡ count)
      × (length (drop count bytes) ≡ length bytes - count)
  count-cases =
      let e : c.write ≡ (c.read + length xs) % ring_size = h.end in
      let m : count ≡ min (length bytes) (ring_size - c.write) = ground arith in
      (
        m,
        omega arith,
        omega (arith, length-take count bytes, m),
        omega (arith, length-drop count bytes),
      )

  length-copies : (length first_copy ≡ ring_size) × (length both_copies ≡ ring_size)
  length-copies =
      let w : length c.buffer ≡ ring_size = h.whole in
      let (m, inside, taken, dropped) = count-cases in
      let one : length first_copy ≡ ring_size =
        length-copy_in c.write (take count bytes) c.buffer (omega arith) ∙ w in
      (one, length-copy_in 0 (drop count bytes) first_copy (omega arith) ∙ one)

  old_byte :
      (k : ℕ) → k < length xs → get_elem? xs k ≡ get_elem? both_copies ((c.read + k) % ring_size)
  old_byte k lt =
      let w : length c.buffer ≡ ring_size = h.whole in
      let s : c.read < ring_size = h.start in
      let e : c.write ≡ (c.read + length xs) % ring_size = h.end in
      let (m, inside, taken, dropped) = count-cases in
      let (one, two) = length-copies in
      let p : ℕ = (c.read + k) % ring_size in
      let here : p ≡ (c.read + k) % ring_size = refl in
      h.bytes k lt
      ∙ sym (copy_in-elsewhere c.write (take count bytes) c.buffer p (omega arith) (ground arith))
      ∙ sym (copy_in-elsewhere 0 (drop count bytes) first_copy p (omega arith) (inr (omega arith)))

  new_byte :
      (k : ℕ)
      → k < length bytes
      → get_elem? bytes k ≡ get_elem? both_copies ((c.write + k) % ring_size)
  new_byte k lt =
      let w : length c.buffer ≡ ring_size = h.whole in
      let s : c.read < ring_size = h.start in
      let e : c.write ≡ (c.read + length xs) % ring_size = h.end in
      let (m, inside, taken, dropped) = count-cases in
      let (one, two) = length-copies in
      elim (Bool-cases (ltb k count)) [
        | inl before ↦
            let near : k < count = ltb→lt _ _ before in
            let place : (c.write + k) % ring_size ≡ c.write + k = omega arith in
            sym (
              ap (get_elem? both_copies) place
              ∙ copy_in-elsewhere 0 (drop count bytes) first_copy (c.write + k) (omega arith)
                  (inr (omega arith))
              ∙ copy_in-inside c.write (take count bytes) c.buffer k (omega arith) (omega arith)
              ∙ get_elem?-take count k bytes near)
        | inr behind ↦
            let far : count ≤ k = not_ltb→le _ _ behind in
            let place : (c.write + k) % ring_size ≡ 0 + (k - count) = omega arith in
            let back : count + (k - count) ≡ k = omega arith in
            sym (
              ap (get_elem? both_copies) place
              ∙ copy_in-inside 0 (drop count bytes) first_copy (k - count) (omega arith)
                  (omega arith)
              ∙ get_elem?-drop count (k - count) bytes
              ∙ ap (get_elem? bytes) back)
      ]

  try_write_bytes-eq : try_write_bytes bytes c ≡ (
    true,
    record c { buffer = both_copies; write = bit_and (u32 (c.write + length bytes)) ring_mask },
  )
  unfolding try_write_bytes
  try_write_bytes-eq =
      let used = used-Stores c xs h in
      let (m, inside, taken, dropped) = count-cases in
      let space : sub_u32 ring_size c.write ≡ ring_size - c.write = omega arith in
      let available : sub_u32 ring_size (length xs) ≡ ring_size - length xs = omega arith in
      let fits : ltb (length bytes) (ring_size - length xs) ≡ true = ground arith in
      rw (used, space, available, fits)

  -- On a circular buffer of 1024 that holds some bytes, TryWrite of bytes with which it holds fewer
  -- than 1024 returns true and puts them behind those that are there, across the end of the array
  -- if need be.
  pub try_write_bytes-success :
      (c' : Circular) × (try_write_bytes bytes c ≡ (true, c')) × Stores c' (xs ++ bytes)
  try_write_bytes-success =
      let s : c.read < ring_size = h.start in
      let e : c.write ≡ (c.read + length xs) % ring_size = h.end in
      let grown : length (xs ++ bytes) ≡ length xs + length bytes = length-append xs bytes in
      (
        _,
        try_write_bytes-eq,
        record {
          whole = length-copies.1;
          start = s;
          few = omega arith;
          end = bit_and_mask 10 (u32 (c.write + length bytes)) ∙ omega arith;
          bytes = λ k lt. elim (Bool-cases (ltb k (length xs))) [
            | inl old ↦
                let near : k < length xs = ltb→lt _ _ old in
                get_elem?-append_front xs bytes k near ∙ old_byte k near
            | inr new ↦
                let far : length xs ≤ k = not_ltb→le _ _ new in
                let apart : k ≡ length xs + (k - length xs) = omega arith in
                let place : (c.write + (k - length xs)) % ring_size ≡ (c.read + k) % ring_size =
                  omega arith in
                ap (get_elem? (xs ++ bytes)) apart
                ∙ get_elem?-append_back xs bytes (k - length xs)
                ∙ new_byte (k - length xs) (omega arith)
                ∙ ap (get_elem? both_copies) place
          ];
        },
      )

-- TryWrite of bytes with which the circular buffer would hold 1024 or more returns false and
-- changes nothing.
pub try_write_bytes-full :
    (c : Circular) (xs bytes : List ℕ)
    → Stores c xs
    → ring_size ≤ length xs + length bytes
    → try_write_bytes bytes c ≡ (false, c)
unfolding try_write_bytes
try_write_bytes-full c xs bytes h long =
    let used = used-Stores c xs h in
    let f : length xs < ring_size = h.few in
    let available : sub_u32 ring_size (length xs) ≡ ring_size - length xs = omega arith in
    let short : ltb (length bytes) (ring_size - length xs) ≡ false = ground arith in
    rw (used, available, short)
