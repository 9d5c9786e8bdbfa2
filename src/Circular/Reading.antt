-- ===== src/Circular/Reading.antt =====
-- src/ConcurrentCircularBuffer.h: `Read` against a queue of bytes.
use Prim.Native.Nat.{bit_and}
use yardstick.Base.{
  ℕ, ◌+◌, ◌-◌, ◌%◌, ◌≤◌, ◌<◌, ◌≡◌, sym, ap, ◌∙◌, true, List, [], ◌∷◌, ◌++◌, length, length-append,
  length-take, length-drop, take, drop, get_elem?, arith, get_elem?-append_front, Bool-cases, ltb,
  ltb→lt, not_ltb→le, inl, inr, min, if◌then◌else◌,
}
use yardstick.Base.Words.{u32, sub_u32}
use yardstick.Base.Bits.{bit_and_mask}
use yardstick.Circular.{Circular, ring_size, ring_mask, read_bytes}
use yardstick.Circular.Bytes.{get_elem?-append_back, get_elem?-take, get_elem?-drop, same_list}
use yardstick.Circular.Refine.{Stores, used-Stores}

module _ (c : Circular) (xs : List ℕ) (h : Stores c xs) (amount : ℕ)
    (enough : amount ≤ length xs) where
  abbrev pub front_count : ℕ
  front_count = if ltb (ring_size - c.read) amount then ring_size - c.read else amount

  abbrev pub copied_out : List ℕ
  copied_out = take front_count (drop c.read c.buffer) ++ take (amount - front_count) c.buffer

  front_count-min : front_count ≡ min (ring_size - c.read) amount
  front_count-min = ground arith

  length-front : length (take front_count (drop c.read c.buffer)) ≡ front_count
  length-front =
      let w : length c.buffer ≡ ring_size = h.whole in
      let m = front_count-min in
      omega (arith, length-take front_count (drop c.read c.buffer), length-drop c.read c.buffer)

  length-copied_out : length copied_out ≡ amount
  length-copied_out =
      let w : length c.buffer ≡ ring_size = h.whole in
      let f : length xs < ring_size = h.few in
      let m = front_count-min in
      omega (
        arith,
        length-append (take front_count (drop c.read c.buffer))
            (take (amount - front_count) c.buffer),
        length-front,
        length-take (amount - front_count) c.buffer,
      )

  copied_byte :
      (k : ℕ) → k < amount → get_elem? copied_out k ≡ get_elem? c.buffer ((c.read + k) % ring_size)
  copied_byte k lt =
      let w : length c.buffer ≡ ring_size = h.whole in
      let s : c.read < ring_size = h.start in
      let f : length xs < ring_size = h.few in
      let m = front_count-min in
      let l = length-front in
      elim (Bool-cases (ltb k front_count)) [
        | inl before ↦
            let near : k < front_count = ltb→lt _ _ before in
            let place : c.read + k ≡ (c.read + k) % ring_size = omega arith in
            get_elem?-append_front (take front_count (drop c.read c.buffer)) _ k (omega arith)
            ∙ get_elem?-take front_count k (drop c.read c.buffer) near
            ∙ get_elem?-drop c.read k c.buffer
            ∙ ap (get_elem? c.buffer) place
        | inr behind ↦
            let far : front_count ≤ k = not_ltb→le _ _ behind in
            let apart : k ≡ length (take front_count (drop c.read c.buffer)) + (k - front_count) =
              omega arith in
            let place : k - front_count ≡ (c.read + k) % ring_size = omega arith in
            ap (get_elem? copied_out) apart
            ∙ get_elem?-append_back (take front_count (drop c.read c.buffer)) _ (k - front_count)
            ∙ get_elem?-take (amount - front_count) (k - front_count) c.buffer (omega arith)
            ∙ ap (get_elem? c.buffer) place
      ]

  -- What is copied out are the oldest bytes.
  copied_out-eq : copied_out ≡ take amount xs
  copied_out-eq =
      let l = length-copied_out in
      same_list copied_out (take amount xs) (omega (arith, length-take amount xs)) (λ k lt.
        copied_byte k (omega arith)
        ∙ sym (get_elem?-take amount k xs (omega arith) ∙ h.bytes k (omega arith)))

  read-Stores :
      Stores (record c { read = bit_and (u32 (c.read + amount)) ring_mask }) (drop amount xs)
  read-Stores =
      let s : c.read < ring_size = h.start in
      let f : length xs < ring_size = h.few in
      let e : c.write ≡ (c.read + length xs) % ring_size = h.end in
      let moved : bit_and (u32 (c.read + amount)) ring_mask ≡ (c.read + amount) % ring_size =
        bit_and_mask 10 (u32 (c.read + amount)) ∙ omega arith in
      let left : length (drop amount xs) ≡ length xs - amount = length-drop amount xs in
      record {
        whole = h.whole;
        start = omega arith;
        few = omega arith;
        end = omega arith;
        bytes = λ k lt.
            let place : (c.read + (amount + k)) % ring_size
                ≡ (bit_and (u32 (c.read + amount)) ring_mask + k) % ring_size =
              omega arith in
            get_elem?-drop amount k xs
            ∙ h.bytes (amount + k) (omega arith)
            ∙ ap (get_elem? c.buffer) place;
      }

read_bytes-eq :
    (c : Circular) (xs : List ℕ) (size : ℕ) (h : Stores c xs)
    (low : min size (length xs) ≤ length xs)
    → 0 < length xs
    → read_bytes size c ≡ (
      copied_out c xs h (min size (length xs)) low,
      record c { read = bit_and (u32 (c.read + min size (length xs))) ring_mask },
    )
unfolding read_bytes
read_bytes-eq c xs size h low some_bytes =
    let used = used-Stores c xs h in
    let s : c.read < ring_size = h.start in
    let space : sub_u32 ring_size c.read ≡ ring_size - c.read = omega arith in
    let amount : (if ltb size (length xs) then size else length xs) ≡ min size (length xs) =
      ground arith in
    let any : ltb 0 (length xs) ≡ true = ground arith in rw (used, space, amount, any)

-- Read of up to a number of bytes from a circular buffer copies out the oldest ones, that number or
-- all that are held if they are fewer, and leaves the others in order.
pub read_bytes_lem :
    (c : Circular) (xs : List ℕ) (size : ℕ)
    → Stores c xs
    → (c' : Circular) × (read_bytes size c ≡ (take (min size (length xs)) xs, c'))
      × Stores c' (drop (min size (length xs)) xs)
unfolding read_bytes
read_bytes_lem c [] size h =
    let used = used-Stores c [] h in
    let none_taken : min size 0 ≡ 0 = omega arith in (c, rw (used, none_taken), rw none_taken h)
read_bytes_lem c (x ∷ xs) size h =
    let amount : ℕ = min size (length (x ∷ xs)) in
    let low : amount ≤ length (x ∷ xs) = omega arith in
    (
      _,
      read_bytes-eq c (x ∷ xs) size h low (omega arith)
          ∙ ap (λ out. (out, record c { read = bit_and (u32 (c.read + amount)) ring_mask }))
              (copied_out-eq c (x ∷ xs) h amount low),
      read-Stores c (x ∷ xs) h amount low,
    )
