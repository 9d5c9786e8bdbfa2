-- ===== src/Queue/Ring.antt =====
-- src/ConcurrentQueue.h: what the sequence numbers say of the slots.
use Prim.Native.Nat.{bit_and}
use yardstick.Base.{
  update, update_self, update-ne, ℕ, suc, ◌+◌, ◌%◌, ◌^◌, ◌≤◌, ◌<◌, ◌≡◌, ◌≢◌, refl, sym, ap, ◌∙◌,
  some, List, [], ◌∷◌, ◌++◌, Bool-cases, ltb, ltb→lt, not_ltb→le, inl, inr, get_elem?-append,
  get_elem?-append_front, length, length-append, leb, get_elem?, arith, true,
}
use yardstick.Base.Words.{u32, sub_u32}
use yardstick.Base.Bits.{bit_and_mask}
use yardstick.Queue.{buffer_size, buffer_mask, Queue, empty_queue}

-- `xs` is queued, oldest first, behind `taken` values that have been taken out. The slot of the
-- `i`-th value carries the number of the position after it; a free slot that of its own next
-- position. Positions are counted modulo 2 ^ 32.
pub record Holds {ℓ} {A : Type ℓ} (q : Queue A) (taken : ℕ) (xs : List A) : Type ℓ where
  pub bounded : length xs ≤ buffer_size
  pub at_deque : q.deque ≡ taken % 2 ^ 32
  pub at_enque : q.enque ≡ (taken + length xs) % 2 ^ 32
  pub full_slots :
      (i : ℕ)
      → i < length xs
      → (q.sequence ((taken + i) % buffer_size) ≡ (taken + i + 1) % 2 ^ 32)
        × (get_elem? xs i ≡ some (q.buffer ((taken + i) % buffer_size)))
  pub free_slots :
      (i : ℕ)
      → length xs ≤ i
      → i < buffer_size
      → q.sequence ((taken + i) % buffer_size) ≡ (taken + i) % 2 ^ 32

-- The slot of a position.
pub slot : (n : ℕ) → bit_and (n % 2 ^ 32) buffer_mask ≡ n % buffer_size
slot n = bit_and_mask 9 (n % 2 ^ 32) ∙ omega arith

pub empty_queue-Holds {ℓ} : {A : Type ℓ} (memory : ℕ → A) → Holds (empty_queue memory) 0 []
unfolding empty_queue
empty_queue-Holds memory = record {
  bounded = omega arith;
  at_deque = refl;
  at_enque = refl;
  full_slots = λ i h. absurd (omega arith);
  free_slots = λ i h k. omega arith;
}

module _ {ℓ} {A : Type ℓ} (q : Queue A) (taken : ℕ) (xs : List A) (h : Holds q taken xs) where
  pub enque_slot : bit_and q.enque buffer_mask ≡ (taken + length xs) % buffer_size
  enque_slot = ap (λ n. bit_and n buffer_mask) h.at_enque ∙ slot (taken + length xs)

  deque_slot : bit_and q.deque buffer_mask ≡ taken % buffer_size
  deque_slot = ap (λ n. bit_and n buffer_mask) h.at_deque ∙ slot taken

  -- What `delta` is in `TryEnque` and in `TryDeque`.
  pub enque_full :
      length xs ≡ buffer_size
      → leb (2 ^ 31) (sub_u32 (q.sequence (bit_and q.enque buffer_mask)) q.enque) ≡ true
  enque_full e =
      let at : q.sequence (bit_and q.enque buffer_mask) ≡ (taken + 0 + 1) % 2 ^ 32 =
        ap q.sequence (enque_slot ∙ omega arith) ∙ (h.full_slots 0 (omega arith)).0 in
      let target : q.enque ≡ (taken + length xs) % 2 ^ 32 = h.at_enque in ground arith

  pub enque_free :
      length xs < buffer_size → sub_u32 (q.sequence (bit_and q.enque buffer_mask)) q.enque ≡ 0
  enque_free e =
      let at : q.sequence (bit_and q.enque buffer_mask) ≡ (taken + length xs) % 2 ^ 32 =
        ap q.sequence enque_slot ∙ h.free_slots (length xs) (omega arith) e in
      let target : q.enque ≡ (taken + length xs) % 2 ^ 32 = h.at_enque in omega arith

  pub deque_empty :
      length xs ≡ 0
      → leb (2 ^ 31) (sub_u32 (q.sequence (bit_and q.deque buffer_mask)) (u32 (q.deque + 1))) ≡ true
  deque_empty e =
      let at : q.sequence (bit_and q.deque buffer_mask) ≡ (taken + 0) % 2 ^ 32 =
        ap q.sequence (deque_slot ∙ omega arith) ∙ h.free_slots 0 (omega arith) (omega arith) in
      let target : q.deque ≡ taken % 2 ^ 32 = h.at_deque in ground arith

  pub deque_some :
      0 < length xs
      → (sub_u32 (q.sequence (bit_and q.deque buffer_mask)) (u32 (q.deque + 1)) ≡ 0)
        × (get_elem? xs 0 ≡ some (q.buffer (bit_and q.deque buffer_mask)))
  deque_some e =
      let (number, value) = h.full_slots 0 e in
      let same : (taken + 0) % buffer_size ≡ bit_and q.deque buffer_mask =
        omega (arith, deque_slot) in
      let at : q.sequence (bit_and q.deque buffer_mask) ≡ (taken + 0 + 1) % 2 ^ 32 =
        ap q.sequence (sym same) ∙ number in
      let target : q.deque ≡ taken % 2 ^ 32 = h.at_deque in
      (omega arith, value ∙ ap (λ i. some (q.buffer i)) same)

  -- The queue with `value` put in, and the queue with its oldest value taken out.
  unfoldable pub put : A → Queue A
  put value = record q {
    enque = u32 (q.enque + 1);
    buffer = update q.buffer (bit_and q.enque buffer_mask) value;
    sequence = update q.sequence (bit_and q.enque buffer_mask) (u32 (q.enque + 1));
  }

  put-full :
      (value : A)
      → length xs < buffer_size
      → (i : ℕ) → i ≤ length xs
      → ((put value).sequence ((taken + i) % buffer_size) ≡ (taken + i + 1) % 2 ^ 32)
        × (get_elem? (xs ++ (value ∷ [])) i ≡ some ((put value).buffer ((taken + i) % buffer_size)))
  unfolding put
  put-full value room i le = elim (Bool-cases (ltb i (length xs))) [
    | inl before ↦
        let lt : i < length xs = ltb→lt _ _ before in
        let apart : bit_and q.enque buffer_mask ≢ (taken + i) % buffer_size =
          omega (arith, enque_slot) in
        let (number, old) = h.full_slots i lt in
        (
          update-ne q.sequence _ _ _ apart ∙ number,
          get_elem?-append_front xs (value ∷ []) i lt
              ∙ old
              ∙ ap some (sym (update-ne q.buffer _ _ value apart)),
        )
    | inr last ↦
        let e : i ≡ length xs = omega (arith, not_ltb→le _ _ last) in
        let same : bit_and q.enque buffer_mask ≡ (taken + i) % buffer_size =
          omega (arith, enque_slot) in
        let target : q.enque ≡ (taken + length xs) % 2 ^ 32 = h.at_enque in
        (
          ap (update q.sequence (bit_and q.enque buffer_mask) (u32 (q.enque + 1))) (sym same)
              ∙ update_self q.sequence (bit_and q.enque buffer_mask) (u32 (q.enque + 1))
              ∙ omega arith,
          ap (get_elem? (xs ++ (value ∷ []))) e
              ∙ get_elem?-append xs value []
              ∙ ap some (
                  sym (
                    ap (update q.buffer (bit_and q.enque buffer_mask) value) (sym same)
                    ∙ update_self q.buffer (bit_and q.enque buffer_mask) value)),
        )
  ]

  pub put-Holds :
      (value : A) → length xs < buffer_size → Holds (put value) taken (xs ++ (value ∷ []))
  unfolding put
  put-Holds value room =
      let grown : length (xs ++ (value ∷ [])) ≡ length xs + 1 = length-append xs (value ∷ []) in
      let target : q.enque ≡ (taken + length xs) % 2 ^ 32 = h.at_enque in
      record {
        bounded = omega arith;
        at_deque = h.at_deque;
        at_enque = omega arith;
        full_slots = λ i lt. put-full value room i (omega arith);
        free_slots = λ i le lt.
            let apart : bit_and q.enque buffer_mask ≢ (taken + i) % buffer_size =
              omega (arith, enque_slot) in
            update-ne q.sequence _ _ _ apart ∙ h.free_slots i (omega arith) lt;
      }

module _ {ℓ} {A : Type ℓ} (q : Queue A) (taken : ℕ) (x : A) (xs : List A)
    (h : Holds q taken (x ∷ xs)) where
  unfoldable pub got : Queue A
  got = record q {
    deque = u32 (q.deque + 1);
    sequence = update q.sequence (bit_and q.deque buffer_mask) (u32 (q.deque + buffer_mask + 1));
  }

  got-free :
      (i : ℕ)
      → length xs ≤ i
      → i < buffer_size
      → got.sequence ((taken + 1 + i) % buffer_size) ≡ (taken + 1 + i) % 2 ^ 32
  unfolding got
  got-free i le lt =
      let target : q.deque ≡ taken % 2 ^ 32 = h.at_deque in
      elim (Bool-cases (ltb i buffer_mask)) [
        | inl before ↦
            let lt' : i < buffer_mask = ltb→lt _ _ before in
            let apart : bit_and q.deque buffer_mask ≢ (taken + 1 + i) % buffer_size =
              omega (arith, deque_slot q taken (x ∷ xs) h) in
            let here : (taken + 1 + i) % buffer_size ≡ (taken + suc i) % buffer_size =
              omega arith in
            update-ne q.sequence _ _ _ apart
            ∙ ap q.sequence here
            ∙ h.free_slots (suc i) (omega arith) (omega arith)
            ∙ omega arith
        | inr last ↦
            let e : i ≡ buffer_mask = omega (arith, not_ltb→le _ _ last) in
            let same : bit_and q.deque buffer_mask ≡ (taken + 1 + i) % buffer_size =
              omega (arith, deque_slot q taken (x ∷ xs) h) in
            ap (update q.sequence (bit_and q.deque buffer_mask) (u32 (q.deque + buffer_mask + 1)))
              (sym same)
            ∙ update_self q.sequence (bit_and q.deque buffer_mask) (u32 (q.deque + buffer_mask + 1))
            ∙ omega arith
      ]

  pub got-Holds : Holds got (taken + 1) xs
  unfolding got
  got-Holds =
      let target : q.deque ≡ taken % 2 ^ 32 = h.at_deque in
      let all : q.enque ≡ (taken + suc (length xs)) % 2 ^ 32 = h.at_enque in
      let few : suc (length xs) ≤ buffer_size = h.bounded in
      record {
        bounded = omega arith;
        at_deque = omega arith;
        at_enque = omega arith;
        full_slots = λ i lt.
            let (number, value) = h.full_slots (suc i) (omega arith) in
            let apart : bit_and q.deque buffer_mask ≢ (taken + 1 + i) % buffer_size =
              omega (arith, deque_slot q taken (x ∷ xs) h) in
            let here : (taken + 1 + i) % buffer_size ≡ (taken + suc i) % buffer_size =
              omega arith in
            (
              update-ne q.sequence _ _ _ apart ∙ ap q.sequence here ∙ number ∙ omega arith,
              value ∙ ap (λ j. some (q.buffer j)) (sym here),
            );
        free_slots = λ i le lt. got-free i le lt;
      }
