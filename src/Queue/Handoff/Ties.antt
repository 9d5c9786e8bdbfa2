-- ===== src/Queue/Handoff/Ties.antt =====
-- src/ConcurrentQueue.h: what the two threads know of the queue between their accesses.
use Prim.Native.Nat.{bit_and}
use mathlib.Core.Path.{subst, fun_ext}
use yardstick.Base.{
  update, update-ne, ℕ, ◌+◌, ◌%◌, ◌≤◌, ◌<◌, ◌≡◌, ◌≢◌, sym, ap, ◌∙◌, some, List, [], ◌∷◌, ◌++◌,
  length, get_elem?, arith,
}
use yardstick.Base.Words.{u32, sub_u32}
use yardstick.Queue.{buffer_size, buffer_mask, Queue}
use yardstick.Queue.Ring.{Holds, enque_full, deque_empty, enque_slot, put, put-Holds}
use yardstick.Queue.Handoff.{Producer, Consumer, System}

module _ {A : Type 0} where
  -- The queue with its counters at the values that have gone in and come out.
  abbrev pub settled : Queue A → (e d : ℕ) → Queue A
  settled q e d = record q { enque = e; deque = d }

  -- What the producer knows: `e` is the counter before its call, `n` the number of values held.
  abbrev pub ProducerAt : Queue A → (e n : ℕ) → Producer A → Type 0
  ProducerAt q e n Producer.idle = q.enque ≡ e
  ProducerAt q e n (Producer.begun value) = q.enque ≡ e
  ProducerAt q e n (Producer.loaded value target) = (q.enque ≡ e) × (target ≡ e)
  ProducerAt q e n (Producer.compared value target id) =
      (q.enque ≡ e) × (target ≡ e) × (sub_u32 id target ≡ 0 → n < buffer_size)
  ProducerAt q e n (Producer.claimed value target) =
      (q.enque ≡ u32 (e + 1)) × (target ≡ e) × (n < buffer_size)
  ProducerAt q e n (Producer.written value target) =
      (q.enque ≡ u32 (e + 1))
      × (target ≡ e)
      × (n < buffer_size)
      × (q.buffer (bit_and target buffer_mask) ≡ value)

  -- What the consumer knows: `d` is the counter before its call, `held` the values held.
  abbrev pub ConsumerAt : Queue A → (d : ℕ) → List A → Consumer A → Type 0
  ConsumerAt q d held Consumer.idle = q.deque ≡ d
  ConsumerAt q d held Consumer.begun = q.deque ≡ d
  ConsumerAt q d held (Consumer.loaded target) = (q.deque ≡ d) × (target ≡ d)
  ConsumerAt q d held (Consumer.compared target id) =
      (q.deque ≡ d) × (target ≡ d) × (sub_u32 id (u32 (target + 1)) ≡ 0 → 0 < length held)
  ConsumerAt q d held (Consumer.claimed target) =
      (q.deque ≡ u32 (d + 1)) × (target ≡ d) × (0 < length held)
  ConsumerAt q d held (Consumer.copied target value) =
      (q.deque ≡ u32 (d + 1)) × (target ≡ d) × (get_elem? held 0 ≡ some value)

  pub record Tied (s : System A) : Type 0 where
    pub held : List A
    pub e : ℕ
    pub d : ℕ
    pub whole : s.pushed ≡ s.received ++ held
    pub holds : Holds (settled s.queue e d) (length s.received) held
    pub producer : ProducerAt s.queue e (length held) s.producer
    pub consumer : ConsumerAt s.queue d held s.consumer

  -- A sequence number that is the target's means that there is room.
  pub room_if_free :
      (q : Queue A) (e d taken : ℕ) (held : List A)
      → Holds (settled q e d) taken held
      → sub_u32 (q.sequence (bit_and e buffer_mask)) e ≡ 0
      → length held < buffer_size
  room_if_free q e d taken held h z =
      let most : length held ≤ buffer_size = h.bounded in ground (arith, enque_full _ taken held h)

  -- And one that is behind the target of the consumer means that there is a value.
  pub some_if_full :
      (q : Queue A) (e d taken : ℕ) (held : List A)
      → Holds (settled q e d) taken held
      → sub_u32 (q.sequence (bit_and d buffer_mask)) (u32 (d + 1)) ≡ 0
      → 0 < length held
  some_if_full q e d taken held h z = ground (arith, deque_empty _ taken held h)

  -- Scratch values in the slot that is filled next are not seen.
  pub Holds-scratch :
      (q : Queue A) (taken : ℕ) (held : List A) (value : A)
      → length held < buffer_size
      → Holds q taken held
      → Holds (record q { buffer = update q.buffer (bit_and q.enque buffer_mask) value }) taken held
  Holds-scratch q taken held value room h = record {
    bounded = h.bounded;
    at_deque = h.at_deque;
    at_enque = h.at_enque;
    full_slots = λ i lt.
        let (number, there) = h.full_slots i lt in
        let apart : bit_and q.enque buffer_mask ≢ (taken + i) % buffer_size =
          omega (arith, enque_slot q taken held h) in
        (number, there ∙ ap some (sym (update-ne q.buffer _ _ value apart)));
    free_slots = h.free_slots;
  }

  update_same : (b : ℕ → A) (i : ℕ) {v : A} → b i ≡ v → update b i v ≡ b
  update_same b i {v} same = fun_ext λ j. ground arith

  -- The number's store puts the value in.
  pub Holds-publish :
      (q : Queue A) (e d taken : ℕ) (held : List A) (value : A)
      → length held < buffer_size
      → q.buffer (bit_and e buffer_mask) ≡ value
      → Holds (settled q e d) taken held
      → Holds
          (record q {
            sequence = update q.sequence (bit_and e buffer_mask) (u32 (e + 1));
            enque = u32 (e + 1);
            deque = d;
          })
          taken
          (held ++ (value ∷ []))
  unfolding put
  Holds-publish q e d taken held value room there h =
      subst
        (λ b.
          Holds
            (record {
              sequence = update q.sequence (bit_and e buffer_mask) (u32 (e + 1));
              enque = u32 (e + 1);
              deque = d;
              buffer = b;
            })
            taken (held ++ (value ∷ [])))
        (update_same q.buffer (bit_and e buffer_mask) there)
        (put-Holds (settled q e d) taken held h value room)
