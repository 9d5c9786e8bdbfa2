-- ===== src/Queue/Handoff.antt =====
-- src/ConcurrentQueue.h: one thread in `TryEnque` and one in `TryDeque`, a shared access at a time and
-- in any order, as the program uses the queue: a thread fills its own, and the background thread
-- empties it.
-- `pushed` and `received` are the values that went in and came out so far, oldest first; the program
-- does not keep them.
pub mod Ties
pub mod Knowledge
pub mod Order
use Prim.Native.Nat.{bit_and}
use yardstick.Base.{update, ℕ, ◌+◌, ◌≡◌, Bool, true, false, List, [], ◌∷◌, ◌++◌}
use yardstick.Base.Words.{u32, sub_u32}
use yardstick.Queue.{Queue, buffer_mask, is_negative, empty_queue}

-- Where `TryEnque` stands: not called, before the load of `_enque`, before that of the sequence
-- number, before the exchange, before the store of the value, before that of the number.
pub data Producer {ℓ} (A : Type ℓ) : Type ℓ where
  idle : Producer A
  begun : A → Producer A
  loaded : A → (target : ℕ) → Producer A
  compared : A → (target id : ℕ) → Producer A
  claimed written : A → (target : ℕ) → Producer A

-- Where `TryDeque` stands.
pub data Consumer {ℓ} (A : Type ℓ) : Type ℓ where
  idle begun : Consumer A
  loaded : (target : ℕ) → Consumer A
  compared : (target id : ℕ) → Consumer A
  claimed : (target : ℕ) → Consumer A
  copied : (target : ℕ) → A → Consumer A

pub record System {ℓ} (A : Type ℓ) : Type ℓ where
  pub queue : Queue A
  pub producer : Producer A
  pub consumer : Consumer A
  pub pushed : List A
  pub received : List A

-- The steps of `TryEnque`. `again` is the loop's body: after an exchange that fails, or where
-- `delta` is positive.
pub data EnqueStep {ℓ} {A : Type ℓ} (s : System A) : System A → Type ℓ where
  begin : (value : A) → s.producer ≡ idle → EnqueStep s (record s { producer = begun value })
  load_enque :
      {value : A}
      → s.producer ≡ begun value
      → EnqueStep s (record s { producer = loaded value s.queue.enque })
  load_sequence :
      {value : A} {target : ℕ}
      → s.producer ≡ loaded value target
      → EnqueStep s (record s {
        producer = compared value target (s.queue.sequence (bit_and target buffer_mask));
      })
  claim :
      {value : A} {target id : ℕ}
      → s.producer ≡ compared value target id
      → sub_u32 id target ≡ 0
      → s.queue.enque ≡ target
      → EnqueStep s (record s {
        producer = claimed value target;
        queue = record s.queue { enque = u32 (target + 1) };
      })
  refuse :
      {value : A} {target id : ℕ}
      → s.producer ≡ compared value target id
      → is_negative (sub_u32 id target) ≡ true
      → EnqueStep s (record s { producer = idle })
  again :
      {value : A} {target id : ℕ}
      → s.producer ≡ compared value target id
      → is_negative (sub_u32 id target) ≡ false
      → EnqueStep s (record s { producer = begun value })
  write :
      {value : A} {target : ℕ}
      → s.producer ≡ claimed value target
      → EnqueStep s (record s {
        producer = written value target;
        queue = record s.queue {
          buffer = update s.queue.buffer (bit_and target buffer_mask) value;
        };
      })
  publish :
      {value : A} {target : ℕ}
      → s.producer ≡ written value target
      → EnqueStep s (record s {
        producer = idle;
        queue = record s.queue {
          sequence = update s.queue.sequence (bit_and target buffer_mask) (u32 (target + 1));
        };
        pushed = s.pushed ++ (value ∷ []);
      })

-- The steps of `TryDeque`.
pub data DequeStep {ℓ} {A : Type ℓ} (s : System A) : System A → Type ℓ where
  begin : s.consumer ≡ idle → DequeStep s (record s { consumer = begun })
  load_deque : s.consumer ≡ begun → DequeStep s (record s { consumer = loaded s.queue.deque })
  load_sequence :
      {target : ℕ}
      → s.consumer ≡ loaded target
      → DequeStep s
          (record s { consumer = compared target (s.queue.sequence (bit_and target buffer_mask)) })
  claim :
      {target id : ℕ}
      → s.consumer ≡ compared target id
      → sub_u32 id (u32 (target + 1)) ≡ 0
      → s.queue.deque ≡ target
      → DequeStep s (record s {
        consumer = claimed target;
        queue = record s.queue { deque = u32 (target + 1) };
      })
  refuse :
      {target id : ℕ}
      → s.consumer ≡ compared target id
      → is_negative (sub_u32 id (u32 (target + 1))) ≡ true
      → DequeStep s (record s { consumer = idle })
  again :
      {target id : ℕ}
      → s.consumer ≡ compared target id
      → is_negative (sub_u32 id (u32 (target + 1))) ≡ false
      → DequeStep s (record s { consumer = begun })
  copy :
      {target : ℕ}
      → s.consumer ≡ claimed target
      → DequeStep s
          (record s { consumer = copied target (s.queue.buffer (bit_and target buffer_mask)) })
  release :
      {target : ℕ} {value : A}
      → s.consumer ≡ copied target value
      → DequeStep s (record s {
        consumer = idle;
        queue = record s.queue {
          sequence =
              update s.queue.sequence (bit_and target buffer_mask) (u32 (target + buffer_mask + 1));
        };
        received = s.received ++ (value ∷ []);
      })

-- A new queue that nobody has called.
abbrev pub fresh_system {ℓ} : {A : Type ℓ} → (ℕ → A) → System A
fresh_system memory = record {
  queue = empty_queue memory;
  producer = idle;
  consumer = idle;
  pushed = [];
  received = [];
}

pub data Reach {ℓ} {A : Type ℓ} (memory : ℕ → A) : System A → Type ℓ where
  start : Reach memory (fresh_system memory)
  enque : {s t : System A} → Reach memory s → EnqueStep s t → Reach memory t
  deque : {s t : System A} → Reach memory s → DequeStep s t → Reach memory t
