-- ===== src/Queue.antt =====
-- src/ConcurrentQueue.h: the bounded queue of a thread's events, `kBufferSize` 512, as one caller
-- at a time uses it.
-- An array is a function of the index. The outcomes of `compare_exchange_weak` are an argument: it
-- may fail though the value is the expected one.
pub mod Ring
pub mod Refine
pub mod Handoff
use Prim.Native.Nat.{bit_and}
use yardstick.Base.{
  update, ℕ, zero, suc, ◌+◌, ◌-◌, ◌^◌, ◌==◌, leb, if◌then◌else◌, Bool, true, false, ◌&&◌, Option,
  none, some, List, [], ◌∷◌,
}
use yardstick.Base.Words.{u32, sub_u32}

abbrev pub buffer_size : ℕ
buffer_size = 512

abbrev pub buffer_mask : ℕ
buffer_mask = buffer_size - 1

pub record Queue {ℓ} (A : Type ℓ) : Type ℓ where
  pub sequence : ℕ → ℕ
  pub enque : ℕ
  pub deque : ℕ
  pub buffer : ℕ → A

-- The constructor, over what the buffer's memory holds.
unfoldable pub empty_queue {ℓ} : {A : Type ℓ} → (ℕ → A) → Queue A
empty_queue memory = record { sequence = λ i. i; enque = 0; deque = 0; buffer = memory }

-- `delta < 0` for a `std::int32_t delta` that is assigned the difference `diff` of two uint32.
abbrev pub is_negative : ℕ → Bool
is_negative diff = leb (2 ^ 31) diff

module _ {ℓ} {A : Type ℓ} where
  -- `TryEnque`: whether it went in, and the queue; `none` while it is still trying after the
  -- given outcomes.
  unfoldable pub try_enque : List Bool → A → Queue A → Option (Bool × Queue A)
  try_enque [] value q = none
  try_enque (exchanged ∷ outcomes) value q =
      let target = q.enque in
      let delta = sub_u32 (q.sequence (bit_and target buffer_mask)) target in
      let again = try_enque outcomes value q in
      if (delta == 0) && exchanged
      then some (
        true,
        record q {
          enque = u32 (target + 1);
          buffer = update q.buffer (bit_and target buffer_mask) value;
          sequence = update q.sequence (bit_and target buffer_mask) (u32 (target + 1));
        },
      )
      else if is_negative delta
      then some (false, q)
      else again

  -- `TryDeque`: the value that came out, if one did.
  unfoldable pub try_deque : List Bool → Queue A → Option (Option A × Queue A)
  try_deque [] q = none
  try_deque (exchanged ∷ outcomes) q =
      let target = q.deque in
      let delta = sub_u32 (q.sequence (bit_and target buffer_mask)) (u32 (target + 1)) in
      let again = try_deque outcomes q in
      if (delta == 0) && exchanged
      then some (
        some (q.buffer (bit_and target buffer_mask)),
        record q {
          deque = u32 (target + 1);
          sequence =
              update q.sequence (bit_and target buffer_mask) (u32 (target + buffer_mask + 1));
        },
      )
      else if is_negative delta
      then some (none, q)
      else again

  -- `Enque`, which tries until the value is in. Each try is an argument: its outcomes, and what the
  -- other callers do to the queue before the next one.
  unfoldable pub enque : List (List Bool × (Queue A → Queue A)) → A → Queue A → Option (Queue A)
  enque [] value q = none
  enque ((outcomes, between) ∷ tries) value q =
      let later : Queue A → Option (Queue A) = enque tries value in
      elim (try_enque outcomes value q) [
        | none ↦ none
        | some (true, q') ↦ some q'
        | some (false, q') ↦ later (between q')
      ]
