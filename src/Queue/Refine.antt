-- ===== src/Queue/Refine.antt =====
-- src/ConcurrentQueue.h against a bounded queue: a list of at most 512 values, oldest first.
use yardstick.Base.{
  ℕ, zero, suc, ◌+◌, ◌<◌, ◌≡◌, refl, none, some, Bool, true, false, List, [], ◌∷◌, ◌++◌, length,
  arith,
}
use yardstick.Queue.{Queue, buffer_size, enque, try_enque, try_deque}
use yardstick.Queue.Ring.{
  Holds, put, put-Holds, got, got-Holds, enque_full, enque_free, deque_empty, deque_some,
}

-- Outcomes of the exchange: it fails `n` times for no reason, and then succeeds.
abbrev pub after_failures : ℕ → List Bool → List Bool
after_failures zero rest = true ∷ rest
after_failures (suc n) rest = false ∷ after_failures n rest

module _ {ℓ} {A : Type ℓ} (q : Queue A) (taken : ℕ) where
  -- On a queue with 512 values TryEnque returns false and changes nothing.
  pub try_enque-full :
      (xs : List A) (value : A) (n : ℕ) (rest : List Bool)
      → Holds q taken xs
      → length xs ≡ buffer_size
      → try_enque (after_failures n rest) value q ≡ some (false, q)
  unfolding try_enque
  try_enque-full xs value zero rest h e = let f = enque_full q taken xs h e in ground arith
  try_enque-full xs value (suc n) rest h e = let f = enque_full q taken xs h e in ground arith

  -- On a queue with fewer than 512 values TryEnque puts its value behind those that are there, at
  -- any position of the 32-bit counters and however often the exchange fails for no reason first.
  pub try_enque-success :
      (xs : List A) (value : A) (n : ℕ) (rest : List Bool)
      → Holds q taken xs
      → length xs < buffer_size
      → (q' : Queue A) × (try_enque (after_failures n rest) value q ≡ some (true, q'))
        × Holds q' taken (xs ++ (value ∷ []))
  unfolding try_enque put
  try_enque-success xs value zero rest h lt =
      let f = enque_free q taken xs h lt in
      (put q taken xs h value, ground arith, put-Holds q taken xs h value lt)
  try_enque-success xs value (suc n) rest h lt =
      let f = enque_free q taken xs h lt in
      let (q', e, h') = try_enque-success xs value n rest h lt in (q', ground arith, h')

  -- On an empty queue TryDeque returns false and changes nothing.
  pub try_deque-empty :
      (n : ℕ) (rest : List Bool)
      → Holds q taken []
      → try_deque (after_failures n rest) q ≡ some (none, q)
  unfolding try_deque
  try_deque-empty zero rest h = let f = deque_empty q taken [] h refl in ground arith
  try_deque-empty (suc n) rest h = let f = deque_empty q taken [] h refl in ground arith

  -- On a queue that is not empty TryDeque gives the oldest value and leaves the others in order, at
  -- any position of the 32-bit counters and however often the exchange fails for no reason first.
  pub try_deque-success :
      (x : A) (xs : List A) (n : ℕ) (rest : List Bool)
      → Holds q taken (x ∷ xs)
      → (q' : Queue A) × (try_deque (after_failures n rest) q ≡ some (some x, q'))
        × Holds q' (taken + 1) xs
  unfolding try_deque got
  try_deque-success x xs zero rest h =
      let (zero_delta, value) = deque_some q taken (x ∷ xs) h (omega arith) in
      (got q taken x xs h, ground arith, got-Holds q taken x xs h)
  try_deque-success x xs (suc n) rest h =
      let (zero_delta, value) = deque_some q taken (x ∷ xs) h (omega arith) in
      let (q', e, h') = try_deque-success x xs n rest h in (q', ground arith, h')

-- Enque that finds the queue full at first, and then, after what the others do, with room, puts its
-- value behind those that are there.
pub enque-later {ℓ} :
    {A : Type ℓ} (q : Queue A) (taken : ℕ) (xs : List A) (value : A) (n m : ℕ)
    (rest rest' : List Bool) (between between' : Queue A → Queue A) (taken' : ℕ) (ys : List A)
    (tries : List (List Bool × (Queue A → Queue A)))
    → Holds q taken xs
    → length xs ≡ buffer_size
    → Holds (between q) taken' ys
    → length ys < buffer_size
    → (q' : Queue A) × (enque
          ((after_failures n rest, between) ∷ (after_failures m rest', between') ∷ tries)
          value
          q
        ≡ some q')
      × Holds q' taken' (ys ++ (value ∷ []))
unfolding enque
enque-later q taken xs value n m rest rest' between between' taken' ys tries h full h' room =
    let refused = try_enque-full q taken xs value n rest h full in
    let (q', stored, held) = try_enque-success (between q) taken' ys value m rest' h' room in
    (q', rw (refused, enque) (rw (stored, enque) refl), held)
