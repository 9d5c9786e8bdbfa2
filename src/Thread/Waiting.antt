-- ===== src/Thread/Waiting.antt =====
-- src/ThreadState.cpp: how the wait of `Enque` for room in the queue ends.
use yardstick.Base.{
  some, ℕ, ◌<◌, ◌≡◌, refl, ap, ◌∙◌, Bool, true, false, List, [], ◌∷◌, ◌++◌, length, arith,
}
use yardstick.Queue.{Queue, buffer_size, try_enque}
use yardstick.Queue.Ring.{Holds}
use yardstick.Queue.Refine.{after_failures, try_enque-full, try_enque-success}
use yardstick.Thread.{Round, finished, enque_loop, enque}

-- In each of the rounds the library is active and the queue is full; afterwards it is `q'`.
pub data Waits {ℓ} {A : Type ℓ} : List (Round A) → Queue A → Queue A → Type ℓ where
  here : {q : Queue A} → Waits [] q q
  full :
      {r : Round A} {rs : List (Round A)} {q q' : Queue A} (taken : ℕ) (xs : List A) (n : ℕ)
      (rest : List Bool)
      → r.active ≡ true
      → r.outcomes ≡ after_failures n rest
      → Holds q taken xs
      → length xs ≡ buffer_size
      → Waits rs (r.between q) q'
      → Waits (r ∷ rs) q q'

module _ {ℓ} {A : Type ℓ} (value : A) where
  refused :
      (r : Round A) (q : Queue A) (taken : ℕ) (xs : List A) (n : ℕ) (rest : List Bool)
      → r.outcomes ≡ after_failures n rest
      → Holds q taken xs
      → length xs ≡ buffer_size
      → try_enque r.outcomes value q ≡ some (false, q)
  refused r q taken xs n rest e h l =
      ap (λ o. try_enque o value q) e ∙ try_enque-full q taken xs value n rest h l

  enque_loop-refused :
      (r : Round A) (rs : List (Round A)) (q : Queue A)
      → r.active ≡ true
      → try_enque r.outcomes value q ≡ some (false, q)
      → enque_loop (r ∷ rs) value q ≡ enque_loop rs value (r.between q)
  unfolding enque_loop
  enque_loop-refused r rs q on e = ground arith

  enque-refused :
      (r : Round A) (rs : List (Round A)) (q : Queue A)
      → r.active ≡ true
      → try_enque r.outcomes value q ≡ some (false, q)
      → enque r rs value q ≡ enque_loop rs value (r.between q)
  unfolding enque
  enque-refused r rs q on e = ground arith

  enque_loop-Waits :
      {rs : List (Round A)} {q q' : Queue A} (more : List (Round A))
      → Waits rs q q'
      → enque_loop (rs ++ more) value q ≡ enque_loop more value q'
  enque_loop-Waits more here = refl
  enque_loop-Waits more (full {r} {rs} {q} taken xs n rest on e h l waits) =
      enque_loop-refused r (rs ++ more) q on (refused r q taken xs n rest e h l)
      ∙ enque_loop-Waits more waits

  enque-Waits :
      {r : Round A} {rs : List (Round A)} {q q' : Queue A} (more : List (Round A))
      → Waits (r ∷ rs) q q'
      → enque r (rs ++ more) value q ≡ enque_loop more value q'
  enque-Waits {r} {rs} {q} more (full taken xs n rest on e h l waits) =
      enque-refused r (rs ++ more) q on (refused r q taken xs n rest e h l)
      ∙ enque_loop-Waits more waits

  -- An Enque that finds the queue full in one or more rounds while the library is active, and then
  -- finds it with room and the library still active, posts the signal and puts its event behind
  -- those that are there.
  pub enque-stored :
      {first : Round A} {rs : List (Round A)} {q q' : Queue A} (last : Round A)
      (more : List (Round A)) (taken : ℕ) (xs : List A) (n : ℕ) (rest : List Bool)
      → Waits (first ∷ rs) q q'
      → last.active ≡ true
      → last.outcomes ≡ after_failures n rest
      → Holds q' taken xs
      → length xs < buffer_size
      → (q'' : Queue A) × (enque first (rs ++ (last ∷ more)) value q ≡ finished true true q'')
        × Holds q'' taken (xs ++ (value ∷ []))
  enque-stored {q' = q'} last more taken xs n rest waits on e h room =
      let (q'', stored, h') = try_enque-success q' taken xs value n rest h room in
      (q'', enque-Waits (last ∷ more) waits ∙ (unfold enque_loop in rw (on, e, stored)), h')

  -- An Enque that finds the queue full in one or more rounds while the library is active, and then
  -- finds the library shut down, returns without having put its event in.
  pub enque-dropped :
      {first : Round A} {rs : List (Round A)} {q q' : Queue A} (last : Round A)
      (more : List (Round A))
      → Waits (first ∷ rs) q q'
      → last.active ≡ false
      → enque first (rs ++ (last ∷ more)) value q ≡ finished false true q'
  enque-dropped last more waits off =
      enque-Waits (last ∷ more) waits ∙ (unfold enque_loop in rw off)
