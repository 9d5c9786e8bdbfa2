-- ===== src/Tests/Locks.antt =====
-- Examples for src/Spinlock.h, src/Signal.h and src/Atomics.h.
use yardstick.Base.{ℕ, suc, ◌⊎◌, ◌≡◌, ◌≢◌, refl, true, false, [], ◌∷◌, update}
use yardstick.Spinlock.{
  System, Step, outside, locking, entered, loaded, stored, guard, acquire, load, store, pick, Reach,
  start, later, holding,
}
use yardstick.Spinlock.Exclusion.{holding_unique, locking_progress}
use yardstick.Spinlock.Serial.{apply_all, guarded-apply_all}
use yardstick.Signal.{Signal, away, checking, missed, asleep, arrive}
use yardstick.Signal.Waking.{During, here, wait, ready-awake, post_lost}

-- The thread 3 adds one to what the lock guards, which is 5 at first.
abbrev add_one : ℕ → ℕ
add_one n = suc n

abbrev inside : System ℕ
inside = record {
  mem = record { word = 1; guarded = 5; done = [] };
  pc = update (update (λ i. outside) 3 (locking add_one)) 3 (entered add_one);
}

inside-Reach : Reach 5 inside
inside-Reach = later (later start (pick 3 guard)) (pick 3 (acquire refl))

holding_unique_example : ◌≡◌ {A = ℕ} 3 3
holding_unique_example = holding_unique inside-Reach 3 3 refl refl

abbrev written : System ℕ
written = record {
  mem = record { word = 1; guarded = 6; done = add_one ∷ [] };
  pc = update (update inside.pc 3 (loaded add_one 5)) 3 stored;
}

written-Reach : Reach 5 written
written-Reach = later (later inside-Reach (pick 3 load)) (pick 3 store)

guarded-apply_all_example : 6 ≡ apply_all (add_one ∷ []) 5
guarded-apply_all_example = guarded-apply_all written-Reach

-- A signal that has been posted, and a wait that begins.
abbrev posted : Signal
posted = record { ready = true; pending = 1; waiter = away }

abbrev arrived : Signal
arrived = record { ready = true; pending = 1; waiter = checking }

ready-awake_example : (arrived.waiter ≢ asleep) × (arrived.ready ≡ true)
ready-awake_example = ready-awake {s = posted} refl refl (wait here (arrive refl) (λ e. cc))

-- A wait that has found the flag unset and is about to block.
abbrev before_block : Signal
before_block = record { ready = false; pending = 0; waiter = missed }

post_lost_example :
    (t : Signal) × During before_block t × (t.waiter ≡ asleep) × (t.ready ≡ true) × (t.pending ≡ 0)
post_lost_example = post_lost before_block refl

-- The thread 4 comes to the lock while the thread 3 holds it.
abbrev waiting : System ℕ
waiting = record { mem = inside.mem; pc = update inside.pc 4 (locking add_one) }

locking_progress_example :
    ((j : ℕ) × (holding (waiting.pc j) ≡ true))
    ⊎ ((t : System ℕ) × Step waiting t × (holding (t.pc 4) ≡ true))
locking_progress_example = locking_progress (later inside-Reach (pick 4 guard)) 4 refl
