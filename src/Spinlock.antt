-- ===== src/Spinlock.antt =====
-- src/Spinlock.h: any number of threads, each of which takes the lock through a `LockGuard`, reads
-- the data that the lock guards, writes it and lets the guard go, a shared access at a time and in
-- any order.
pub mod Exclusion
pub mod Serial
use yardstick.Base.{ℕ, ◌≡◌, update, List, [], ◌∷◌, ◌++◌, Bool, true, false}

-- `_state` of the lock, and what it guards. `done` is the list of the operations whose results have
-- been stored, in order; the program does not keep it.
pub record Shared {ℓ} (A : Type ℓ) : Type ℓ where
  pub word : ℕ
  pub guarded : A
  pub done : List (A → A)

-- Where a thread stands, with its operation and what it has read.
pub data Pc {ℓ} (A : Type ℓ) : Type ℓ where
  outside : Pc A
  locking : (A → A) → Pc A
  entered : (A → A) → Pc A
  loaded : (A → A) → A → Pc A
  stored : Pc A

-- A step of a thread. `compare_exchange_weak` may fail though the word is 0, and sets `expected`,
-- which the loop of `Lock` puts back to 0.
pub data Move {ℓ} {A : Type ℓ} (m : Shared A) : Pc A → Shared A → Pc A → Type ℓ where
  guard : {op : A → A} → Move m outside m (locking op)
  retry : {op : A → A} → Move m (locking op) m (locking op)
  acquire : {op : A → A} → m.word ≡ 0 → Move m (locking op) (record m { word = 1 }) (entered op)
  load : {op : A → A} → Move m (entered op) m (loaded op m.guarded)
  store :
      {op : A → A} {a : A}
      → Move m (loaded op a) (record m { guarded = op a; done = m.done ++ (op ∷ []) }) stored
  unlock : Move m stored (record m { word = 0 }) outside

-- The threads over one lock.
pub record System {ℓ} (A : Type ℓ) : Type ℓ where
  pub mem : Shared A
  pub pc : ℕ → Pc A

pub data Step {ℓ} {A : Type ℓ} (s : System A) : System A → Type ℓ where
  pick :
      (i : ℕ) {m : Shared A} {p : Pc A}
      → Move s.mem (s.pc i) m p
      → Step s (record { mem = m; pc = update s.pc i p })

-- The constructor of the lock, with no thread at it.
abbrev pub fresh_lock {ℓ} : {A : Type ℓ} → A → System A
fresh_lock a = record { mem = record { word = 0; guarded = a; done = [] }; pc = λ i. outside }

pub data Reach {ℓ} {A : Type ℓ} (a : A) : System A → Type ℓ where
  start : Reach a (fresh_lock a)
  later : {s t : System A} → Reach a s → Step s t → Reach a t

-- Between the return of `Lock` and the store of `Unlock`.
abbrev pub holding {ℓ} : {A : Type ℓ} → Pc A → Bool
holding outside = false
holding (locking op) = false
holding _ = true
