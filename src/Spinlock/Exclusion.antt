-- ===== src/Spinlock/Exclusion.antt =====
-- src/Spinlock.h: who holds the lock.
use yardstick.Base.{refl, ℕ, ◌≡◌, ◌⊎◌, inl, inr, update, true, false, arith}
use yardstick.Spinlock.{
  Shared, Pc, locking, entered, Move, guard, retry, acquire, load, store, unlock, System, Step,
  pick, Reach, start, later, holding,
}

module _ {ℓ} {A : Type ℓ} where
  -- The word is 0 or 1: no thread holds the lock or one does, and two threads never do.
  pub record Owned (m : Shared A) (pc : ℕ → Pc A) : Type ℓ where
    pub bit : (m.word ≡ 0) ⊎ (m.word ≡ 1)
    pub free : m.word ≡ 0 → (i : ℕ) → holding (pc i) ≡ false
    pub held : m.word ≡ 1 → (i : ℕ) × (holding (pc i) ≡ true)
    pub unique : (i j : ℕ) → holding (pc i) ≡ true → holding (pc j) ≡ true → i ≡ j

  module _ {m : Shared A} (pc : ℕ → Pc A) (i : ℕ) (o : Owned m pc) where
    Move-unique :
        {m' : Shared A} {p p' : Pc A}
        → Move m p m' p'
        → pc i ≡ p
        → (j k : ℕ) → holding (update pc i p' j) ≡ true
        → holding (update pc i p' k) ≡ true
        → j ≡ k
    Move-unique (acquire w) at j k hj hk = ground (arith, o.free w j, o.free w k)
    Move-unique guard at j k hj hk = ground (arith, o.unique j k)
    Move-unique retry at j k hj hk = ground (arith, o.unique j k)
    Move-unique load at j k hj hk = ground (arith, o.unique j k, o.unique i j, o.unique i k)
    Move-unique store at j k hj hk = ground (arith, o.unique j k, o.unique i j, o.unique i k)
    Move-unique unlock at j k hj hk = ground (arith, o.unique j k)

    Move-free :
        {m' : Shared A} {p p' : Pc A}
        → Move m p m' p'
        → pc i ≡ p
        → m'.word ≡ 0
        → (j : ℕ) → holding (update pc i p' j) ≡ false
    Move-free guard at z j = ground (arith, o.free z j)
    Move-free retry at z j = ground (arith, o.free z j)
    Move-free (acquire w) at z j = absurd (omega arith)
    Move-free load at z j = ground (arith, o.free z i)
    Move-free store at z j = ground (arith, o.free z i)
    Move-free unlock at z j = ground (arith, o.unique i j)

    Move-held :
        {m' : Shared A} {p p' : Pc A}
        → Move m p m' p'
        → pc i ≡ p
        → m'.word ≡ 1
        → (j : ℕ) × (holding (update pc i p' j) ≡ true)
    Move-held guard at z = let (j, h) = o.held z in (j, ground arith)
    Move-held retry at z = let (j, h) = o.held z in (j, ground arith)
    Move-held (acquire w) at z = (i, ground arith)
    Move-held load at z = (i, ground arith)
    Move-held store at z = (i, ground arith)
    Move-held unlock at z = absurd (omega arith)

    Move-bit : {m' : Shared A} {p p' : Pc A} → Move m p m' p' → (m'.word ≡ 0) ⊎ (m'.word ≡ 1)
    Move-bit guard = o.bit
    Move-bit retry = o.bit
    Move-bit (acquire w) = inr refl
    Move-bit load = o.bit
    Move-bit store = o.bit
    Move-bit unlock = inl refl

  pub Step-Owned : {s t : System A} → Step s t → Owned s.mem s.pc → Owned t.mem t.pc
  Step-Owned {s} (pick i mv) o = record {
    bit = Move-bit s.pc i o mv;
    free = Move-free s.pc i o mv refl;
    held = Move-held s.pc i o mv refl;
    unique = Move-unique s.pc i o mv refl;
  }

  pub Reach-Owned : {a : A} {s : System A} → Reach a s → Owned s.mem s.pc
  Reach-Owned start = record {
    bit = inl refl;
    free = λ z i. refl;
    held = λ z. absurd (omega arith);
    unique = λ i j h k. cc;
  }
  Reach-Owned (later r st) = Step-Owned st (Reach-Owned r)

  -- In every state that any number of threads come to through LockGuard, at most one of them is
  -- between the return of Lock and the store of Unlock.
  pub holding_unique :
      {a : A} {s : System A}
      → Reach a s
      → (i j : ℕ) → holding (s.pc i) ≡ true
      → holding (s.pc j) ≡ true
      → i ≡ j
  holding_unique r = (Reach-Owned r).unique

  -- Whenever a thread is in the loop of Lock, some thread holds the lock or there is a step that
  -- gives it to that thread.
  pub locking_progress :
      {a : A} {s : System A}
      → Reach a s
      → (i : ℕ) {op : A → A} → s.pc i ≡ locking op
      → ((j : ℕ) × (holding (s.pc j) ≡ true))
        ⊎ ((t : System A) × Step s t × (holding (t.pc i) ≡ true))
  locking_progress {s = s} r i {op} e = elim (Reach-Owned r).bit [
    | inl w ↦
        let mv : Move s.mem (s.pc i) (record s.mem { word = 1 }) (entered op) = rw e (acquire w) in
        inr (_, pick i mv, ground arith)
    | inr w ↦ inl ((Reach-Owned r).held w)
  ]
