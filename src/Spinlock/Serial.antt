-- ===== src/Spinlock/Serial.antt =====
-- src/Spinlock.h: what the lock guards, with operations that are read, compute and write.
use mathlib.Core.Path.{subst}
use native.Mathlib.Decide.{ℕ_discrete}
use yardstick.Base.{
  ◌≢◌, update_self, update-ne, Bool-cases, ℕ, ◌≡◌, refl, sym, ap, ◌∙◌, inl, inr, update, List, [],
  ◌∷◌, ◌++◌, false,
}
use yardstick.Spinlock.{
  Shared, Pc, outside, locking, entered, loaded, stored, Move, guard, retry, acquire, load, store,
  unlock, System, pick, Reach, start, later, holding,
}
use yardstick.Spinlock.Exclusion.{Owned, Reach-Owned}

module _ {ℓ} {A : Type ℓ} where
  -- The operations of a list, one after another.
  unfoldable pub apply_all : List (A → A) → A → A
  apply_all [] a = a
  apply_all (op ∷ ops) a = apply_all ops (op a)

  apply_all-snoc :
      (ops : List (A → A)) (op : A → A) (a : A)
      → apply_all (ops ++ (op ∷ [])) a ≡ op (apply_all ops a)
  unfolding apply_all
  apply_all-snoc [] op a = refl
  apply_all-snoc (o ∷ ops) op a = apply_all-snoc ops op (o a)

  -- What a thread has read is what is there.
  abbrev Current : Shared A → Pc A → Type ℓ
  Current m (loaded op a) = a ≡ m.guarded
  Current m _ = Unit

  record Sequential (init : A) (m : Shared A) (pc : ℕ → Pc A) : Type ℓ where
    value : m.guarded ≡ apply_all m.done init
    current : (i : ℕ) → Current m (pc i)

  not_holding-Current : (m : Shared A) (p : Pc A) → holding p ≡ false → Current m p
  not_holding-Current m outside h = tt
  not_holding-Current m (locking op) h = tt
  not_holding-Current m (entered op) h = cc
  not_holding-Current m (loaded op a) h = cc
  not_holding-Current m stored h = cc

  same-Current : (m m' : Shared A) (p : Pc A) → m.guarded ≡ m'.guarded → Current m p → Current m' p
  same-Current m m' outside e c = tt
  same-Current m m' (locking op) e c = tt
  same-Current m m' (entered op) e c = tt
  same-Current m m' (loaded op a) e c = c ∙ e
  same-Current m m' stored e c = tt

  module _ {m : Shared A} (pc : ℕ → Pc A) (i : ℕ) (o : Owned m pc) where
    -- The mover's own place is current, and the others' stay so.
    Move-others :
        {m' : Shared A} {p p' : Pc A}
        → Move m p m' p'
        → pc i ≡ p
        → ((j : ℕ) → Current m (pc j))
        → (j : ℕ) → i ≢ j
        → Current m' (pc j)
    Move-others {m'} (store {op} {a}) at c j ne =
        not_holding-Current m' (pc j) (elim (Bool-cases (holding (pc j))) [
          | inl h ↦ absurd (ne (o.unique i j (ap holding at) h))
          | inr h ↦ h
        ])
    Move-others guard at c j ne = c j
    Move-others retry at c j ne = c j
    Move-others {m'} (acquire w) at c j ne = same-Current m m' (pc j) refl (c j)
    Move-others load at c j ne = c j
    Move-others {m'} unlock at c j ne = same-Current m m' (pc j) refl (c j)

    Move-own : {m' : Shared A} {p p' : Pc A} → Move m p m' p' → Current m' p'
    Move-own guard = tt
    Move-own retry = tt
    Move-own (acquire w) = tt
    Move-own load = refl
    Move-own store = tt
    Move-own unlock = tt

    Move-Current :
        {m' : Shared A} {p p' : Pc A}
        → Move m p m' p'
        → pc i ≡ p
        → ((j : ℕ) → Current m (pc j))
        → (j : ℕ) → Current m' (update pc i p' j)
    Move-Current {m'} {p' = p'} mv at c j = elim (ℕ_discrete i j) [
      | yes e ↦
          subst (Current m') (sym (ap (update pc i p') (sym e) ∙ update_self pc i p')) (Move-own mv)
      | no ne ↦ subst (Current m') (sym (update-ne pc i j p' ne)) (Move-others mv at c j ne)
    ]

    Move-value :
        {m' : Shared A} {p p' : Pc A} (init : A)
        → Move m p m' p'
        → Current m p
        → m.guarded ≡ apply_all m.done init
        → m'.guarded ≡ apply_all m'.done init
    Move-value init (store {op} {a}) c v = ap op (c ∙ v) ∙ sym (apply_all-snoc m.done op init)
    Move-value init guard c v = v
    Move-value init retry c v = v
    Move-value init (acquire w) c v = v
    Move-value init load c v = v
    Move-value init unlock c v = v

  Reach-Sequential : {a : A} {s : System A} → Reach a s → Sequential a s.mem s.pc
  Reach-Sequential start = record { value = unfold apply_all in refl; current = λ i. tt }
  Reach-Sequential {a} (later {s} r (pick i mv)) =
      let q = Reach-Sequential r in
      record {
        value = Move-value s.pc i (Reach-Owned r) a mv (q.current i) q.value;
        current = Move-Current s.pc i (Reach-Owned r) mv refl q.current;
      }

  -- In every state that any number of threads come to through LockGuard, what the lock guards is
  -- what the operations stored so far make of it one after another: none is lost.
  pub guarded-apply_all :
      {a : A} {s : System A} → Reach a s → s.mem.guarded ≡ apply_all s.mem.done a
  guarded-apply_all r = (Reach-Sequential r).value
