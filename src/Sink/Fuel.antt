-- ===== src/Sink/Fuel.antt =====
-- src/WebsocketSink.cpp: a walk over the sessions that ends does not depend on the fuel.
use yardstick.Base.{
  ℕ, zero, suc, ◌≡◌, ◌≢◌, ◌≤◌, ◌⊎◌, inl, inr, refl, sym, ◌∙◌, Option, none, some, ◌==◌, ==_iff,
  Bool-cases, arith,
}
use yardstick.Api.{YsResult}
use yardstick.Session.{Session, Outcome, finished, crashed}
use yardstick.Sink.{Node, Sink, Walk, ended, fault, unfinished, load, for_each}
use yardstick.Sink.Every.{for_each-step}

node-cases : (v : Option Node) → (v ≡ none) ⊎ ((n : Node) × (v ≡ some n))
node-cases none = inl refl
node-cases (some n) = inr (n, refl)

outcome-cases :
    (o : Outcome) → (o ≡ crashed) ⊎ ((r : YsResult) × (t : Session) × (o ≡ finished r t))
outcome-cases crashed = inl refl
outcome-cases (finished r t) = inr (r, t, refl)

module _ (op : Session → Outcome) where
  for_each-dead :
      (fuel p : ℕ) (s : Sink) → p ≢ 0 → s.heap p ≡ none → for_each op (suc fuel) p s ≡ fault
  unfolding for_each load
  for_each-dead fuel p s nz dead = ground arith

  for_each-crashed :
      (fuel p : ℕ) (s : Sink) (n : Node)
      → p ≢ 0
      → s.heap p ≡ some n
      → op n.session ≡ crashed
      → for_each op (suc fuel) p s ≡ fault
  unfolding for_each load
  for_each-crashed fuel p s n nz live bad = ground arith

  for_each-null : (fuel p : ℕ) (s : Sink) → p ≡ 0 → for_each op (suc fuel) p s ≡ ended s
  unfolding for_each
  for_each-null fuel p s null = ground arith

  for_each-zero : (p : ℕ) (s : Sink) → for_each op zero p s ≡ unfinished
  unfolding for_each
  for_each-zero p s = refl

  faulty : {w : Walk Sink} {s' : Sink} → w ≡ fault → w ≢ ended s'
  faulty f e = cc

  endless : {w : Walk Sink} {s' : Sink} → w ≡ unfinished → w ≢ ended s'
  endless f e = cc

  -- A walk that ends does so with more fuel too.
  pub for_each-more :
      (fuel fuel' p : ℕ) (s : Sink) {s' : Sink}
      → fuel ≤ fuel'
      → for_each op fuel p s ≡ ended s'
      → for_each op fuel' p s ≡ ended s'
  for_each-more zero fuel' p s h e = absurd (endless (for_each-zero p s) e)
  for_each-more (suc fuel) zero p s h e = absurd (omega arith)
  for_each-more (suc fuel) (suc fuel') p s h e = elim (Bool-cases (p == 0)) [
    | inl null ↦
        let z : p ≡ 0 = (==_iff _ _).0 null in
        for_each-null fuel' p s z ∙ sym (for_each-null fuel p s z) ∙ e
    | inr here ↦
        let nz : p ≢ 0 = ground arith in
        elim (node-cases (s.heap p)) [
          | inl dead ↦ absurd (faulty (for_each-dead fuel p s nz dead) e)
          | inr (n, live) ↦ elim (outcome-cases (op n.session)) [
            | inl bad ↦ absurd (faulty (for_each-crashed fuel p s n nz live bad) e)
            | inr (r, t, done) ↦
                for_each-step op fuel' p p s n r t refl nz live done
                ∙ for_each-more fuel fuel' n.next _ (omega arith)
                    (sym (for_each-step op fuel p p s n r t refl nz live done) ∙ e)
          ]
        ]
  ]
