-- ===== src/Sink/Every.antt =====
-- src/WebsocketSink.cpp: the loops of `WriteEvent` and `Flush` over all sessions.
use yardstick.Base.{
  ℕ, zero, suc, ◌≡◌, ◌≢◌, ◌<◌, refl, sym, ap, ◌∙◌, Option, some, List, [], ◌∷◌, All, length, arith,
  update, update_self, update-ne,
}
use yardstick.Api.{YsResult}
use yardstick.Session.{Session, Outcome, finished}
use yardstick.Sink.{Node, Sink, ended, load, store, for_each}
use yardstick.Sink.Chain.{Chain, Distinct, Chain-update}

module _ (op : Session → Outcome) where
  -- The operation finishes on each session of a list.
  abbrev pub Finishes : (ℕ → Option Node) → List ℕ → Type 0
  Finishes heap [] = Unit
  Finishes heap (x ∷ xs) =
      ((n : Node) × (heap x ≡ some n)
        × ((r : YsResult) × (t : Session) × (op n.session ≡ finished r t)))
      × Finishes heap xs

  -- Each session of a list is what the operation leaves of it, with the links that it had.
  abbrev pub Served : (ℕ → Option Node) → (ℕ → Option Node) → List ℕ → Type 0
  Served heap heap' [] = Unit
  Served heap heap' (x ∷ xs) =
      ((n : Node) × (heap x ≡ some n)
        × ((r : YsResult) × (t : Session) × (op n.session ≡ finished r t)
            × (heap' x ≡ some (record n { session = t }))))
      × Served heap heap' xs

  Finishes-update :
      (heap : ℕ → Option Node) (q : ℕ) (v : Option Node) (xs : List ℕ)
      → All (λ x. x ≢ q) xs
      → Finishes heap xs
      → Finishes (update heap q v) xs
  Finishes-update heap q v [] out f = tt
  Finishes-update heap q v (x ∷ xs) (ne, out) ((n, here, done), f) =
      ((n, update-ne heap q x v (λ e. ne (sym e)) ∙ here, done), Finishes-update heap q v xs out f)

  Served-before :
      (heap heap' : ℕ → Option Node) (q : ℕ) (v : Option Node) (xs : List ℕ)
      → All (λ x. x ≢ q) xs
      → Served (update heap q v) heap' xs
      → Served heap heap' xs
  Served-before heap heap' q v [] out s = tt
  Served-before heap heap' q v (x ∷ xs) (ne, out) ((n, here, done), s) = (
    (n, sym (update-ne heap q x v (λ e. ne (sym e))) ∙ here, done),
    Served-before heap heap' q v xs out s,
  )

  pub for_each-step :
      (fuel p x : ℕ) (s : Sink) (n : Node) (r : YsResult) (t : Session)
      → p ≡ x
      → x ≢ 0
      → s.heap x ≡ some n
      → op n.session ≡ finished r t
      → for_each op (suc fuel) p s ≡ for_each op fuel n.next (store x (record n { session = t }) s)
  unfolding for_each load store
  for_each-step fuel p x s n r t e nz here done = ground arith

  pub for_each-Served :
      (xs : List ℕ) (fuel p : ℕ) (s : Sink)
      → Chain s.heap p xs
      → Distinct xs
      → Finishes s.heap xs
      → length xs < fuel
      → (s' : Sink) × (for_each op fuel p s ≡ ended s')
        × (s'.sessions ≡ s.sessions)
        × Chain s'.heap p xs
        × Served s.heap s'.heap xs
        × ((y : ℕ) → All (λ x. x ≢ y) xs → s'.heap y ≡ s.heap y)
  unfolding store
  for_each-Served xs zero p s c d f h = absurd (omega arith)
  for_each-Served [] (suc fuel) p s c d f h =
      (s, (unfold for_each in rw c), refl, c, tt, λ y out. refl)
  for_each-Served (x ∷ xs) (suc fuel) p s (e, nz, (n, here, prev, rest)) (out, d)
        ((m, there, (r, t, done)), f) h =
      let one : m ≡ n = let z = sym there ∙ here in cc in
      let n' : Node = record n { session = t } in
      let s1 : Sink = store x n' s in
      let (s', ends, same, chain, served, others) =
        for_each-Served xs fuel n.next s1 (Chain-update s.heap n.next x (some n') xs out rest) d
          (Finishes-update s.heap x (some n') xs out f) (omega arith) in
      let kept : s'.heap x ≡ some n' = others x out ∙ update_self s.heap x (some n') in
      (
        s',
        for_each-step fuel p x s n r t e nz here (ap (λ k. op k.session) (sym one) ∙ done) ∙ ends,
        same,
        (e, nz, (n', kept, prev, chain)),
        (
          (n, here, (r, t, ap (λ k. op k.session) (sym one) ∙ done, kept)),
          Served-before s.heap s'.heap x (some n') xs out served,
        ),
        λ y (ne, outs). others y outs ∙ update-ne s.heap x y (some n') ne,
      )
