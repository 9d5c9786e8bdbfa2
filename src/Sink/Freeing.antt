-- ===== src/Sink/Freeing.antt =====
-- src/WebsocketSink.cpp: which blocks `Close` gives back to the allocator.
use mathlib.Core.Path.{subst}
use yardstick.Base.{
  some_inj, update, update_self, update-ne, ℕ, zero, suc, ◌≡◌, ◌≢◌, ◌<◌, refl, sym, ap, ◌∙◌, Option,
  none, some, List, [], ◌∷◌, All, Bool, true, false, length, arith, ◌==◌, if◌then◌else◌,
}
use native.Mathlib.Decide.{ℕ_discrete}
use yardstick.Sink.{Node, Sink, store, destroy_session, ended, destroy_all}
use yardstick.Sink.Chain.{IsValid}
use yardstick.Sink.Destroy.{
  removed, live-removed, heap-removed, destroy_session-last, destroy_session-linked,
  destroy_session-first,
}

-- The block of the buffer of the session at an address.
unfoldable pub buffer_at : (ℕ → Option Node) → ℕ → ℕ
buffer_at heap x = elim (heap x) [ none ↦ 0 | some n ↦ n.buffer_block ]

-- Whether a block is that of a session of a list, or of its buffer.
unfoldable pub is_freed : (ℕ → Option Node) → List ℕ → ℕ → Bool
is_freed heap [] z = false
is_freed heap (x ∷ xs) z =
    if x == z then true else if buffer_at heap x == z then true else is_freed heap xs z

pub buffer_at-some :
    (heap : ℕ → Option Node) (x : ℕ) {n : Node}
    → heap x ≡ some n
    → buffer_at heap x ≡ n.buffer_block
unfolding buffer_at
buffer_at-some heap x here = ap (λ v. elim v [ none ↦ 0 | some n ↦ n.buffer_block ]) here

buffer_at-update :
    (heap : ℕ → Option Node) (p y : ℕ) (v : Option Node)
    → p ≢ y
    → buffer_at (update heap p v) y ≡ buffer_at heap y
unfolding buffer_at
buffer_at-update heap p y v ne =
    ap (λ v. elim v [ none ↦ 0 | some n ↦ n.buffer_block ]) (update-ne heap p y v ne)

-- A write that leaves the buffer.
buffer_at-stored :
    (heap : ℕ → Option Node) (p y : ℕ) (m : Node)
    → heap p ≡ some m
    → buffer_at (update heap p (some (record m { prev = 0 }))) y ≡ buffer_at heap y
buffer_at-stored heap p y m here = elim (ℕ_discrete p y) [
  | yes e ↦
      let there : update heap p (some (record m { prev = 0 })) y ≡ some (record m { prev = 0 }) =
        ap (update heap p _) (sym e) ∙ update_self heap p _ in
      buffer_at-some _ y there ∙ sym (buffer_at-some heap y (ap heap (sym e) ∙ here))
  | no ne ↦ buffer_at-update heap p y _ ne
]

-- DestroySession on the first session of a whole list takes back its block and its buffer's, and
-- leaves the other blocks and the buffers of the other sessions.
pub record Freed (s s' : Sink) (x : ℕ) : Type 0 where
  pub live :
      (z : ℕ)
      → z ≢ 0
      → s'.live z ≡ (if x == z then false else if buffer_at s.heap x == z then false else s.live z)
  pub others : (y : ℕ) → x ≢ y → buffer_at s'.heap y ≡ buffer_at s.heap y

removed-Freed :
    (s s1 : Sink) (x : ℕ) (n : Node)
    → s.heap x ≡ some n
    → s1.live ≡ s.live
    → ((y : ℕ) → buffer_at s1.heap y ≡ buffer_at s.heap y)
    → Freed s (removed x n s1) x
removed-Freed s s1 x n here same kept = record {
  live = λ z nz. live-removed x n s1 z nz ∙ rw (buffer_at-some s.heap x here, same) refl;
  others = λ y ne.
      ap (λ h. buffer_at h y) (heap-removed x n s1) ∙ buffer_at-update s1.heap x y none ne ∙ kept y;
}

pub destroy_session-Freed :
    (s : Sink) (x : ℕ) (xs : List ℕ) {s' : Sink}
    → IsValid s (x ∷ xs)
    → destroy_session x s ≡ some s'
    → Freed s s' x
unfolding store
destroy_session-Freed s x [] v gone =
    let (e, nz, (n, here, prev, next)) = v.chain in
    subst (λ k. Freed s k x) (some_inj (sym (destroy_session-last s x n here prev next) ∙ gone))
      (removed-Freed s s x n here refl (λ y. refl))
destroy_session-Freed s x (y ∷ ys) v gone =
    let (e, nz, (n, here, prev, (next, nz', (m, there, prev', rest)))) = v.chain in
    let (out, (out', distinct)) = v.distinct in
    let behind : s.heap n.next ≡ some m = ap s.heap next ∙ there in
    let unlinked =
      destroy_session-linked s x n m here prev (λ z. nz' (sym next ∙ z)) (λ z. out.0 (sym next ∙ z))
        behind in
    subst (λ k. Freed s k x) (some_inj (sym unlinked ∙ gone))
      (removed-Freed s (store n.next (record m { prev = 0 }) s) x n here refl
        (λ z. buffer_at-stored s.heap n.next z m behind))

is_freed-kept :
    (s s' : Sink) (x : ℕ) (xs : List ℕ) (z : ℕ)
    → Freed s s' x
    → All (λ y. y ≢ x) xs
    → is_freed s'.heap xs z ≡ is_freed s.heap xs z
unfolding is_freed
is_freed-kept s s' x [] z f out = refl
is_freed-kept s s' x (y ∷ ys) z f (ne, out) =
    rw (f.others y (λ e. ne (sym e)), is_freed-kept s s' x ys z f out) refl

-- The loop of Close over a whole list ends after as many rounds as there are sessions, faults
-- nowhere, leaves an empty list, and frees the block of each session and of its buffer and no other
-- block, so that a block of a table that is none of these stays allocated.
pub destroy_all-freed :
    (xs : List ℕ) (s : Sink) (fuel : ℕ)
    → IsValid s xs
    → length xs < fuel
    → (s' : Sink) × (destroy_all fuel s ≡ ended s')
      × IsValid s' []
      × ((z : ℕ) → z ≢ 0 → s'.live z ≡ (if is_freed s.heap xs z then false else s.live z))
unfolding destroy_all is_freed
destroy_all-freed xs s zero v h = absurd (omega arith)
destroy_all-freed [] s (suc fuel) v h = let e = v.chain in (s, ground arith, v, λ z nz. refl)
destroy_all-freed (x ∷ xs) s (suc fuel) v h =
    let (e, nz, rest) = v.chain in
    let (s', gone, v', dead) = destroy_session-first s x xs v in
    let (s'', ends, v'', lives) = destroy_all-freed xs s' fuel v' (omega arith) in
    let head : destroy_session s.sessions s ≡ some s' = ap (λ p. destroy_session p s) e ∙ gone in
    let freed = destroy_session-Freed s x xs v gone in
    (
      s'',
      ground arith,
      v'',
      λ z nz.
          lives z nz
          ∙ rw (is_freed-kept s s' x xs z freed v.distinct.0, freed.live z nz) (ground arith),
    )
