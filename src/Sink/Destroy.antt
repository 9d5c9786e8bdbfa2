-- ===== src/Sink/Destroy.antt =====
-- src/WebsocketSink.cpp: `DestroySession` on the first session, and the loop of `Close`.
use mathlib.Core.Path.{subst, subst₂}
use yardstick.Base.{
  update, update_self, ℕ, zero, suc, ◌≡◌, ◌≢◌, ◌<◌, refl, sym, ap, ◌∙◌, none, some, List, [], ◌∷◌,
  length, arith, ◌==◌, if◌then◌else◌, true, false,
}
use yardstick.Sink.{
  Node, Sink, free, free_session, load, store, set_prev, set_next, destroy_session, ended,
  destroy_all,
}
use yardstick.Sink.Chain.{Chain, IsValid, Chain-update, Chain-head}

-- The sink without the session at `p`, once its neighbours are linked.
pub removed : ℕ → Node → Sink → Sink
removed p n s =
    free_session p
      (free n.buffer_block (if s.sessions == p then record s { sessions = n.next } else s))

-- A session with nothing before it and nothing behind it, by its links.
pub destroy_session-last :
    (s : Sink) (p : ℕ) (n : Node)
    → s.heap p ≡ some n
    → n.prev ≡ 0
    → n.next ≡ 0
    → destroy_session p s ≡ some (removed p n s)
unfolding destroy_session set_prev set_next load removed
destroy_session-last s p n here prev next = ground arith

-- The same with a session `m` behind it.
pub destroy_session-linked :
    (s : Sink) (p : ℕ) (n m : Node)
    → s.heap p ≡ some n
    → n.prev ≡ 0
    → n.next ≢ 0
    → n.next ≢ p
    → s.heap n.next ≡ some m
    → destroy_session p s ≡ some (removed p n (store n.next (record m { prev = 0 }) s))
unfolding destroy_session set_prev set_next load store removed
destroy_session-linked s p n m here prev nz ne next = ground arith

pub heap-removed : (p : ℕ) (n : Node) (s : Sink) → (removed p n s).heap ≡ update s.heap p none
unfolding removed free_session free
heap-removed p n s = ground arith

pub sessions-removed :
    (p : ℕ) (n : Node) (s : Sink)
    → (removed p n s).sessions ≡ (if s.sessions == p then n.next else s.sessions)
unfolding removed free_session free
sessions-removed p n s = ground arith

pub live-removed :
    (p : ℕ) (n : Node) (s : Sink) (z : ℕ)
    → z ≢ 0
    → (removed p n s).live z
      ≡ (if p == z then false else if n.buffer_block == z then false else s.live z)
unfolding removed free_session free
live-removed p n s z nz = ground arith

pub misfreed-removed :
    (p : ℕ) (n : Node) (s : Sink)
    → s.live p ≡ true
    → s.live n.buffer_block ≡ true
    → n.buffer_block ≢ p
    → (removed p n s).misfreed ≡ s.misfreed
unfolding removed free_session free
misfreed-removed p n s live live' ne = ground arith

-- DestroySession on the first session of a whole list leaves the list of the others, and the
-- session's block is dead.
pub destroy_session-first :
    (s : Sink) (x : ℕ) (xs : List ℕ)
    → IsValid s (x ∷ xs)
    → (s' : Sink) × (destroy_session x s ≡ some s') × IsValid s' xs × (s'.heap x ≡ none)
unfolding store
destroy_session-first s x [] v =
    let (e, nz, (n, here, prev, next)) = v.chain in
    (
      removed x n s,
      destroy_session-last s x n here prev next,
      record { chain = sessions-removed x n s ∙ ground arith; distinct = tt },
      ap (λ h. h x) (heap-removed x n s) ∙ update_self s.heap x none,
    )
destroy_session-first s x (y ∷ ys) v =
    let (e, nz, (n, here, prev, (next, nz', (m, there, prev', rest)))) = v.chain in
    let (out, (out', distinct)) = v.distinct in
    let s1 : Sink = store n.next (record m { prev = 0 }) s in
    let moved : (if s.sessions == x then n.next else s.sessions) ≡ y = ground arith in
    (
      removed x n s1,
      destroy_session-linked s x n m here prev (λ z. nz' (sym next ∙ z)) (λ z. out.0 (sym next ∙ z))
          (ap s.heap next ∙ there),
      record {
        chain =
            subst₂ (λ h p. Chain h p (y ∷ ys)) (sym (heap-removed x n s1))
              (sym (sessions-removed x n s1 ∙ moved))
              (Chain-update s1.heap y x none (y ∷ ys) out (
                subst (λ z. Chain (update s.heap z (some (record m { prev = 0 }))) y (y ∷ ys))
                  (sym next)
                  (Chain-head s.heap y y (record m { prev = 0 }) ys out' refl nz' refl rest)));
        distinct = (out', distinct);
      },
      ap (λ h. h x) (heap-removed x n s1) ∙ update_self s1.heap x none,
    )

-- The loop of Close over a whole list ends after as many rounds as there are sessions, faults
-- nowhere and leaves an empty list.
pub destroy_all-empty :
    (xs : List ℕ) (s : Sink) (fuel : ℕ)
    → IsValid s xs
    → length xs < fuel
    → (s' : Sink) × (destroy_all fuel s ≡ ended s') × IsValid s' []
unfolding destroy_all
destroy_all-empty xs s zero v h = absurd (omega arith)
destroy_all-empty [] s (suc fuel) v h = let e = v.chain in (s, ground arith, v)
destroy_all-empty (x ∷ xs) s (suc fuel) v h =
    let (e, nz, rest) = v.chain in
    let (s', gone, v', dead) = destroy_session-first s x xs v in
    let (s'', ends, v'') = destroy_all-empty xs s' fuel v' (omega arith) in
    let head : destroy_session s.sessions s ≡ some s' = ap (λ p. destroy_session p s) e ∙ gone in
    (s'', ground arith, v'')
