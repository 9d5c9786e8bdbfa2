-- ===== src/Sink/Owning.antt =====
-- src/WebsocketSink.cpp: the blocks of the sessions, which the loop of `Close` frees, and whether
-- they are the allocator's to take back.
use mathlib.Core.Path.{subst}
use yardstick.Base.{
  some_inj, ℕ, zero, suc, ◌≡◌, ◌≢◌, ◌<◌, refl, sym, ap, ◌∙◌, Option, some, List, [], ◌∷◌, All, true,
  length, arith,
}
use yardstick.Sink.{Node, Sink, store, destroy_session, ended, destroy_all}
use yardstick.Sink.Chain.{IsValid, Distinct}
use yardstick.Sink.Destroy.{
  misfreed-removed, destroy_session-last, destroy_session-linked, destroy_session-first,
}
use yardstick.Sink.Freeing.{buffer_at, buffer_at-some, Freed, destroy_session-Freed}

-- The blocks of the sessions of a list, and of their buffers.
abbrev pub blocks_of : (ℕ → Option Node) → List ℕ → List ℕ
blocks_of heap [] = []
blocks_of heap (x ∷ xs) = x ∷ buffer_at heap x ∷ blocks_of heap xs

-- The blocks are allocated, and no two of them are the same.
pub record Owns (s : Sink) (bs : List ℕ) : Type 0 where
  pub live : All (λ b. (b ≢ 0) × (s.live b ≡ true)) bs
  pub distinct : Distinct bs

blocks_of-kept :
    (s s' : Sink) (x : ℕ) (xs : List ℕ)
    → Freed s s' x
    → All (λ y. y ≢ x) xs
    → blocks_of s'.heap xs ≡ blocks_of s.heap xs
blocks_of-kept s s' x [] f out = refl
blocks_of-kept s s' x (y ∷ ys) f (ne, out) =
    rw (f.others y (λ e. ne (sym e)), blocks_of-kept s s' x ys f out) refl

live-kept :
    (s s' : Sink) (x : ℕ) (bs : List ℕ)
    → Freed s s' x
    → All (λ b. b ≢ x) bs
    → All (λ b. b ≢ buffer_at s.heap x) bs
    → All (λ b. (b ≢ 0) × (s.live b ≡ true)) bs
    → All (λ b. (b ≢ 0) × (s'.live b ≡ true)) bs
live-kept s s' x [] f out out' all = tt
live-kept s s' x (b ∷ bs) f (ne, out) (ne', out') ((nz, live), all) =
    ((nz, f.live b nz ∙ ground arith), live-kept s s' x bs f out out' all)

-- What is left is still the allocator's after the first session is gone.
Owns-rest :
    (s s' : Sink) (x : ℕ) (xs : List ℕ)
    → Freed s s' x
    → All (λ y. y ≢ x) xs
    → Owns s (blocks_of s.heap (x ∷ xs))
    → Owns s' (blocks_of s'.heap xs)
Owns-rest s s' x xs f out o = subst (Owns s') (sym (blocks_of-kept s s' x xs f out)) (record {
  live = live-kept s s' x (blocks_of s.heap xs) f o.distinct.0.1 o.distinct.1.0 o.live.1.1;
  distinct = o.distinct.1.1;
})

-- DestroySession on the first session frees what is allocated.
destroy_session-misfreed :
    (s : Sink) (x : ℕ) (xs : List ℕ) {s' : Sink}
    → IsValid s (x ∷ xs)
    → Owns s (blocks_of s.heap (x ∷ xs))
    → destroy_session x s ≡ some s'
    → s'.misfreed ≡ s.misfreed
unfolding store
destroy_session-misfreed s x [] v o gone =
    let (e, nz, (n, here, prev, next)) = v.chain in
    let same = buffer_at-some s.heap x here in
    ap (λ k. k.misfreed) (some_inj (sym gone ∙ destroy_session-last s x n here prev next))
    ∙ misfreed-removed x n s o.live.0.1 (ap s.live (sym same) ∙ o.live.1.0.1)
        (λ z. o.distinct.0.0 (same ∙ z))
destroy_session-misfreed s x (y ∷ ys) v o gone =
    let (e, nz, (n, here, prev, (next, nz', (m, there, prev', rest)))) = v.chain in
    let (out, (out', distinct)) = v.distinct in
    let same = buffer_at-some s.heap x here in
    let unlinked =
      destroy_session-linked s x n m here prev (λ z. nz' (sym next ∙ z)) (λ z. out.0 (sym next ∙ z))
        (ap s.heap next ∙ there) in
    ap (λ k. k.misfreed) (some_inj (sym gone ∙ unlinked))
    ∙ misfreed-removed x n (store n.next (record m { prev = 0 }) s) o.live.0.1
        (ap s.live (sym same) ∙ o.live.1.0.1) (λ z. o.distinct.0.0 (same ∙ z))

-- The loop of Close over a whole list, whose blocks are allocated and all different, ends with an
-- empty list and frees no block that is not allocated.
pub destroy_all-Owned :
    (xs : List ℕ) (s : Sink) (fuel : ℕ)
    → IsValid s xs
    → Owns s (blocks_of s.heap xs)
    → length xs < fuel
    → (s' : Sink) × (destroy_all fuel s ≡ ended s') × IsValid s' [] × (s'.misfreed ≡ s.misfreed)
unfolding destroy_all
destroy_all-Owned xs s zero v o h = absurd (omega arith)
destroy_all-Owned [] s (suc fuel) v o h = let e = v.chain in (s, ground arith, v, refl)
destroy_all-Owned (x ∷ xs) s (suc fuel) v o h =
    let (e, nz, rest) = v.chain in
    let (s', gone, v', dead) = destroy_session-first s x xs v in
    let freed = destroy_session-Freed s x xs v gone in
    let kept = destroy_session-misfreed s x xs v o gone in
    let (s'', ends, v'', same) =
      destroy_all-Owned xs s' fuel v' (Owns-rest s s' x xs freed v.distinct.0 o) (omega arith) in
    let head : destroy_session s.sessions s ≡ some s' = ap (λ p. destroy_session p s) e ∙ gone in
    (s'', ground arith, v'', same ∙ kept)
