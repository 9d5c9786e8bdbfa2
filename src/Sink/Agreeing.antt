-- ===== src/Sink/Agreeing.antt =====
-- src/WebsocketSink.cpp: what `DestroySession` on any session leaves of the others.
use mathlib.Core.Path.{subst}
use yardstick.Base.{
  some_inj, update, update_self, update-ne, ℕ, ◌≡◌, ◌≢◌, ◌⊎◌, inl, inr, refl, sym, ap, ◌∙◌, Option,
  none, some, List, [], ◌∷◌, All,
}
use yardstick.Sink.{Node, store, Sink, destroy_session}
use yardstick.Sink.Chain.{Chain, Distinct, IsValid}
use yardstick.Sink.Destroy.{removed, heap-removed, destroy_session-last, destroy_session-linked}
use native.Mathlib.Decide.{ℕ_discrete}

abbrev pub In : ℕ → List ℕ → Type 0
In p [] = ⊥
In p (x ∷ xs) = (p ≡ x) ⊎ In p xs

-- The block `p` is dead, and every other session is where it was, with the link that it had.
pub record Agrees (s s' : Sink) (p : ℕ) : Type 0 where
  pub dead : s'.heap p ≡ none
  pub others :
      (y : ℕ) (n : Node)
      → s.heap y ≡ some n
      → y ≢ p
      → (n' : Node) × (s'.heap y ≡ some n') × (n'.next ≡ n.next) × (n'.session ≡ n.session)

-- The sink after the session is destroyed agrees with the sink before.
pub agrees :
    (s : Sink) (p : ℕ) (n : Node)
    → s.heap p ≡ some n
    → n.prev ≡ 0
    → n.next ≡ 0
    → Agrees s (removed p n s) p
agrees s p n here prev next = record {
  dead = ap (λ h. h p) (heap-removed p n s) ∙ update_self s.heap p none;
  others = λ y k at other. (
    k,
    ap (λ h. h y) (heap-removed p n s) ∙ update-ne s.heap p y none (λ z. other (sym z)) ∙ at,
    refl,
    refl,
  );
}

pub Agrees-linked :
    (s : Sink) (p : ℕ) (n m : Node)
    → n.next ≢ p
    → s.heap n.next ≡ some m
    → Agrees s (removed p n (store n.next (record m { prev = 0 }) s)) p
unfolding store
Agrees-linked s p n m ne there =
    let m' : Node = record m { prev = 0 } in
    let h1 : ℕ → Option Node = update s.heap n.next (some m') in
    record {
      dead = ap (λ h. h p) (heap-removed p n _) ∙ update_self h1 p none;
      others = λ y k at other. elim (ℕ_discrete y n.next) [
        | yes same ↦
            let one : m ≡ k = some_inj (sym there ∙ ap s.heap (sym same) ∙ at) in
            (
              m',
              ap (λ h. h y) (heap-removed p n _)
                  ∙ update-ne h1 p y none (λ z. other (sym z))
                  ∙ ap h1 same
                  ∙ update_self s.heap n.next (some m'),
              ap (λ t. t.next) one,
              ap (λ t. t.session) one,
            )
        | no away ↦ (
          k,
          ap (λ h. h y) (heap-removed p n _)
              ∙ update-ne h1 p y none (λ z. other (sym z))
              ∙ update-ne s.heap n.next y (some m') (λ z. away (sym z))
              ∙ at,
          refl,
          refl,
        )
      ];
    }

-- A session of the list, and what stands behind it.
pub record Member (s : Sink) (p : ℕ) : Type 0 where
  pub node : Node
  pub here : s.heap p ≡ some node
  pub unlinked : node.prev ≡ 0
  pub nonzero : p ≢ 0
  pub behind :
      (node.next ≡ 0)
      ⊎ ((node.next ≢ 0) × (node.next ≢ p) × ((m : Node) × (s.heap node.next ≡ some m)))

behind_of :
    (s : Sink) (q p : ℕ) (xs : List ℕ)
    → Chain s.heap q xs
    → All (λ y. y ≢ p) xs
    → (q ≡ 0) ⊎ ((q ≢ 0) × (q ≢ p) × ((m : Node) × (s.heap q ≡ some m)))
behind_of s q p [] c out = inl c
behind_of s q p (y ∷ ys) (e, nz, (m, there, prev, rest)) (ne, out) =
    inr ((λ z. nz (sym e ∙ z)), (λ z. ne (sym e ∙ z)), (m, ap s.heap e ∙ there))

pub member :
    (s : Sink) (q p : ℕ) (xs : List ℕ) → Chain s.heap q xs → Distinct xs → In p xs → Member s p
member s q p [] c d i = absurd i
member s q p (x ∷ xs) (e, nz, (n, here, prev, rest)) (out, d) (inl same) = record {
  node = n;
  here = ap s.heap same ∙ here;
  unlinked = prev;
  nonzero = λ z. nz (sym same ∙ z);
  behind = behind_of s n.next p xs rest (rw same out);
}
member s q p (x ∷ xs) (e, nz, (n, here, prev, rest)) (out, d) (inr i) =
    member s n.next p xs rest d i

pub In-ne : (p x : ℕ) (xs : List ℕ) → In p xs → All (λ y. y ≢ x) xs → p ≢ x
In-ne p x [] i out = absurd i
In-ne p x (y ∷ ys) (inl same) (ne, out) = λ z. ne (sym same ∙ z)
In-ne p x (y ∷ ys) (inr i) (ne, out) = In-ne p x ys i out

-- DestroySession on any session of a whole list leaves the other sessions.
pub destroy_session-Agrees :
    (s : Sink) (p : ℕ) (xs : List ℕ) {s' : Sink}
    → IsValid s xs
    → In p xs
    → destroy_session p s ≡ some s'
    → Agrees s s' p
unfolding store
destroy_session-Agrees s p xs v i gone =
    let m : Member s p = member s s.sessions p xs v.chain v.distinct i in
    elim m.behind [
      | inl last ↦
          subst (λ k. Agrees s k p)
            (some_inj (sym (destroy_session-last s p m.node m.here m.unlinked last) ∙ gone))
            (agrees s p m.node m.here m.unlinked last)
      | inr (nz, ne, (k, there)) ↦
          subst (λ k. Agrees s k p)
            (some_inj
              (sym (destroy_session-linked s p m.node k m.here m.unlinked nz ne there) ∙ gone))
            (Agrees-linked s p m.node k ne there)
    ]
