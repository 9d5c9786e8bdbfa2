-- ===== src/Sink/Dangling.antt =====
-- src/WebsocketSink.cpp: `DestroySession` on a session that is not the first.
use yardstick.Base.{
  ℕ, suc, ◌≡◌, ◌≢◌, inl, inr, sym, ap, ◌∙◌, none, some, List, [], ◌∷◌, length, arith, ◌==◌,
  if◌then◌else◌,
}
use yardstick.Sink.{Node, store, Sink, fault, load, find_from, find_session, destroy_session}
use yardstick.Sink.Chain.{Chain, IsValid}
use yardstick.Sink.Destroy.{removed, sessions-removed, destroy_session-last, destroy_session-linked}
use native.Mathlib.Decide.{ℕ_discrete}
use yardstick.Sink.Agreeing.{In, Agrees, agrees, Agrees-linked, Member, member, In-ne}

find_from-dead :
    (s s' : Sink) (p connection fuel : ℕ)
    → Agrees s s' p
    → p ≢ 0
    → find_from (suc fuel) connection p s' ≡ fault
unfolding find_from load
find_from-dead s s' p connection fuel a nz = let d = a.dead in ground arith

find_from-step :
    (s' : Sink) (q connection fuel : ℕ) (n : Node)
    → s'.heap q ≡ some n
    → q ≢ 0
    → n.session.connection ≢ connection
    → find_from (suc fuel) connection q s' ≡ find_from fuel connection n.next s'
unfolding find_from load
find_from-step s' q connection fuel n here nz other = ground arith

find_from-fault :
    (s s' : Sink) (p connection : ℕ) (xs : List ℕ) (q : ℕ)
    → Agrees s s' p
    → ((y : ℕ) (n : Node) → s.heap y ≡ some n → n.session.connection ≢ connection)
    → Chain s.heap q xs
    → In p xs
    → p ≢ 0
    → find_from (length xs) connection q s' ≡ fault
find_from-fault s s' p connection [] q a none_has c i nz = absurd i
find_from-fault s s' p connection (x ∷ xs) q a none_has (e, nzx, (n, here, prev, rest)) i nz =
    elim (ℕ_discrete x p) [
      | yes same ↦ rw (e ∙ same) (find_from-dead s s' p connection (length xs) a nz)
      | no other ↦
          let (n', there, link, held) = a.others x n here other in
          find_from-step s' q connection (length xs) n' (ap s'.heap e ∙ there)
            (λ z. nzx (sym e ∙ z)) (λ z. none_has x n here (ap (λ t. t.connection) (sym held) ∙ z))
          ∙ ap (λ r. find_from (length xs) connection r s') link
          ∙ find_from-fault s s' p connection xs n.next a none_has rest (later i other) nz
    ]
  where
    later : In p (x ∷ xs) → x ≢ p → In p xs
    later (inl same) other = absurd (other (sym same))
    later (inr i) other = i

-- DestroySession on a session of a whole list that is not the first leaves its dead block in the
-- list, and a later FindSession for a connection without a session reads through it.
pub destroy_session-dangling :
    (s : Sink) (x p connection : ℕ) (xs : List ℕ)
    → IsValid s (x ∷ xs)
    → In p xs
    → ((y : ℕ) (n : Node) → s.heap y ≡ some n → n.session.connection ≢ connection)
    → (s' : Sink) × (destroy_session p s ≡ some s')
      × (s'.heap p ≡ none)
      × (s'.sessions ≡ x)
      × (find_session (suc (length xs)) connection s' ≡ fault)
unfolding find_session store
destroy_session-dangling s x p connection xs v i none_has =
    let m : Member s p = member s s.sessions p (x ∷ xs) v.chain v.distinct (inr i) in
    let first : s.sessions ≡ x = v.chain.0 in
    let stays : (n : Node) → (if s.sessions == p then n.next else s.sessions) ≡ x =
      λ n. let ne = In-ne p x xs i v.distinct.0 in ground arith in
    elim m.behind [
      | inl last ↦
          let s' : Sink = removed p m.node s in
          let a : Agrees s s' p = agrees s p m.node m.here m.unlinked last in
          let at : s'.sessions ≡ x = sessions-removed p m.node s ∙ stays m.node in
          (
            s',
            destroy_session-last s p m.node m.here m.unlinked last,
            a.dead,
            at,
            ap (λ q. find_from (suc (length xs)) connection q s') (at ∙ sym first)
                ∙ find_from-fault s s' p connection (x ∷ xs) s.sessions a none_has v.chain (inr i)
                    m.nonzero,
          )
      | inr (nz, ne, (k, there)) ↦
          let s' : Sink = removed p m.node (store m.node.next (record k { prev = 0 }) s) in
          let a : Agrees s s' p = Agrees-linked s p m.node k ne there in
          let at : s'.sessions ≡ x =
            sessions-removed p m.node (store m.node.next (record k { prev = 0 }) s)
            ∙ stays m.node in
          (
            s',
            destroy_session-linked s p m.node k m.here m.unlinked nz ne there,
            a.dead,
            at,
            ap (λ q. find_from (suc (length xs)) connection q s') (at ∙ sym first)
                ∙ find_from-fault s s' p connection (x ∷ xs) s.sessions a none_has v.chain (inr i)
                    m.nonzero,
          )
    ]
