-- ===== src/Connection/Leaving.antt =====
-- src/WebsocketSink.cpp: what the others keep when the client that came last goes.
use mathlib.Core.Path.{subst}
use yardstick.Base.{
  ℕ, zero, suc, ◌≡◌, ◌≢◌, refl, sym, ap, ◌∙◌, Option, none, some, List, [], ◌∷◌, All, inl, arith,
}
use yardstick.Protocol.{Memory, EventData}
use yardstick.Sink.{Node, Sink, Walk, ended, fault, load, find_from, find_session, destroy_session}
use yardstick.Sink.Chain
use yardstick.Sink.Destroy.{destroy_session-first}
use yardstick.Sink.Agreeing.{Agrees, destroy_session-Agrees}
use yardstick.Sink.Broadcast.{Holding}
use yardstick.Connection.{closed}

-- The session that `_sessions` points to is the connection's.
abbrev pub IsNewest : ℕ → Sink → Type 0
IsNewest connection s =
    (s.sessions ≢ 0)
    × ((n : Node) × (s.heap s.sessions ≡ some n) × (n.session.connection ≡ connection))

find_session-newest :
    (fuel connection : ℕ) (s : Sink)
    → IsNewest connection s
    → find_session (suc fuel) connection s ≡ ended s.sessions
unfolding find_session find_from load
find_session-newest fuel connection s (nz, (n, here, e)) = ground arith

destroyed_inv :
    (o : Option Sink) {s' : Sink}
    → ◌≡◌ {A = Walk Sink} (elim o [ none ↦ fault | some s ↦ ended s ]) (ended s')
    → o ≡ some s'
destroyed_inv none e = cc
destroyed_inv (some s) e = cc

closed-of_newest :
    (fuel connection : ℕ) (s : Sink) {s' : Sink}
    → IsNewest connection s
    → closed fuel connection s ≡ ended s'
    → destroy_session s.sessions s ≡ some s'
unfolding closed find_session find_from
closed-of_newest zero connection s newest e = cc
closed-of_newest (suc fuel) connection s newest e =
    destroyed_inv (destroy_session s.sessions s)
      (rw (find_session-newest fuel connection s newest, closed) at e)

Holding-Agrees :
    (mem : Memory) (s s' : Sink) (p : ℕ) (history : ℕ → List EventData) (xs : List ℕ)
    → Agrees s s' p
    → All (λ x. x ≢ p) xs
    → Holding mem s.heap history xs
    → Holding mem s'.heap history xs
Holding-Agrees mem s s' p history [] a out hold = tt
Holding-Agrees mem s s' p history (x ∷ xs) a (ne, out) ((n, here, v, l), hold) =
    let (n', there, link, same) = a.others x n here ne in
    ((n', there, rw same v, rw same l), Holding-Agrees mem s s' p history xs a out hold)

-- When the client that came last goes, a whole list of sessions loses its first and is whole, and
-- the others have taken what they had.
pub closed-Holding :
    (mem : Memory) (fuel connection : ℕ) (s : Sink) (history : ℕ → List EventData) (x : ℕ)
    (xs : List ℕ) {s' : Sink}
    → IsNewest connection s
    → closed fuel connection s ≡ ended s'
    → Chain.IsValid s (x ∷ xs)
    → Holding mem s.heap history (x ∷ xs)
    → Chain.IsValid s' xs × Holding mem s'.heap history xs × Agrees s s' x
closed-Holding mem fuel connection s history x xs {s'} newest e v (one, hold) =
    let gone : destroy_session x s ≡ some s' =
      ap (λ p. destroy_session p s) (sym v.chain.0) ∙ closed-of_newest fuel connection s newest e in
    let (t, gone', v', dead) = destroy_session-first s x xs v in
    let same : t ≡ s' = let z = sym gone' ∙ gone in cc in
    let agrees : Agrees s s' x = destroy_session-Agrees s x (x ∷ xs) v (inl refl) gone in
    (
      subst (λ k. Chain.IsValid k xs) same v',
      Holding-Agrees mem s s' x history xs agrees v.distinct.0 hold,
      agrees,
    )

-- On a whole list of sessions webby_closed of the client that came last ends.
pub closed-ends :
    (fuel connection : ℕ) (s : Sink) (x : ℕ) (xs : List ℕ)
    → IsNewest connection s
    → Chain.IsValid s (x ∷ xs)
    → (s' : Sink) × (closed (suc fuel) connection s ≡ ended s') × Chain.IsValid s' xs
unfolding closed
closed-ends fuel connection s x xs newest v =
    let (s', gone, v', dead) = destroy_session-first s x xs v in
    let head : destroy_session s.sessions s ≡ some s' =
      ap (λ p. destroy_session p s) v.chain.0 ∙ gone in
    (s', rw (find_session-newest fuel connection s newest, closed) (rw (head, closed) refl), v')
