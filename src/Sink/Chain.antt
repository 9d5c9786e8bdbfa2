-- ===== src/Sink/Chain.antt =====
-- src/WebsocketSink.cpp: the list of sessions as a sequence of addresses.
use yardstick.Base.{
  update, update_self, update-ne, ℕ, ◌≡◌, ◌≢◌, sym, ◌∙◌, Option, none, some, List, [], ◌∷◌, All,
}
use yardstick.Sink.{Node, Sink}

-- From the address `p` the links `_next` lead through exactly the addresses `xs` to null, and the
-- link `_prev` of each session on the way is null: `CreateSession` never sets another.
abbrev pub Chain : (ℕ → Option Node) → ℕ → List ℕ → Type 0
Chain heap p [] = p ≡ 0
Chain heap p (x ∷ xs) =
    (p ≡ x) × (x ≢ 0) × ((n : Node) × (heap x ≡ some n) × (n.prev ≡ 0) × Chain heap n.next xs)

abbrev pub Distinct : List ℕ → Type 0
Distinct [] = Unit
Distinct (x ∷ xs) = All (λ y. y ≢ x) xs × Distinct xs

pub record IsValid (s : Sink) (xs : List ℕ) : Type 0 where
  pub chain : Chain s.heap s.sessions xs
  pub distinct : Distinct xs

-- A write to a block outside the list does not touch it.
pub Chain-update :
    (heap : ℕ → Option Node) (p q : ℕ) (v : Option Node) (xs : List ℕ)
    → All (λ x. x ≢ q) xs
    → Chain heap p xs
    → Chain (update heap q v) p xs
Chain-update heap p q v [] out c = c
Chain-update heap p q v (x ∷ xs) (ne, out) (e, nz, (n, here, prev, rest)) = (
  e,
  nz,
  (
    n,
    update-ne heap q x v (λ e. ne (sym e)) ∙ here,
    prev,
    Chain-update heap n.next q v xs out rest,
  ),
)

-- A block that holds no session is not in the list.
pub Chain-out :
    (heap : ℕ → Option Node) (p q : ℕ) (xs : List ℕ)
    → heap q ≡ none
    → Chain heap p xs
    → All (λ x. x ≢ q) xs
Chain-out heap p q [] dead c = tt
Chain-out heap p q (x ∷ xs) dead (e, nz, (n, here, prev, rest)) =
    (λ x-is-q. let h : heap x ≡ none = rw x-is-q dead in cc, Chain-out heap n.next q xs dead rest)

-- Writing a session of the list anew, with the links that it has, keeps the list.
pub Chain-head :
    (heap : ℕ → Option Node) (p x : ℕ) (n : Node) (xs : List ℕ)
    → All (λ y. y ≢ x) xs
    → p ≡ x
    → x ≢ 0
    → n.prev ≡ 0
    → Chain heap n.next xs
    → Chain (update heap x (some n)) p (x ∷ xs)
Chain-head heap p x n xs out e nz prev rest =
    (e, nz, (n, update_self heap x (some n), prev, Chain-update heap n.next x (some n) xs out rest))
