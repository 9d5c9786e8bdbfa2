-- ===== src/Background/Taking.antt =====
-- src/GlobalState.cpp: the events of a thread on their way to every session.
use yardstick.Base.{
  ℕ, ◌≡◌, ◌≢◌, ◌<◌, refl, sym, ap, ◌∙◌, Option, none, some, List, [], ◌∷◌, ◌++◌, append-nil,
  append_assoc, All, length,
}
use yardstick.Protocol.{Memory, EventData, event_type}
use yardstick.Session.Strings.{announce, told_all}
use yardstick.Session.Events.{strings}
use yardstick.Registry.Process.{Accepts, write_all}
use yardstick.Sink.{Node, Sink, Walk, ended, write_event}
use yardstick.Sink.Chain
use yardstick.Sink.Broadcast.{Holding, Told, write_event-Told}
use yardstick.Background.{broadcast}

-- What a session takes of some events: each one after those of its strings that the session's
-- table does not know by then.
unfoldable pub tell : Memory → (table : List ℕ) → List EventData → List EventData
tell mem table [] = []
tell mem table (ev ∷ evs) =
    announce mem table (strings ev) ++ (ev ∷ tell mem (told_all table (strings ev)) evs)

-- What the table knows afterwards.
unfoldable pub known : (table : List ℕ) → List EventData → List ℕ
known table [] = table
known table (ev ∷ evs) = known (told_all table (strings ev)) evs

-- What a session takes of some events and then of others.
pub tell-append :
    (mem : Memory) (table : List ℕ) (a b : List EventData)
    → tell mem table (a ++ b) ≡ tell mem table a ++ tell mem (known table a) b
unfolding tell known
tell-append mem table [] b = refl
tell-append mem table (ev ∷ a) b =
    ap (λ l. announce mem table (strings ev) ++ (ev ∷ l))
      (tell-append mem (told_all table (strings ev)) a b)
    ∙ sym (append_assoc (announce mem table (strings ev)) (ev ∷ _) _)

-- The table of the session at an address.
unfoldable pub table_at : (ℕ → Option Node) → ℕ → List ℕ
table_at heap x = elim (heap x) [ none ↦ [] | some n ↦ n.session.table ]

pub table_at-some :
    (heap : ℕ → Option Node) (x : ℕ) {n : Node}
    → heap x ≡ some n
    → table_at heap x ≡ n.session.table
unfolding table_at
table_at-some heap x here = ap (λ v. elim v [ none ↦ [] | some n ↦ n.session.table ]) here

pub Holding-cast :
    (mem : Memory) (heap : ℕ → Option Node) (h h' : ℕ → List EventData) (xs : List ℕ)
    → All (λ x. h x ≡ h' x) xs
    → Holding mem heap h xs
    → Holding mem heap h' xs
Holding-cast mem heap h h' [] same hold = tt
Holding-cast mem heap h h' (x ∷ xs) (e, same) ((n, here, v, l), rest) =
    ((n, here, v, rw (← e) l), Holding-cast mem heap h h' xs same rest)

pub All-trans {κ} :
    {B : Type κ} (f g h : ℕ → B) (xs : List ℕ)
    → All (λ x. f x ≡ g x) xs
    → All (λ x. g x ≡ h x) xs
    → All (λ x. f x ≡ h x) xs
All-trans f g h [] a b = tt
All-trans f g h (x ∷ xs) (e, a) (e', b) = (e ∙ e', All-trans f g h xs a b)

-- The sink's WriteEvent always returns Success.
pub Accepts-broadcast :
    (mem : Memory) (fuel : ℕ) (evs : List EventData) (w : Walk Sink)
    → Accepts (broadcast mem fuel) evs w
unfolding broadcast
Accepts-broadcast mem fuel [] w = tt
Accepts-broadcast mem fuel (ev ∷ evs) (ended s) = (refl, Accepts-broadcast mem fuel evs _)
Accepts-broadcast mem fuel (ev ∷ evs) Walk.fault = (refl, Accepts-broadcast mem fuel evs _)
Accepts-broadcast mem fuel (ev ∷ evs) Walk.unfinished = (refl, Accepts-broadcast mem fuel evs _)

pub All-pointwise {κ} : {P : ℕ → Type κ} → ((x : ℕ) → P x) → (xs : List ℕ) → All P xs
All-pointwise f [] = tt
All-pointwise f (x ∷ xs) = (f x, All-pointwise f xs)

module _ (mem : Memory) where
  abbrev pub after_one : (ℕ → Option Node) → (ℕ → List EventData) → EventData → ℕ → List EventData
  after_one heap history ev x =
      history x ++ announce mem (table_at heap x) (strings ev) ++ (ev ∷ [])

  pub Told-Holding :
      (ev : EventData) (heap heap' : ℕ → Option Node) (history : ℕ → List EventData) (xs : List ℕ)
      → Told mem ev heap heap' history xs
      → Holding mem heap' (after_one heap history ev) xs
  Told-Holding ev heap heap' history [] told = tt
  Told-Holding ev heap heap' history (x ∷ xs) ((n, here, (t, there, v, marked, l)), told) = (
    (record n { session = t }, there, v, rw (table_at-some heap x here) l),
    Told-Holding ev heap heap' history xs told,
  )

  after_one-tell :
      (h front back : List EventData) (ev : EventData)
      → h ++ front ++ (ev ∷ []) ++ back ≡ h ++ (front ++ (ev ∷ back))
  after_one-tell h front back ev =
      append_assoc (h ++ front) (ev ∷ []) back ∙ append_assoc h front (ev ∷ back)

  Told-tell :
      (ev : EventData) (evs : List EventData) (heap heap' : ℕ → Option Node)
      (history : ℕ → List EventData) (xs : List ℕ)
      → Told mem ev heap heap' history xs
      → All
          (λ x.
            after_one heap history ev x ++ tell mem (table_at heap' x) evs
            ≡ history x ++ tell mem (table_at heap x) (ev ∷ evs))
          xs
  unfolding tell
  Told-tell ev evs heap heap' history [] told = tt
  Told-tell ev evs heap heap' history (x ∷ xs) ((n, here, (t, there, v, marked, l)), told) = (
    rw (table_at-some heap x here, table_at-some heap' x there, marked) (after_one-tell _ _ _ ev),
    Told-tell ev evs heap heap' history xs told,
  )

  Told-known :
      (ev : EventData) (evs : List EventData) (heap heap' : ℕ → Option Node)
      (history : ℕ → List EventData) (xs : List ℕ)
      → Told mem ev heap heap' history xs
      → All (λ x. known (table_at heap' x) evs ≡ known (table_at heap x) (ev ∷ evs)) xs
  unfolding known
  Told-known ev evs heap heap' history [] told = tt
  Told-known ev evs heap heap' history (x ∷ xs) ((n, here, (t, there, v, marked, l)), told) = (
    rw (table_at-some heap x here, table_at-some heap' x there, marked) refl,
    Told-known ev evs heap heap' history xs told,
  )

  write_all-next :
      (fuel : ℕ) (ev : EventData) (evs : List EventData) (s : Sink) {s1 : Sink}
      → write_event mem fuel ev s ≡ ended s1
      → write_all (broadcast mem fuel) (ev ∷ evs) (ended s)
        ≡ write_all (broadcast mem fuel) evs (ended s1)
  unfolding write_all broadcast
  write_all-next fuel ev evs s ends = ap (λ w. write_all (broadcast mem fuel) evs w) ends

  -- On a whole list of valid sessions the events of a list, none of them a string, reach every
  -- session, in order, and leave the same list of valid sessions, which know their strings.
  pub write_all-Holding :
      (fuel : ℕ) (evs : List EventData) (s : Sink) (history : ℕ → List EventData) (xs : List ℕ)
      → All (λ ev. event_type ev ≢ 5) evs
      → Chain.IsValid s xs
      → Holding mem s.heap history xs
      → length xs < fuel
      → (s' : Sink) × (write_all (broadcast mem fuel) evs (ended s) ≡ ended s')
        × Chain.IsValid s' xs
        × Holding mem s'.heap (λ x. history x ++ tell mem (table_at s.heap x) evs) xs
        × All (λ x. table_at s'.heap x ≡ known (table_at s.heap x) evs) xs
  unfolding write_all tell known
  write_all-Holding fuel [] s history xs plain v hold fueled = (
    s,
    refl,
    v,
    Holding-cast mem s.heap history _ xs (All-pointwise (λ x. sym (append-nil (history x))) xs)
        hold,
    All-pointwise (λ x. refl) xs,
  )
  write_all-Holding fuel (ev ∷ evs) s history xs (one, plain) v hold fueled =
      let (s1, ends1, v1, told) = write_event-Told mem ev one fuel s history xs v hold fueled in
      let (s', ends, v', held, knows) =
        write_all-Holding fuel evs s1 (after_one s.heap history ev) xs plain v1
          (Told-Holding ev s.heap s1.heap history xs told) fueled in
      (
        s',
        write_all-next fuel ev evs s ends1 ∙ ends,
        v',
        Holding-cast mem s'.heap _ _ xs (Told-tell ev evs s.heap s1.heap history xs told) held,
        All-trans _ _ _ xs knows (Told-known ev evs s.heap s1.heap history xs told),
      )
