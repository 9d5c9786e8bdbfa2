-- ===== src/Background/Arrivals.antt =====
-- src/GlobalState.cpp: `ThreadMain` over several turns, while a thread puts events in its queue.
use yardstick.Base.{
  update, ℕ, zero, suc, ◌*◌, ◌≡◌, ◌≤◌, refl, sym, ap, ◌∙◌, List, [], ◌∷◌, ◌++◌, append-nil,
  append_assoc, take, drop, length, length-append, length-drop, replicate, flatten, flatten-append,
  take-append-drop, true, arith,
}
use yardstick.Protocol.{EventData}
use yardstick.Background.{Turn}

-- A turn before which the thread `t` puts events in its queue.
unfoldable pub emitting : ℕ → List EventData → Turn
emitting t evs = record {
  active = true;
  meanwhile = λ b. record b { queues = update b.queues t (b.queues t ++ evs) };
}

-- What the turns take off a queue to which, before each, some events come; and what they leave.
unfoldable pub taken : (queue : List EventData) → List (List EventData) → List EventData
taken queue [] = []
taken queue (evs ∷ arrivals) = take 511 (queue ++ evs) ++ taken (drop 511 (queue ++ evs)) arrivals

unfoldable pub left : (queue : List EventData) → List (List EventData) → List EventData
left queue [] = queue
left queue (evs ∷ arrivals) = left (drop 511 (queue ++ evs)) arrivals

pub taken-left :
    (queue : List EventData) (arrivals : List (List EventData))
    → taken queue arrivals ++ left queue arrivals ≡ queue ++ flatten arrivals
unfolding taken left
taken-left queue [] = sym (append-nil queue)
taken-left queue (evs ∷ arrivals) =
    append_assoc (take 511 (queue ++ evs)) _ _
    ∙ ap (λ l. take 511 (queue ++ evs) ++ l) (taken-left (drop 511 (queue ++ evs)) arrivals)
    ∙ sym (append_assoc (take 511 (queue ++ evs)) _ _)
    ∙ ap (λ l. l ++ flatten arrivals) (take-append-drop 511 (queue ++ evs))
    ∙ append_assoc queue evs _

left-append :
    (queue : List EventData) (a b : List (List EventData))
    → left queue (a ++ b) ≡ left (left queue a) b
unfolding left
left-append queue [] b = refl
left-append queue (evs ∷ a) b = left-append (drop 511 (queue ++ evs)) a b

-- Turns before which nothing comes.
left-quiet :
    (queue : List EventData) (k : ℕ) → length queue ≤ 511 * k → left queue (replicate k []) ≡ []
unfolding left
left-quiet [] zero h = refl
left-quiet (ev ∷ queue) zero h = absurd (omega arith)
left-quiet queue (suc k) h =
    left-quiet (drop 511 (queue ++ [])) k
      (omega (arith, length-drop 511 (queue ++ []), length-append queue []))

-- As many quiet turns as the events need leave nothing of what has come.
pub left-nothing :
    (queue : List EventData) (arrivals : List (List EventData)) (k : ℕ)
    → length (queue ++ flatten arrivals) ≤ 511 * k
    → left queue (arrivals ++ replicate k []) ≡ []
left-nothing queue arrivals k h =
    left-append queue arrivals (replicate k [])
    ∙ left-quiet (left queue arrivals) k (
        omega (
          arith,
          ap length (taken-left queue arrivals),
          length-append (taken queue arrivals) (left queue arrivals),
        ))

flatten-quiet : (k : ℕ) → flatten (replicate {A = List EventData} k []) ≡ []
flatten-quiet zero = refl
flatten-quiet (suc k) = flatten-quiet k

pub taken-everything :
    (queue : List EventData) (arrivals : List (List EventData)) (k : ℕ)
    → length (queue ++ flatten arrivals) ≤ 511 * k
    → taken queue (arrivals ++ replicate k []) ≡ queue ++ flatten arrivals
taken-everything queue arrivals k h =
    sym (append-nil _)
    ∙ ap (λ l. taken queue (arrivals ++ replicate k []) ++ l)
        (sym (left-nothing queue arrivals k h))
    ∙ taken-left queue (arrivals ++ replicate k [])
    ∙ ap (λ l. queue ++ l)
        (flatten-append arrivals (replicate k [])
          ∙ ap (λ l. flatten arrivals ++ l) (flatten-quiet k)
          ∙ append-nil (flatten arrivals))
