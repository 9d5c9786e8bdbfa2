-- ===== src/Signal/Waking.antt =====
-- src/Signal.h: what a post does to a wait.
use yardstick.Base.{◌≡◌, ◌≢◌, refl, true, arith}
use yardstick.Signal.{
  Waiter, away, checking, missed, asleep, clearing, Signal, notified, WaitStep, arrive, see, miss,
  block, wake, expire, clear, PostStep, raise, notify,
}

-- Steps of any threads, up to the end of the wait: the flag is not cleared on the way.
pub data During (s : Signal) : Signal → Type 0 where
  here : During s s
  wait : {t u : Signal} → During s t → WaitStep t u → u.waiter ≢ away → During s u
  post : {t u : Signal} → During s t → PostStep t u → During s u

-- A wait that does not block.
abbrev IsAwake : Waiter → Type 0
IsAwake missed = ⊥
IsAwake asleep = ⊥
IsAwake _ = Unit {0}

WaitStep-IsAwake :
    {t u : Signal}
    → WaitStep t u
    → u.waiter ≢ away
    → (t.ready ≡ true) × IsAwake t.waiter
    → (u.ready ≡ true) × IsAwake u.waiter
WaitStep-IsAwake (arrive e) ne (r, a) = (r, tt)
WaitStep-IsAwake (see e f) ne (r, a) = (r, tt)
WaitStep-IsAwake (miss e f) ne (r, a) = absurd (ground arith)
WaitStep-IsAwake (block e) ne (r, a) = absurd (rw e at a)
WaitStep-IsAwake (wake e) ne (r, a) = (r, tt)
WaitStep-IsAwake (expire e) ne (r, a) = (r, tt)
WaitStep-IsAwake (clear e) ne (r, a) = absurd (ne refl)

notified-IsAwake : (w : Waiter) → IsAwake w → IsAwake (notified w)
unfolding notified
notified-IsAwake away a = tt
notified-IsAwake checking a = tt
notified-IsAwake missed a = a
notified-IsAwake asleep a = tt
notified-IsAwake clearing a = tt

During-IsAwake :
    {s t : Signal}
    → (s.ready ≡ true) × IsAwake s.waiter
    → During s t
    → (t.ready ≡ true) × IsAwake t.waiter
During-IsAwake h here = h
During-IsAwake h (wait d st ne) = WaitStep-IsAwake st ne (During-IsAwake h d)
During-IsAwake h (post d raise) = (refl, (During-IsAwake h d).1)
During-IsAwake h (post d (notify e)) =
    ((During-IsAwake h d).0, notified-IsAwake _ (During-IsAwake h d).1)

awake-ne : (w : Waiter) → IsAwake w → w ≢ asleep
awake-ne away a e = cc
awake-ne checking a e = cc
awake-ne missed a e = absurd a
awake-ne asleep a e = absurd a
awake-ne clearing a e = cc

-- Where the flag of the POSIX signal is set before a wait begins, the wait never blocks, whatever
-- is posted while it lasts, and the flag stays set up to its end.
pub ready-awake :
    {s t : Signal}
    → s.ready ≡ true
    → s.waiter ≡ away
    → During s t
    → (t.waiter ≢ asleep) × (t.ready ≡ true)
ready-awake r e d = let (r', a) = During-IsAwake (r, rw e tt) d in (awake-ne _ a, r')

-- From a wait that has found the flag unset and has not blocked yet, a whole Post and then the
-- block lead to a wait that is blocked with the flag set and with no more notifications to come
-- from that post.
pub post_lost :
    (s : Signal)
    → s.waiter ≡ missed
    → (t : Signal) × During s t × (t.waiter ≡ asleep) × (t.ready ≡ true) × (t.pending ≡ s.pending)
unfolding notified
post_lost s e =
    let n : WaitStep (record s { ready = true; waiter = notified s.waiter })
        (record s { ready = true; waiter = asleep }) =
      block (rw e) in
    (_, wait (post (post here raise) (notify refl)) n (λ z. cc), refl, refl, refl)
