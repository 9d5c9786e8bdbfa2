-- ===== src/Registry/Cycle.antt =====
-- src/GlobalState.cpp: `RegisterThread` on a list that is not empty, and the walks along `_next`
-- after it.
use yardstick.Base.{
  update, ℕ, zero, suc, ◌≡◌, ◌≢◌, ◌⊎◌, inl, inr, refl, sym, ap, ◌∙◌, List, [], ◌∷◌, take, drop,
  arith,
}
use yardstick.Protocol.{EventData}
use yardstick.Registry.{
  Registry, set_next, register_thread, process_thread, unfinished, ended, flush_from, flush_threads,
}
use yardstick.Registry.Process.{Accepts, write_all, process_thread-success}
use yardstick.Api.{YsResult, success}

module _ (r : Registry) (t : ℕ) (nonzero : t ≢ 0) (other : t ≢ r.threads)
    (some_thread : r.threads ≢ 0) where
  threads-register : (register_thread t r).threads ≡ t
  unfolding register_thread set_next
  threads-register = ground arith

  next-register : ((register_thread t r).links t).next ≡ r.threads
  unfolding register_thread set_next
  next-register = ground arith

  next-register_head : ((register_thread t r).links r.threads).next ≡ t
  unfolding register_thread set_next
  next-register_head = ground arith

  -- The threads that a walk from the first one comes to.
  pub data Visits : ℕ → Type 0 where
    first : Visits (register_thread t r).threads
    next : {p : ℕ} → Visits p → Visits ((register_thread t r).links p).next

  -- After RegisterThread of another thread than the first on a list that is not empty, a walk along
  -- the links _next comes only to the new thread and the one that was first before, and never to
  -- null.
  pub Visits-two : {q : ℕ} → Visits q → ((q ≡ t) ⊎ (q ≡ r.threads)) × (q ≢ 0)
  Visits-two first = (inl threads-register, λ z. nonzero (sym threads-register ∙ z))
  Visits-two (next {p} v) = elim (Visits-two v).0 [
    | inl e ↦
        let l : ((register_thread t r).links p).next ≡ r.threads =
          ap (λ q. ((register_thread t r).links q).next) e ∙ next-register in
        (inr l, λ z. some_thread (sym l ∙ z))
    | inr e ↦
        let l : ((register_thread t r).links p).next ≡ t =
          ap (λ q. ((register_thread t r).links q).next) e ∙ next-register_head in
        (inl l, λ z. nonzero (sym l ∙ z))
  ]

  module _ {ℓ} {S : Type ℓ} (write_event : EventData → S → YsResult × S) where
    Accepts-all :
        (evs : List EventData) (s : S)
        → ((ev : EventData) (s : S) → (write_event ev s).0 ≡ success)
        → Accepts write_event evs s
    Accepts-all [] s ok = tt
    Accepts-all (ev ∷ evs) s ok = (ok ev s, Accepts-all evs _ ok)

    process_ok :
        (queue : List EventData) (s : S)
        → ((ev : EventData) (s : S) → (write_event ev s).0 ≡ success)
        → (process_thread write_event queue s).0 ≡ success
    process_ok queue s ok =
        ap (λ x. x.0) (process_thread-success write_event queue s (Accepts-all _ s ok))

    flush_from-step :
        (fuel p : ℕ) (queues : ℕ → List EventData) (s : S)
        → ((ev : EventData) (s : S) → (write_event ev s).0 ≡ success)
        → p ≢ 0
        → flush_from write_event (suc fuel) (register_thread t r) p queues s
          ≡ flush_from write_event fuel
              (register_thread t r)
              ((register_thread t r).links p).next
              (update queues p (process_thread write_event (queues p) s).1)
              (process_thread write_event (queues p) s).2
    unfolding flush_from
    flush_from-step fuel p queues s ok nz = let e = process_ok (queues p) s ok in ground arith

    flush_from-unfinished :
        (fuel : ℕ) {p : ℕ}
        → Visits p
        → (queues : ℕ → List EventData) (s : S)
        → ((ev : EventData) (s : S) → (write_event ev s).0 ≡ success)
        → flush_from write_event fuel (register_thread t r) p queues s ≡ unfinished
    flush_from-unfinished zero v queues s ok = unfold flush_from in refl
    flush_from-unfinished (suc fuel) {p} v queues s ok =
        flush_from-step fuel p queues s ok (Visits-two v).1
        ∙ flush_from-unfinished fuel (next v) _ _ ok

    -- After RegisterThread of another thread than the first on a list that is not empty, the loop
    -- of FlushThreads does not end in any number of rounds, as long as the sink takes the events.
    pub flush_threads-unfinished :
        (fuel : ℕ) (queues : ℕ → List EventData) (s : S)
        → ((ev : EventData) (s : S) → (write_event ev s).0 ≡ success)
        → flush_threads write_event fuel (register_thread t r) queues s ≡ unfinished
    unfolding flush_threads
    flush_threads-unfinished fuel queues s ok = flush_from-unfinished fuel first queues s ok

-- With a thread that is registered in an empty list and whose first 511 events the sink takes,
-- FlushThreads ends after one pass over that thread, which hands over its oldest 511 events.
pub flush_threads-single {ℓ} :
    {S : Type ℓ} (write_event : EventData → S → YsResult × S) (r : Registry) (t fuel : ℕ)
    (queues : ℕ → List EventData) (s : S)
    → t ≢ 0
    → r.threads ≡ 0
    → Accepts write_event (take 511 (queues t)) s
    → flush_threads write_event (suc (suc fuel)) (register_thread t r) queues s
      ≡ ended success
          (update queues t (drop 511 (queues t)))
          (write_all write_event (take 511 (queues t)) s)
unfolding flush_threads flush_from register_thread set_next
flush_threads-single write_event r t fuel queues s nz empty ok =
    ground (arith, process_thread-success write_event (queues t) s ok)
