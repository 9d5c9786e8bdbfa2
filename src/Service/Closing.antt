-- ===== src/Service/Closing.antt =====
-- src/WebsocketSink.cpp: `Close`, `Listen` and `webby_closed` on a whole list of sessions, where they
-- end.
use mathlib.Core.Path.{subst}
use yardstick.Base.{
  some_inj, option_bind_inv, ℕ, zero, suc, ◌≡◌, ◌≢◌, refl, sym, ap, ◌∙◌, Option, none, some, List,
  [], ◌∷◌, ◌==◌, Bool-cases, inl, inr, ◌⊎◌, arith,
}
use yardstick.Api.{YsResult, success}
use yardstick.Sink.{
  Sink, Walk, ended, fault, unfinished, free, allocate, destroy_session, destroy_all,
}
use yardstick.Sink.Chain
use yardstick.Sink.Destroy.{destroy_session-first}
use yardstick.Server.{
  Server, Answers, release, stop_server, free_memory, close, start_server, listen,
}
use yardstick.Protocol.{Memory, EventData}
use yardstick.Sink.Broadcast.{Holding}
use yardstick.Connection.{closed}
use yardstick.Connection.Leaving.{IsNewest, closed-Holding}
use yardstick.Service.Informing.{AllInformed, Informed-Agrees}
use yardstick.Service.Sessions.{IsWhole}
use yardstick.Sink.Walks.{ended_inj, fault_ne, unfinished_ne}
use yardstick.Service.Walks.{bind_inv}

-- The same sessions.
abbrev pub Keeps : Sink → Sink → Type 0
Keeps s s' = (s'.heap ≡ s.heap) × (s'.sessions ≡ s.sessions)

destroy_all-stop : (fuel : ℕ) (s : Sink) → s.sessions ≡ 0 → destroy_all (suc fuel) s ≡ ended s
unfolding destroy_all
destroy_all-stop fuel s e = ground arith

destroy_all-next :
    (fuel : ℕ) (s : Sink) {s1 : Sink}
    → s.sessions ≢ 0
    → destroy_session s.sessions s ≡ some s1
    → destroy_all (suc fuel) s ≡ destroy_all fuel s1
unfolding destroy_all
destroy_all-next fuel s nz e = ground arith

destroy_all-none :
    (xs : List ℕ) (fuel : ℕ) (s : Sink) {s' : Sink}
    → Chain.IsValid s xs
    → destroy_all fuel s ≡ ended s'
    → Chain.IsValid s' []
unfolding destroy_all
destroy_all-none xs zero s v e = absurd (unfinished_ne e)
destroy_all-none [] (suc fuel) s v e =
    subst (λ k. Chain.IsValid k []) (ended_inj (sym (destroy_all-stop fuel s v.chain) ∙ e)) v
destroy_all-none (x ∷ xs) (suc fuel) s v e =
    let (first, nz, rest) = v.chain in
    let (s1, gone, v1, dead) = destroy_session-first s x xs v in
    let head : destroy_session s.sessions s ≡ some s1 =
      ap (λ p. destroy_session p s) first ∙ gone in
    destroy_all-none xs fuel s1 v1
      (sym (destroy_all-next fuel s (λ z. nz (sym first ∙ z)) head) ∙ e)

release-Keeps : (p : ℕ) (s : Sink) {s' : Sink} → release p s ≡ some s' → Keeps s s'
unfolding release free
release-Keeps p s e = (ground arith, ground arith)

destroyed_inv :
    (x : Walk Sink) (v : Server) {r : YsResult} {w : Server}
    → ◌≡◌ {A = Walk (YsResult × Server)}
        (elim x [
          | ended s ↦ ended (success, record v { sink = s })
          | fault ↦ fault
          | unfinished ↦ unfinished
        ])
        (ended (r, w))
    → x ≡ ended w.sink
destroyed_inv (ended s) v e = ap (λ y. ended y.1.sink) (ended_inj e)
destroyed_inv fault v e = absurd (fault_ne e)
destroyed_inv unfinished v e = absurd (unfinished_ne e)

module _ (mem : Memory) where
  pub none-IsWhole : (s : Sink) → Chain.IsValid s [] → IsWhole mem s
  none-IsWhole s v = record {
    members = [];
    history = λ x. [];
    list = v;
    holding = tt;
    informed = tt;
  }

  closed-whole :
      (fuel connection : ℕ) (s : Sink) (history : ℕ → List EventData) (xs : List ℕ) {s' : Sink}
      → IsNewest connection s
      → closed fuel connection s ≡ ended s'
      → Chain.IsValid s xs
      → Holding mem s.heap history xs
      → AllInformed mem s.heap history xs
      → IsWhole mem s'
  closed-whole fuel connection s history [] newest e v hold all = absurd (newest.0 v.chain)
  closed-whole fuel connection s history (x ∷ xs) newest e v hold (one, all) =
      let (list, held, agrees) =
        closed-Holding mem fuel connection s history x xs newest e v hold in
      record {
        members = xs;
        history = history;
        list = list;
        holding = held;
        informed = Informed-Agrees mem s _ x history xs agrees v.distinct.0 hold.1 all;
      }

  pub closed-IsWhole :
      (fuel connection : ℕ) (s : Sink) {s' : Sink}
      → IsWhole mem s
      → IsNewest connection s
      → closed fuel connection s ≡ ended s'
      → IsWhole mem s'
  closed-IsWhole fuel connection s whole newest e =
      closed-whole fuel connection s whole.history whole.members newest e whole.list whole.holding
        whole.informed

module _ (shutdown_server : Sink → Sink) where
  free_memory-Keeps :
      (v : Server) {w : Server} → free_memory shutdown_server v ≡ some w → Keeps v.sink w.sink
  unfolding free_memory
  free_memory-Keeps v {w} e = elim (Bool-cases (v.allocator == 0)) [
    | inl off ↦
        let same : v ≡ w = some_inj (rw off at e) in
        subst (λ k. Keeps v.sink k.sink) same (refl, refl)
    | inr on ↦
        let (s, freed, rest) =
          option_bind_inv (release v.memory v.sink) (λ s. some (record v { sink = s }))
            (rw on at e) in
        subst (λ k. Keeps v.sink k.sink) (some_inj rest) (release-Keeps v.memory v.sink freed)
  ]

  start_server-Keeps :
      (port allocator : ℕ) (a : Answers) (v : Server) {r : YsResult} {w : Server}
      → start_server shutdown_server port allocator a v ≡ ended (r, w)
      → Keeps v.sink w.sink
  unfolding start_server allocate free
  start_server-Keeps port allocator a v {r} {w} e = elim (Bool-cases (allocator == 0)) [
    | inl null ↦ absurd (fault_ne (rw null at e))
    | inr given ↦ elim (Bool-cases (a.memory == 0)) [
      | inl nothing ↦
          subst (λ k. Keeps v.sink k.1.sink) (ended_inj (rw (given, nothing) at e)) (refl, refl)
      | inr something ↦ elim (Bool-cases (a.server == 0)) [
        | inl failed ↦
            subst (λ k. Keeps v.sink k.1.sink) (ended_inj (rw (given, something, failed) at e))
              (refl, refl)
        | inr started ↦
            subst (λ k. Keeps v.sink k.1.sink) (ended_inj (rw (given, something, started) at e))
              (refl, refl)
      ]
    ]
  ]

  stop_server-IsValid :
      (v : Server) (xs ys : List ℕ)
      → Chain.IsValid v.sink xs
      → Chain.IsValid (shutdown_server v.sink) ys
      → (zs : List ℕ) × Chain.IsValid (stop_server shutdown_server v).sink zs
  unfolding stop_server
  stop_server-IsValid v xs ys list after = elim (Bool-cases (v.server == 0)) [
    | inl off ↦ (xs, rw off list)
    | inr on ↦ (ys, rw on after)
  ]

  Keeps-IsValid :
      (s s' : Sink) (xs : List ℕ) → Keeps s s' → Chain.IsValid s xs → Chain.IsValid s' xs
  Keeps-IsValid s s' xs (heap, sessions) v = record {
    chain = rw (heap, sessions) v.chain;
    distinct = v.distinct;
  }

  -- Close of a whole list, where it ends, leaves no session.
  pub close-none :
      (fuel : ℕ) (v : Server) (xs ys : List ℕ) {r : YsResult} {w : Server}
      → Chain.IsValid v.sink xs
      → Chain.IsValid (shutdown_server v.sink) ys
      → close shutdown_server fuel v ≡ ended (r, w)
      → Chain.IsValid w.sink []
  unfolding close
  close-none fuel v xs ys list after e =
      let (zs, stopped) = stop_server-IsValid v xs ys list after in
      elim (free_cases (free_memory shutdown_server (stop_server shutdown_server v))) [
        | inl bad ↦ absurd (fault_ne (rw (bad, close) at e))
        | inr (u, freed) ↦
            destroy_all-none zs fuel u.sink
              (Keeps-IsValid _ u.sink zs (free_memory-Keeps _ freed) stopped)
              (destroyed_inv (destroy_all fuel u.sink) u (rw (freed, close) at e))
      ]
    where
      free_cases : (o : Option Server) → (o ≡ none) ⊎ ((u : Server) × (o ≡ some u))
      free_cases none = inl refl
      free_cases (some u) = inr (u, refl)

  -- Listen on a whole list, where it ends, leaves no session.
  pub listen-none :
      (fuel port allocator : ℕ) (a : Answers) (v : Server) (xs ys : List ℕ) {r : YsResult}
      {w : Server}
      → Chain.IsValid v.sink xs
      → Chain.IsValid (shutdown_server v.sink) ys
      → listen shutdown_server fuel port allocator a v ≡ ended (r, w)
      → Chain.IsValid w.sink []
  unfolding listen
  listen-none fuel port allocator a v xs ys list after e =
      let ((r1, u), closed_it, rest) =
        bind_inv (close shutdown_server fuel v)
          (λ (r, u). start_server shutdown_server port allocator a u) e in
      Keeps-IsValid u.sink _ [] (start_server-Keeps port allocator a u rest)
        (close-none fuel v xs ys list after closed_it)
