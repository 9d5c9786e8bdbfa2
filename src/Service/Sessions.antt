-- ===== src/Service/Sessions.antt =====
-- src/WebsocketSink.h: what holds of the sessions whenever no client leaves.
use mathlib.Core.Path.{subst}
use yardstick.Sink.Walks.{ended_inj}
use yardstick.Base.{
  some_inj, none_ne, ℕ, suc, ◌+◌, ◌≡◌, ◌≢◌, refl, sym, ◌∙◌, Option, none, some, List, [], ◌∷◌,
  length, All, arith, update, update_self, update-ne, Bool,
}
use yardstick.Protocol.{Memory, EventData, event_type}
use yardstick.Session.{flush_session, write_session_event}
use yardstick.Sink.{Node, Sink, Blocks, ended, create_session, write_event, flush}
use yardstick.Sink.Chain
use yardstick.Sink.Chain.{Chain-out}
use yardstick.Sink.Fuel.{for_each-more}
use yardstick.Sink.Broadcast.{Holding, write_event-Told, flush-Served}
use yardstick.Background.Taking.{Told-Holding, after_one, table_at-some}
use yardstick.Service.Informing.{
  AllInformed, Told-Informed, Informed-tables, Informed-kept, Informed-fresh,
}
use yardstick.Background.Serving.{Served-Holding, Served-tables}
use yardstick.Connection.{connected}
use yardstick.Connection.Opening.{connected-Log}
use yardstick.Emit.{connected_header}

-- A sink before its first client.
abbrev pub empty_sink : (ℕ → Bool) → Sink
empty_sink live = record { heap = λ p. none; live = live; misfreed = []; sessions = 0 }

module _ (mem : Memory) where
  -- A client comes, and its session is made or there is no memory for the session's block; the
  -- background thread writes an event that is not a string; it flushes.
  pub data Step (s : Sink) : Sink → Type 0 where
    opened :
        {s' : Sink} (frequency now allocator : ℕ) (b : Blocks) (connection : ℕ)
        → b.session_block ≢ 0
        → b.buffer_block ≢ 0
        → b.table_block ≢ 0
        → s.heap b.session_block ≡ none
        → connected mem frequency now allocator b connection s ≡ some s'
        → Step s s'
    unopened :
        {s' : Sink} (frequency now allocator : ℕ) (b : Blocks) (connection : ℕ)
        → b.session_block ≡ 0
        → connected mem frequency now allocator b connection s ≡ some s'
        → Step s s'
    wrote :
        {s' : Sink} (fuel : ℕ) (ev : EventData)
        → event_type ev ≢ 5
        → write_event mem fuel ev s ≡ ended s'
        → Step s s'
    flushed : {s' : Sink} (fuel : ℕ) → flush fuel s ≡ ended s' → Step s s'

  -- The sink's list is whole, and each of its sessions is valid and has taken a history, which
  -- waits in its buffer or has been sent, and in which the strings of each event stand before it.
  pub record IsWhole (s : Sink) : Type 0 where
    pub members : List ℕ
    pub history : ℕ → List EventData
    pub list : Chain.IsValid s members
    pub holding : Holding mem s.heap history members
    pub informed : AllInformed mem s.heap history members

  Holding-kept :
      (heap heap' : ℕ → Option Node) (h h' : ℕ → List EventData) (xs : List ℕ)
      → All (λ x. (heap' x ≡ heap x) × (h x ≡ h' x)) xs
      → Holding mem heap h xs
      → Holding mem heap' h' xs
  Holding-kept heap heap' h h' [] same hold = tt
  Holding-kept heap heap' h h' (x ∷ xs) ((e, f), same) ((n, here, v, l), rest) =
      ((n, e ∙ here, v, rw (← f) l), Holding-kept heap heap' h h' xs same rest)

  write-IsWhole :
      (fuel : ℕ) (ev : EventData) (s : Sink) {s' : Sink}
      → event_type ev ≢ 5
      → write_event mem fuel ev s ≡ ended s'
      → IsWhole s
      → IsWhole s'
  unfolding write_event
  write-IsWhole fuel ev s plain e w =
      let more : ℕ = fuel + suc (length w.members) in
      let (u, ends, valid, told) =
        write_event-Told mem ev plain more s w.history w.members w.list w.holding (omega arith) in
      let same : u ≡ _ = ended_inj (
        sym ends
        ∙ for_each-more (write_session_event mem ev) fuel more s.sessions s (omega arith) e) in
      subst IsWhole same (record {
        members = w.members;
        history = after_one mem s.heap w.history ev;
        list = valid;
        holding = Told-Holding mem ev s.heap u.heap w.history w.members told;
        informed = Told-Informed mem ev s.heap u.heap w.history w.members told w.informed;
      })

  flush-IsWhole :
      (fuel : ℕ) (s : Sink) {s' : Sink} → flush fuel s ≡ ended s' → IsWhole s → IsWhole s'
  unfolding flush
  flush-IsWhole fuel s e w =
      let more : ℕ = fuel + suc (length w.members) in
      let (u, ends, valid, served) = flush-Served more s w.members w.list (omega arith) in
      let same : u ≡ _ =
        ended_inj (sym ends ∙ for_each-more flush_session fuel more s.sessions s (omega arith) e) in
      subst IsWhole same (record {
        members = w.members;
        history = w.history;
        list = valid;
        holding = Served-Holding mem s.heap u.heap w.history w.members w.holding served;
        informed =
            Informed-tables mem s.heap u.heap w.history w.members
              (Served-tables mem s.heap u.heap w.history w.members w.holding served) w.informed;
      })

  -- A block outside the list gets a session, and no other block is touched.
  kept_others :
      (b : ℕ) (first : List EventData) (heap heap' : ℕ → Option Node) (history : ℕ → List EventData)
      (xs : List ℕ)
      → ((y : ℕ) → b ≢ y → heap' y ≡ heap y)
      → All (λ x. x ≢ b) xs
      → All (λ x. (heap' x ≡ heap x) × (history x ≡ update history b first x)) xs
  kept_others b first heap heap' history [] others out = tt
  kept_others b first heap heap' history (x ∷ xs) others (ne, out) = (
    (others x (λ e. ne (sym e)), sym (update-ne history b x first (λ e. ne (sym e)))),
    kept_others b first heap heap' history xs others out,
  )

  -- A session is only made with an allocator.
  connected-given :
      (frequency now allocator : ℕ) (b : Blocks) (connection : ℕ) (s : Sink) {s' : Sink}
      → connected mem frequency now allocator b connection s ≡ some s'
      → allocator ≢ 0
  unfolding connected create_session
  connected-given frequency now allocator b connection s e z =
      none_ne (rw (z, connected, create_session) at e)

  open-IsWhole :
      (frequency now allocator : ℕ) (b : Blocks) (connection : ℕ) (s : Sink) {s' : Sink}
      → b.session_block ≢ 0
      → b.buffer_block ≢ 0
      → b.table_block ≢ 0
      → s.heap b.session_block ≡ none
      → connected mem frequency now allocator b connection s ≡ some s'
      → IsWhole s
      → IsWhole s'
  open-IsWhole frequency now allocator b connection s nz1 nz2 nz3 dead e w =
      let (u, ends, list, (n, here, v, l, table), others) =
        connected-Log mem frequency now allocator b connection s w.members
          (connected-given frequency now allocator b connection s e) nz1 nz2 nz3 dead w.list in
      let same : u ≡ _ = some_inj (sym ends ∙ e) in
      let first : List EventData = connected_header frequency now ∷ [] in
      let kept =
        kept_others b.session_block first s.heap u.heap w.history w.members others
          (Chain-out s.heap s.sessions b.session_block w.members dead w.list.chain) in
      subst IsWhole same (record {
        members = b.session_block ∷ w.members;
        history = update w.history b.session_block first;
        list = list;
        holding = (
          (n, here, v, rw (update_self w.history b.session_block first) l),
          Holding-kept s.heap u.heap w.history (update w.history b.session_block first) w.members
              kept w.holding,
        );
        informed = (
          rw
              (
                table_at-some u.heap b.session_block here,
                table,
                update_self w.history b.session_block first,
              )
              (Informed-fresh mem connection frequency now),
          Informed-kept mem s.heap u.heap w.history (update w.history b.session_block first)
              w.members kept w.informed,
        );
      })

  pub connected-of_null :
      (frequency now allocator : ℕ) (b : Blocks) (connection : ℕ) (s : Sink)
      → allocator ≢ 0
      → b.session_block ≡ 0
      → connected mem frequency now allocator b connection s ≡ some s
  unfolding connected create_session
  connected-of_null frequency now allocator b connection s nz null = ground arith

  pub Step-IsWhole : {s s' : Sink} → IsWhole s → Step s s' → IsWhole s'
  Step-IsWhole {s} w (opened frequency now allocator b connection nz1 nz2 nz3 dead e) =
      open-IsWhole frequency now allocator b connection s nz1 nz2 nz3 dead e w
  Step-IsWhole {s} w (unopened frequency now allocator b connection null e) =
      let z =
        connected-of_null frequency now allocator b connection s
          (connected-given frequency now allocator b connection s e) null in
      let same : _ ≡ s = cc in subst IsWhole (sym same) w
  Step-IsWhole {s} w (wrote fuel ev plain e) = write-IsWhole fuel ev s plain e w
  Step-IsWhole {s} w (flushed fuel e) = flush-IsWhole fuel s e w

  pub empty-IsWhole : (live : ℕ → Bool) → IsWhole (empty_sink live)
  empty-IsWhole live = record {
    members = [];
    history = λ x. [];
    list = record { chain = refl; distinct = tt };
    holding = tt;
    informed = tt;
  }
