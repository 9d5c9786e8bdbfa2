-- ===== src/Server/Listening.antt =====
-- src/WebsocketSink.cpp: `Listen` on every answer of the allocator and of the web server.
use yardstick.Base.{
  suc, ◌∷◌, ℕ, ◌≡◌, ◌≢◌, ◌≤◌, ◌∙◌, sym, none, some, true, false, List, [], All, length, arith, ◌==◌,
  update_self, Bool-cases, inl, inr,
}
use yardstick.Api.{success}
use yardstick.Sink.{Sink, ended, fault, free, destroy_all}
use yardstick.Sink.Chain.{IsValid}
use yardstick.Sink.Owning.{blocks_of, Owns}
use yardstick.Server.{Server, release, stop_server, free_memory, close}

-- The list of sessions is whole, the server's block and the blocks of the sessions and of their
-- buffers are allocated, and no two of these are the same.
pub record IsReady (v : Server) (xs : List ℕ) : Type 0 where
  pub list : IsValid v.sink xs
  pub owned : v.memory ≢ 0 → v.sink.live v.memory ≡ true
  pub blocks : Owns v.sink (blocks_of v.sink.heap xs)
  pub apart : v.memory ≢ 0 → All (λ b. b ≢ v.memory) (blocks_of v.sink.heap xs)

-- What webby's shutdown leaves of a sink: a list of no more sessions, and their blocks and the
-- server's; it frees nothing that is not allocated.
pub record Shuts (shutdown_server : Sink → Sink) (v : Server) (xs : List ℕ) : Type 0 where
  pub remaining : List ℕ
  pub fewer : length remaining ≤ length xs
  pub ready : IsReady (record v { sink = shutdown_server v.sink }) remaining
  pub careful : (shutdown_server v.sink).misfreed ≡ v.sink.misfreed

module _ (shutdown_server : Sink → Sink) where
  stop_server-IsReady :
      (v : Server) (xs : List ℕ)
      → IsReady v xs
      → Shuts shutdown_server v xs
      → (ys : List ℕ) × (length ys ≤ length xs)
        × IsReady (stop_server shutdown_server v) ys
        × ((stop_server shutdown_server v).memory ≡ v.memory)
        × ((stop_server shutdown_server v).server ≡ 0)
        × ((stop_server shutdown_server v).allocator ≡ v.allocator)
        × ((stop_server shutdown_server v).sink.misfreed ≡ v.sink.misfreed)
  unfolding stop_server
  stop_server-IsReady v xs r sh = elim (Bool-cases (v.server == 0)) [
    | inl off ↦ (xs, omega arith, rw off r, rw off, ground arith, rw off, rw off)
    | inr on ↦ (
      sh.remaining,
      sh.fewer,
      rw on (record {
        list = sh.ready.list;
        owned = sh.ready.owned;
        blocks = sh.ready.blocks;
        apart = sh.ready.apart;
      }),
      rw on,
      rw on,
      rw on,
      rw on sh.careful,
    )
  ]

  heap-free : (p : ℕ) (s : Sink) → (free p s).heap ≡ s.heap
  unfolding free
  heap-free p s = ground arith

  no_sessions : (s : Sink) (xs : List ℕ) → length xs ≤ 0 → IsValid s xs → s.sessions ≡ 0
  no_sessions s [] h v = v.chain
  no_sessions s (x ∷ xs) h v = absurd (omega arith)

  -- On a sink with an allocator, with its server's block allocated and with no session, before and
  -- after the web server's shutdown, Close returns Success and a second Close frees the server's
  -- block again.
  pub close-twice :
      (fuel fuel' : ℕ) (v : Server)
      → IsReady v []
      → Shuts shutdown_server v []
      → v.allocator ≢ 0
      → v.memory ≢ 0
      → (w : Server) × (close shutdown_server (suc fuel) v ≡ ended (success, w))
        × (close shutdown_server fuel' w ≡ fault)
  unfolding close free_memory release free destroy_all
  close-twice fuel fuel' v r sh given something =
      let (ys, fewer, ready, memory, off, allocator, careful) = stop_server-IsReady v [] r sh in
      let s1 : Server = stop_server shutdown_server v in
      let empty : s1.sink.sessions ≡ 0 = no_sessions s1.sink ys fewer ready.list in
      let some_memory : s1.memory ≢ 0 = λ z. something (sym memory ∙ z) in
      let some_allocator : s1.allocator ≢ 0 = λ z. given (sym allocator ∙ z) in
      let lives : s1.sink.live s1.memory ≡ true = ready.owned some_memory in
      let w : Server = record s1 { sink = free s1.memory s1.sink } in
      let freed : free_memory shutdown_server s1 ≡ some w = ground arith in
      let gone : destroy_all (suc fuel) w.sink ≡ ended w.sink = ground arith in
      let stays : stop_server shutdown_server w ≡ w = unfold stop_server in rw off in
      let dead : w.sink.live w.memory ≡ false =
        ground (arith, update_self s1.sink.live s1.memory false) in
      let again : free_memory shutdown_server w ≡ none = ground arith in
      (w, rw (freed, gone, close), rw (stays, again, close))
