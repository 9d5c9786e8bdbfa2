-- ===== src/Lifecycle/Machine.antt =====
-- src/GlobalState.cpp: the life of the library as a machine with two states.
use yardstick.Base.{ℕ, ◌≡◌, ◌≢◌, refl, ap₂, ◌==◌, if◌then◌else◌, true, false, List, [], ◌∷◌, arith}
use yardstick.Api.{YsResult, success, already_initialized, invalid_parameter, uninitialized}
use yardstick.Lifecycle.{
  Global, initialize, shutdown, listen_websocket, initial, ApiCall, call_initialize, call_shutdown,
  call_listen_web, perform, run,
}

-- Off, or on with an allocator.
pub data Life : Type 0 where
  off : Life
  on : ℕ → Life

module _ {S : Type 0} (listen : ℕ → ℕ → S → YsResult × S) where
  -- What a call returns and does, by the state of the library.
  unfoldable pub respond : ApiCall → Life → S → YsResult × Life × S
  respond (call_initialize alloc) off s =
      if alloc == 0 then (invalid_parameter, off, s) else (success, on alloc, s)
  respond (call_initialize alloc) (on a) s = (already_initialized, on a, s)
  respond call_shutdown off s = (uninitialized, off, s)
  respond call_shutdown (on a) s = (success, off, s)
  respond (call_listen_web port) off s = (uninitialized, off, s)
  respond (call_listen_web port) (on a) s = let (r, s') = listen port a s in (r, on a, s')

  unfoldable pub respond_all : List ApiCall → Life → S → List YsResult × Life × S
  respond_all [] l s = ([], l, s)
  respond_all (c ∷ cs) l s =
      let (r, l', s') = respond c l s in
      let (rs, l'', s'') = respond_all cs l' s' in (r ∷ rs, l'', s'')

  -- The flag, the thread and the allocator say the same of the state.
  abbrev pub Represents : Global S → Life → S → Type 0
  Represents g off s = record {
    idle : g.active ≡ false;
    stopped : g.joinable ≡ false;
    cleared : g.allocator ≡ 0;
    kept : g.sink ≡ s;
  }
  Represents g (on a) s = record {
    busy : g.active ≡ true;
    running : g.joinable ≡ true;
    given : g.allocator ≡ a;
    usable : a ≢ 0;
    kept : g.sink ≡ s;
  }

  perform-Represents :
      (c : ApiCall) (g : Global S) (l : Life) (s : S)
      → Represents g l s
      → ((perform listen c g).0 ≡ (respond c l s).0)
        × Represents (perform listen c g).1 (respond c l s).1 (respond c l s).2
  unfolding perform respond initialize shutdown listen_websocket
  perform-Represents (call_initialize alloc) g off s h = ground arith
  perform-Represents (call_initialize alloc) g (on a) s h = ground arith
  perform-Represents call_shutdown g off s h = ground arith
  perform-Represents call_shutdown g (on a) s h = ground arith
  perform-Represents (call_listen_web port) g off s h = ground arith
  perform-Represents (call_listen_web port) g (on a) s h = ground arith

  run-Represents :
      (cs : List ApiCall) (g : Global S) (l : Life) (s : S)
      → Represents g l s
      → ((run listen cs g).0 ≡ (respond_all cs l s).0)
        × Represents (run listen cs g).1 (respond_all cs l s).1 (respond_all cs l s).2
  unfolding run respond_all
  run-Represents [] g l s h = (refl, h)
  run-Represents (c ∷ cs) g l s h =
      let (same, kept) = perform-Represents c g l s h in
      let (rest, ends) = run-Represents cs (perform listen c g).1 _ _ kept in
      (ap₂ ◌∷◌ same rest, ends)

  -- Whatever calls of Initialize, Shutdown and ListenWebsocket are made one after another from a
  -- fresh state, each returns what a machine of two states says, and the flag, the background
  -- thread, the allocator and the sink are those of the machine's state.
  pub run_refines :
      (cs : List ApiCall) (s : S)
      → ((run listen cs (initial s)).0 ≡ (respond_all cs off s).0)
        × Represents (run listen cs (initial s)).1 (respond_all cs off s).1 (respond_all cs off s).2
  unfolding initial
  run_refines cs s =
      run-Represents cs _ off s
        (record { idle = refl; stopped = refl; cleared = refl; kept = refl })
