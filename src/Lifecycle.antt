-- ===== src/Lifecycle.antt =====
-- src/GlobalState.cpp: `Initialize`, `Shutdown` and `ListenWebsocket`, one call after another under
-- the state's lock. An allocator is an address, 0 is the null pointer. `listen` is the sink's.
pub mod Machine
use yardstick.Base.{ℕ, ◌==◌, if◌then◌else◌, not, Bool, true, false, List, [], ◌∷◌}
use yardstick.Api.{YsResult, success, already_initialized, invalid_parameter, uninitialized}

-- `_active`, whether `_backgroundThread` is joinable, `_allocator`, `_websocketSink`
pub record Global {ℓ} (S : Type ℓ) : Type ℓ where
  pub active : Bool
  pub joinable : Bool
  pub allocator : ℕ
  pub sink : S

-- `IsActive`
unfoldable pub is_active {ℓ} : {S : Type ℓ} → Global S → Bool
is_active g = g.active

module _ {ℓ} {S : Type ℓ} where
  unfoldable pub initialize : ℕ → Global S → YsResult × Global S
  initialize alloc g =
      if g.active
      then (already_initialized, g)
      else if alloc == 0
      then (invalid_parameter, g)
      else (
        success,
        record g {
          allocator = alloc;
          active = true;
          joinable = if not g.joinable then true else g.joinable;
        },
      )

  -- The background thread leaves its loop once `_active` is false, and `join` waits for that.
  unfoldable pub shutdown : Global S → YsResult × Global S
  shutdown g = if not g.active then (uninitialized, g) else (
    success,
    record g { active = false; joinable = if g.joinable then false else g.joinable; allocator = 0 },
  )

  unfoldable pub listen_websocket : (ℕ → ℕ → S → YsResult × S) → ℕ → Global S → YsResult × Global S
  listen_websocket listen port g =
      if not g.active
      then (uninitialized, g)
      else (let (r, sink) = listen port g.allocator g.sink in (r, record g { sink = sink }))

-- The constructor of `GlobalState`.
unfoldable pub initial {ℓ} : {S : Type ℓ} → S → Global S
initial sink = record { active = false; joinable = false; allocator = 0; sink = sink }

-- The calls of the library's interface that reach these operations.
pub data ApiCall : Type 0 where
  call_initialize : ℕ → ApiCall
  call_shutdown : ApiCall
  call_listen_web : ℕ → ApiCall

module _ {ℓ} {S : Type ℓ} (listen : ℕ → ℕ → S → YsResult × S) where
  unfoldable pub perform : ApiCall → Global S → YsResult × Global S
  perform (call_initialize alloc) g = initialize alloc g
  perform call_shutdown g = shutdown g
  perform (call_listen_web port) g = listen_websocket listen port g

  unfoldable pub run : List ApiCall → Global S → List YsResult × Global S
  run [] g = ([], g)
  run (c ∷ cs) g = let (r, g') = perform c g in let (rs, g'') = run cs g' in (r ∷ rs, g'')
