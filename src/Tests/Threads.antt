-- ===== src/Tests/Threads.antt =====
-- Examples for src/GlobalState.cpp.
use yardstick.Base.{◌≡◌, List, [], ◌∷◌, ℕ, ◌==◌, if◌then◌else◌}
use yardstick.Protocol.{EventData}
use yardstick.Api.{YsResult, success, unknown}
use yardstick.Registry.{Registry}
use yardstick.Lifecycle.{run, initial, ApiCall, call_initialize, call_shutdown, call_listen_web}
use yardstick.Lifecycle.Machine.{off, respond_all, Represents, run_refines}

abbrev pub ticks : List EventData
ticks = EventData.tick 1 ∷ EventData.tick 2 ∷ []

-- A registry with the thread 8.
abbrev pub one_thread : Registry
one_thread = record { links = λ p. record { prev = 0; next = 0 }; threads = 8 }

abbrev pub no_threads : Registry
no_threads = record { links = λ p. record { prev = 0; next = 0 }; threads = 0 }

-- A sink's `Listen` that keeps the port.
abbrev listen_on : ℕ → ℕ → ℕ → YsResult × ℕ
listen_on port allocator s = (if port == 0 then unknown else success, port)

abbrev calls : List ApiCall
calls =
    call_listen_web 80
    ∷ call_initialize 0
    ∷ call_initialize 5
    ∷ call_listen_web 80
    ∷ call_shutdown
    ∷ []

run_refines_example :
    ((run listen_on calls (initial 0)).0 ≡ (respond_all listen_on calls off 0).0)
    × Represents listen_on
        (run listen_on calls (initial 0)).1
        (respond_all listen_on calls off 0).1
        (respond_all listen_on calls off 0).2
run_refines_example = run_refines listen_on calls 0
