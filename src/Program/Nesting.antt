-- ===== src/Program/Nesting.antt =====
-- inc/yardstick/yardstick.h and src/yardstick.cpp: a scope that `ysProfile` opens within another.
use yardstick.Base.{
  ℕ, ◌+◌, ◌≡◌, ◌<◌, sym, Option, some, Bool, true, List, [], ◌∷◌, ◌++◌, append_assoc, length,
  length-append, update_self, arith,
}
use mathlib.Core.Path.{subst}
use yardstick.Protocol.{EventData}
use yardstick.Clock.{Platform}
use yardstick.Clock
use yardstick.Queue.{buffer_size}
use yardstick.Queue.Ring.{Holds}
use yardstick.Queue.Refine.{after_failures}
use yardstick.Thread.{Round}
use yardstick.Sink.{Sink}
use yardstick.Server.{Answers}
use yardstick.Emit.{emit_region}
use yardstick.Macros.{with_library, ys_profile}
use yardstick.Program.{Program, library}
use yardstick.Program.Profiling.{with_queue, IsOpen, ys_profile-queued}

-- Time has moved on.
abbrev pub later : (Platform → Platform) → Program → Program
later pass g = record g { clock = pass g.clock }

module _ (shutdown_server : Sink → Sink) (fuel : ℕ) (answers : Answers)
    (schedule : Program → Round EventData × List (Round EventData)) (pass : Platform → Platform)
    (memory : ℕ → EventData) (id t : ℕ) where
  -- The library is active whenever it is asked, and an exchange succeeds after some that fail for
  -- no reason.
  pub record IsServing : Type 0 where
    pub active : (g : Program) → (schedule g).0.active ≡ true
    pub failures : Program → ℕ
    pub rest : Program → List Bool
    pub outcomes : (g : Program) → (schedule g).0.outcomes ≡ after_failures (failures g) (rest g)

  opened :
      (g : Program) (taken : ℕ) (xs : List EventData)
      → IsServing
      → g.threads.constructed t ≡ true
      → Holds (g.threads.queue t) taken xs
      → length xs < buffer_size
      → IsOpen shutdown_server fuel answers schedule pass memory id t g taken xs
  opened g taken xs serving made held room = record {
    made = made;
    held = held;
    room = room;
    active = serving.active g;
    failures = serving.failures g;
    rest = serving.rest g;
    outcomes = serving.outcomes g;
  }

  -- Where a scope that ysProfile opens within another one, both over the functions of
  -- yardstick.cpp, runs to its end in a thread whose state has been made, with the library active
  -- whenever it is asked and with room for two events in the thread's queue, the scope gives what
  -- it gave, and the queue holds, behind the events that it holds by then, first the region of the
  -- inner scope, from the second reading of the clock to the reading at that scope's end, and then
  -- the region of the outer scope, from the first reading to the one that follows the inner scope's
  -- last.
  pub ys_profile-nested {κ} :
      {B : Type κ} (name file line name' file' line' : ℕ)
      (scope : Option Program → B × Option Program) (g g1 : Program) (b : B) (taken : ℕ)
      (xs : List EventData)
      → IsServing
      → scope (some (later pass (later pass g))) ≡ (b, some g1)
      → g1.threads.constructed t ≡ true
      → Holds (g1.threads.queue t) taken xs
      → 1 + length xs < buffer_size
      → (g2 : Program) × (ys_profile
            (library shutdown_server fuel answers schedule pass memory id t)
            with_library
            name
            file
            line
            (ys_profile
              (library shutdown_server fuel answers schedule pass memory id t)
              with_library
              name'
              file'
              line'
              scope)
            (some g)
          ≡ (b, some g2))
        × Holds (g2.threads.queue t) taken (
            xs
            ++ (emit_region
                  (Clock.read_clock (pass g.clock))
                  (Clock.read_clock g1.clock)
                  name'
                  file'
                  line'
                ∷ emit_region
                    (Clock.read_clock g.clock)
                    (Clock.read_clock (pass g1.clock))
                    name
                    file
                    line
                ∷ []))
  ys_profile-nested name file line name' file' line' scope g g1 b taken xs serving runs made held
        room =
      let inner =
        emit_region (Clock.read_clock (pass g.clock)) (Clock.read_clock g1.clock) name' file'
          line' in
      let (q, first, held1) =
        ys_profile-queued shutdown_server fuel answers schedule pass memory id t name' file' line'
          scope (later pass g) g1 b taken xs runs
          (opened (later pass g1) taken xs serving made held (omega arith)) in
      let middle : Program = with_queue t q (later pass g1) in
      let held2 : Holds (middle.threads.queue t) taken (xs ++ (inner ∷ [])) =
        subst (λ k. Holds k taken (xs ++ (inner ∷ []))) (sym (update_self g1.threads.queue t q))
          held1 in
      let (q', second, held3) =
        ys_profile-queued shutdown_server fuel answers schedule pass memory id t name file line
          (ys_profile (library shutdown_server fuel answers schedule pass memory id t) with_library
            name' file' line' scope)
          g middle b taken (xs ++ (inner ∷ [])) first
          (opened (later pass middle) taken (xs ++ (inner ∷ [])) serving made held2
            (omega (arith, length-append xs (inner ∷ [])))) in
      (
        with_queue t q' (later pass middle),
        second,
        subst
            (λ k. Holds k taken (
              xs
              ++ (inner
                  ∷ emit_region (Clock.read_clock g.clock) (Clock.read_clock (pass g1.clock)) name
                      file line
                  ∷ [])))
            (sym (update_self middle.threads.queue t q'))
            (subst (Holds q' taken) (append_assoc xs (inner ∷ []) _) held3),
      )
