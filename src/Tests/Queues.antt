-- ===== src/Tests/Queues.antt =====
-- Examples for src/ConcurrentQueue.h.
use yardstick.Base.{
  List, ◌≤◌, false, ◌++◌, ◌≡◌, ℕ, ◌+◌, refl, some, [], ◌∷◌, true, false, arith, length,
  length-replicate,
}
use yardstick.Tests.{zeros, get-zeros}
use yardstick.Queue.Handoff.{System, Reach, start, EnqueStep, DequeStep}
use yardstick.Queue.Handoff
use yardstick.Queue.Handoff.Order.{received-prefix}
use yardstick.Queue.{buffer_size, Queue, empty_queue, try_enque, try_deque}
use yardstick.Queue.Ring.{Holds, put, put-Holds, empty_queue-Holds}
use yardstick.Thread.{Round, finished, enque}
use yardstick.Thread.Waiting.{Waits, enque-stored}
use yardstick.Queue.Refine.{after_failures, try_enque-success, try_deque-success}

abbrev empty : Queue ℕ
empty = empty_queue (λ i. 0)

empty-Holds : Holds empty 0 []
empty-Holds = empty_queue-Holds (λ i. 0)

-- A queue with a 5 in it.
abbrev with_5 : Queue ℕ
with_5 = put empty 0 [] empty-Holds 5

with_5-Holds : Holds with_5 0 (5 ∷ [])
with_5-Holds = put-Holds empty 0 [] empty-Holds 5 (omega arith)

-- A full queue of zeros.
abbrev full : Queue ℕ
full = record { sequence = λ i. i + 1; enque = 512; deque = 0; buffer = λ i. 0 }

full-Holds : Holds full 0 (zeros 512)
full-Holds =
    let all : length (zeros 512) ≡ 512 = length-replicate {A = ℕ} 512 0 in
    record {
      bounded = omega arith;
      at_deque = refl;
      at_enque = omega arith;
      full_slots = λ i h. (omega arith, get-zeros 512 i (omega arith));
      free_slots = λ i h k. absurd (omega arith);
    }

try_enque-success_example :
    (q' : Queue ℕ) × (try_enque (after_failures 2 []) 6 with_5 ≡ some (true, q'))
    × Holds q' 0 (5 ∷ 6 ∷ [])
try_enque-success_example = try_enque-success with_5 0 (5 ∷ []) 6 2 [] with_5-Holds (omega arith)

try_deque-success_example :
    (q' : Queue ℕ) × (try_deque (after_failures 1 []) with_5 ≡ some (some 5, q')) × Holds q' 1 []
try_deque-success_example = try_deque-success with_5 0 5 [] 1 [] with_5-Holds

-- A round that finds the queue full, after which another thread leaves a queue with room.
abbrev round_full : Round ℕ
round_full = record { active = true; outcomes = after_failures 1 []; between = λ q. with_5 }

abbrev round_room : Round ℕ
round_room = record { active = true; outcomes = after_failures 0 []; between = λ q. q }

abbrev round_off : Round ℕ
round_off = record { active = false; outcomes = []; between = λ q. q }

waits-full : Waits (round_full ∷ []) full with_5
waits-full =
    Waits.full 0 (zeros 512) 1 [] refl refl full-Holds (length-replicate {A = ℕ} 512 0) Waits.here

enque-stored_example :
    (q'' : Queue ℕ) × (enque round_full ([] ++ (round_room ∷ [])) 9 full ≡ finished true true q'')
    × Holds q'' 0 (5 ∷ 9 ∷ [])
enque-stored_example =
    enque-stored 9 round_room [] 0 (5 ∷ []) 0 [] waits-full refl refl with_5-Holds (omega arith)

-- A 5 that has been handed in and is being taken out.
abbrev handed : (s : System ℕ) × Reach (λ i. 0) s
unfolding empty_queue
handed =
    let r1 =
      Handoff.enque (Handoff.enque start (EnqueStep.begin 5 refl)) (EnqueStep.load_enque refl) in
    let r2 =
      Handoff.deque (Handoff.enque r1 (EnqueStep.load_sequence refl)) (DequeStep.begin refl) in
    let r3 = Handoff.enque r2 (EnqueStep.claim refl refl refl) in
    let r4 = Handoff.deque (Handoff.enque r3 (EnqueStep.write refl)) (DequeStep.load_deque refl) in
    let r5 =
      Handoff.deque (Handoff.enque r4 (EnqueStep.publish refl)) (DequeStep.load_sequence refl) in
    (_, r5)

received-prefix_example :
    (held : List ℕ) × (handed.0.pushed ≡ handed.0.received ++ held) × (length held ≤ buffer_size)
received-prefix_example = received-prefix handed.1
