-- ===== src/Tests/Platforms.antt =====
-- Examples for src/Clock.h, src/Algorithm.h and src/Protocol.h.
use mathlib.Core.Option
use yardstick.Base.{ℕ, ◌≡◌, ◌≢◌, Bool, List, [], ◌∷◌, ◌==◌, ltb, arith}
use yardstick.Tests.{letters, zeros}
use yardstick.Clock.{Platform, chrono}
use yardstick.Algorithm.{find_if, find_value, IsFirst, searches-IsFirst}
use yardstick.Protocol.{EventData, event_type, encode_event}
use yardstick.Protocol.Contract.{documented_result, result_of, encode_event-documented}

-- A clock of a thousand ticks a second.
abbrev milliseconds : Platform
milliseconds = chrono 10 1000

abbrev numbers : List ℕ
numbers = 4 ∷ 7 ∷ 9 ∷ []

abbrev above_5 : ℕ → Bool
above_5 n = ltb 5 n

searches-IsFirst_example :
    IsFirst above_5 numbers (find_if numbers above_5)
    × IsFirst (λ x. x == 9) numbers (find_value ◌==◌ numbers 9)
searches-IsFirst_example = searches-IsFirst numbers above_5 ◌==◌ 9

tick-no_text : event_type (EventData.tick 7) ≢ 5
unfolding event_type
tick-no_text = omega arith

encode_event-documented_example :
    result_of (encode_event letters (Option.some (zeros 12)) 8 (EventData.tick 7))
    ≡ Option.some (documented_result 8 (EventData.tick 7))
encode_event-documented_example =
    encode_event-documented letters (zeros 12) 8 (EventData.tick 7) tick-no_text (omega arith)
      (omega arith)
