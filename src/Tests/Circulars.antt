-- ===== src/Tests/Circulars.antt =====
-- Examples for src/ConcurrentCircularBuffer.h.
use yardstick.Base.{
  ◌+◌, ◌%◌, ◌≡◌, ◌∙◌, sym, ℕ, [], ◌∷◌, ◌++◌, true, arith, length, length-replicate, take, drop, min,
}
use yardstick.Tests.{zeros, get-zeros}
use yardstick.Circular.{Circular, try_write_bytes, read_bytes}
use yardstick.Circular.Refine.{Stores, try_write_bytes-success}
use yardstick.Circular.Reading.{read_bytes_lem}

-- Five zeros over the end of the array.
abbrev wrapped : Circular
wrapped = record { write = 3; read = 1022; buffer = zeros 1024 }

wrapped-Stores : Stores wrapped (zeros 5)
wrapped-Stores =
    let all : length (zeros 1024) ≡ 1024 = length-replicate {A = ℕ} 1024 0 in
    let five : length (zeros 5) ≡ 5 = length-replicate {A = ℕ} 5 0 in
    record {
      whole = all;
      start = omega arith;
      few = omega arith;
      end = omega arith;
      bytes = λ k h.
          get-zeros 5 k (omega arith) ∙ sym (get-zeros 1024 ((1022 + k) % 1024) (omega arith));
    }

try_write_bytes-success_example :
    (c' : Circular) × (try_write_bytes (7 ∷ 8 ∷ []) wrapped ≡ (true, c'))
    × Stores c' (zeros 5 ++ (7 ∷ 8 ∷ []))
try_write_bytes-success_example =
    try_write_bytes-success wrapped (zeros 5) (7 ∷ 8 ∷ []) wrapped-Stores (omega arith)

read_bytes_lem_example :
    (c' : Circular) × (read_bytes 3 wrapped ≡ (take (min 3 5) (zeros 5), c'))
    × Stores c' (drop (min 3 5) (zeros 5))
read_bytes_lem_example = read_bytes_lem wrapped (zeros 5) 3 wrapped-Stores
