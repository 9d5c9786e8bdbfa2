-- ===== src/Protocol/Reading.antt =====
-- src/Protocol.cpp: `read` after `write`.
use mathlib.Core.Option
use yardstick.Base.{
  ℕ, ◌+◌, ◌^◌, ◌≤◌, ◌<◌, ◌≡◌, ap, ◌∙◌, List, ◌++◌, length, length-take, take, drop,
  take-append_self, drop-append_self, arith,
}
use yardstick.Protocol.{Output, running, copy, try_write, read_value}

-- What stands behind a prefix of a known length.
drop_front : (n : ℕ) (front back : List ℕ) → length front ≡ n → drop n (front ++ back) ≡ back
drop_front n front back e = rw (← e) (drop-append_self front back)

module _ (available : ℕ) (value : List ℕ) (o : Output)
    (fits : o.out_length + length value ≤ available) (room : available ≤ length o.buffer)
    (small : available < 2 ^ 64) where
  abbrev after_write : Output
  after_write = record {
    buffer = take o.out_length o.buffer ++ (value ++ drop (o.out_length + length value) o.buffer);
    out_length = o.out_length + length value;
  }

  try_write-running : try_write available value o ≡ running after_write
  unfolding try_write copy
  try_write-running = ground arith

  front_length : length (take o.out_length o.buffer) ≡ o.out_length
  front_length = omega (arith, length-take o.out_length o.buffer)

  value_there : take (length value) (drop o.out_length after_write.buffer) ≡ value
  value_there =
      ap (take (length value)) (drop_front o.out_length (take o.out_length o.buffer) _ front_length)
      ∙ take-append_self value _

  read_value-running :
      read_value (length value) after_write.buffer available o.out_length
      ≡ Option.some
          (take (length value) (drop o.out_length after_write.buffer), o.out_length + length value)
  unfolding read_value
  read_value-running = ground arith

  -- Where a value fits the space and the space lies in the buffer, write succeeds, and read from
  -- the same position gives the value and steps over it.
  pub read_value-try_write :
      (o' : Output) × (try_write available value o ≡ running o')
      × (read_value (length value) o'.buffer available o.out_length
          ≡ Option.some (value, o'.out_length))
  read_value-try_write = (
    after_write,
    try_write-running,
    read_value-running ∙ ap (λ v. Option.some (v, o.out_length + length value)) value_there,
  )
