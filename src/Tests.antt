-- ===== src/Tests.antt =====
-- The theorems at concrete inputs, and the data for them.
pub mod Wires
pub mod Sessions
pub mod Circulars
pub mod Sinks
pub mod Servers
pub mod Threads
pub mod Queues
pub mod Locks
pub mod Platforms
pub mod Programs
pub mod Turns
pub mod Watching
use yardstick.Base.{zero, suc, ◌<◌, ◌≡◌, refl, some, List, replicate, get_elem?, arith, ℕ, ◌+◌, ◌%◌}
use yardstick.Protocol.{Memory, EventData}

-- A memory of letters, in which every string has three of them.
abbrev pub letters : Memory
letters = record { byte = λ p. 97 + p % 26; strlen = λ p. 3 }

-- Numbers as they are, for the rounding of a client.
abbrev pub same : ℕ → ℕ
same n = n

-- A region in line 12, whose name and file are the strings at 100 and 200.
abbrev pub some_region : EventData
some_region = EventData.region 12 100 200 5 9

-- Zeros.
abbrev pub zeros : ℕ → List ℕ
zeros n = replicate n 0

pub get-zeros : (n i : ℕ) → i < n → get_elem? (zeros n) i ≡ some 0
get-zeros zero i h = absurd (omega arith)
get-zeros (suc n) zero h = refl
get-zeros (suc n) (suc i) h = get-zeros n i (omega arith)
