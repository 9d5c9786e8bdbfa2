-- ===== src/Sink/Fresh.antt =====
-- src/WebsocketSink.cpp: what `CreateSession` makes is a session with nothing in it.
use yardstick.Base.{◌<◌, ◌^◌, refl, [], ℕ, zero, suc, arith, length-replicate, replicate, All}
use yardstick.Protocol.{Memory}
use yardstick.Session.Wire.{wire}
use yardstick.Session.Valid.{IsValid, Log}
use yardstick.Sink.{fresh_session}

All-replicate : (n : ℕ) → All (λ b. b < 2 ^ 8) (replicate n 0)
All-replicate zero = tt
All-replicate (suc n) = (omega arith, All-replicate n)

pub fresh_session-IsValid : (connection : ℕ) → IsValid (fresh_session connection)
fresh_session-IsValid connection = record {
  room = length-replicate {A = ℕ} 4096 0;
  inside = omega arith;
  entries = length-replicate {A = ℕ} 4096 0;
  bytes = All-replicate 4096;
}

pub fresh_session-Log : (mem : Memory) (connection : ℕ) → Log mem (fresh_session connection) []
unfolding wire
fresh_session-Log mem connection = record {
  groups = [];
  rest = [];
  sent = refl;
  waiting = refl;
  whole = refl;
}
