-- ===== src/Session/Valid.antt =====
-- src/WebsocketSink.cpp: what holds of a session between its operations, and what it has taken.
use mathlib.Core.List.{map}
use yardstick.Base.{ℕ, ◌^◌, ◌≤◌, ◌<◌, ◌≡◌, List, [], ◌++◌, length, take, All, flatten}
use yardstick.Protocol.{Memory, EventData}
use yardstick.Protocol.Encoding.{encodings}
use yardstick.Session.{Session, Outcome, finished, buf_size, table_size}
use yardstick.Session.Wire.{closed, wire}
use yardstick.Api.{success}

pub record IsValid (s : Session) : Type 0 where
  pub room : length s.buffer ≡ buf_size
  pub inside : s.bufpos ≤ buf_size
  pub entries : length s.table ≡ table_size
  pub bytes : All (λ b. b < 2 ^ 8) s.table

-- The bytes that wait in the buffer.
abbrev pub pending : Session → List ℕ
pending s = take s.bufpos s.buffer

-- `history` has been written: some events have been sent, in messages that each hold the
-- encodings of whole events, and the encodings of the others wait in the buffer.
pub record Log (mem : Memory) (s : Session) (history : List EventData) : Type 0 where
  pub groups : List (List EventData)
  pub rest : List EventData
  pub sent : wire (closed []) s.calls ≡ closed (map (encodings mem) groups)
  pub waiting : pending s ≡ encodings mem rest
  pub whole : history ≡ flatten groups ++ rest

-- An operation ends with success in a valid session, which has taken `history` and has the table
-- `table`.
pub record Done (mem : Memory) (m : Session → Outcome) (s : Session) (history : List EventData)
    (table : List ℕ) : Type 0 where
  pub after : Session
  pub ends : m s ≡ finished success after
  pub valid : IsValid after
  pub log : Log mem after history
  pub marked : after.table ≡ table
