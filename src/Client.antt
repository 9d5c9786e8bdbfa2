-- ===== src/Client.antt =====
-- tools/web/js/ysProtocol.js: the reader with which the web tool takes a message apart.
-- `round` is the rounding of a whole number to a JavaScript number, a double.
pub mod RoundTrip
pub mod Message
use yardstick.Base.{
  ℕ, zero, suc, ◌+◌, ◌*◌, ◌^◌, ◌==◌, leb, if◌then◌else◌, Option, none, some, List, [], ◌∷◌, length,
  drop, get_elem?, ◌>>=◌,
}
use yardstick.Base.Words.{of_bytes}

-- The object that `read` returns.
pub data Event : Type 0 where
  header : (frequency start : ℕ) → Event
  tick : (when : ℕ) → Event
  region : (line name file start end : ℕ) → Event
  counter_set : (line name file when value : ℕ) → Event
  string : (id size : ℕ) (text : List ℕ) → Event
  counter_add : (name amount : ℕ) → Event

-- `YsEventReader`; the error keeps the position and the byte of the text.
pub record Reader : Type 0 where
  pub view : List ℕ
  pub pos : ℕ
  pub error : Option (ℕ × ℕ)

-- The accessors of a `DataView`, lowest byte first; `none` is the RangeError that is thrown past
-- the end.
unfoldable pub get_uint8 : List ℕ → ℕ → Option ℕ
get_uint8 view pos = get_elem? view pos

unfoldable pub get_uint16 : List ℕ → ℕ → Option ℕ
get_uint16 view pos = of_bytes 2 (drop pos view)

unfoldable pub get_uint32 : List ℕ → ℕ → Option ℕ
get_uint32 view pos = of_bytes 4 (drop pos view)

-- A double as its 64 bits.
unfoldable pub get_float64 : List ℕ → ℕ → Option ℕ
get_float64 view pos = of_bytes 8 (drop pos view)

-- The loop over the characters of a string.
unfoldable pub get_text : List ℕ → ℕ → ℕ → Option (List ℕ)
get_text view pos zero = some []
get_text view pos (suc n) = do
  c ← get_uint8 view pos
  rest ← get_text view (pos + 1) n
  some (c ∷ rest)

-- What a loop over the reader ends with.
pub data Frame : Type 0 where
  events : List Event → Reader → Frame
  thrown : Frame
  unfinished : Frame

unfoldable pub push : Event → Frame → Frame
push ev (events evs r) = events (ev ∷ evs) r
push ev thrown = thrown
push ev unfinished = unfinished

module _ (round : ℕ → ℕ) where
  unfoldable pub get_uint64 : List ℕ → ℕ → Option ℕ
  get_uint64 view pos = do
    lo ← get_uint32 view pos
    hi ← get_uint32 view (pos + 4)
    some (round (hi * 2 ^ 32 + lo))

  -- The cases of the `switch` that build an event, with the bytes that each one takes. The second
  -- `none` stands for the default case.
  unfoldable pub read_event : List ℕ → ℕ → ℕ → Option (Option (ℕ × Event))
  read_event view pos type =
      if type == 1
      then (do
        frequency ← get_uint64 view (pos + 1)
        start ← get_uint64 view (pos + 9)
        some (some (17, header frequency start)))
      else if type == 2
      then (do when ← get_uint64 view (pos + 1); some (some (9, tick when)))
      else if type == 3
      then (do
        line ← get_uint32 view (pos + 1)
        name ← get_uint32 view (pos + 5)
        file ← get_uint32 view (pos + 9)
        start ← get_uint64 view (pos + 13)
        end ← get_uint64 view (pos + 21)
        some (some (29, region line name file start end)))
      else if type == 4
      then (do
        line ← get_uint32 view (pos + 1)
        name ← get_uint32 view (pos + 5)
        file ← get_uint32 view (pos + 9)
        when ← get_uint64 view (pos + 13)
        value ← get_float64 view (pos + 21)
        some (some (29, counter_set line name file when value)))
      else if type == 5
      then (do
        id ← get_uint32 view (pos + 1)
        size ← get_uint16 view (pos + 5)
        text ← get_text view (pos + 7) size
        some (some (7 + size, string id size text)))
      else if type == 6
      then (do
        name ← get_uint32 view (pos + 1)
        amount ← get_float64 view (pos + 5)
        some (some (13, counter_add name amount)))
      else some none

  -- `read`: the event or null, and the reader afterwards; the outer `none` is a throw.
  unfoldable pub read : Reader → Option (Option Event × Reader)
  read r = if leb (length r.view) r.pos then some (none, r) else (do
    type ← get_uint8 r.view r.pos
    result ← read_event r.view r.pos type
    elim result [
      | none ↦ some (none, record r { pos = r.pos + length r.view; error = some (r.pos, type) })
      | some (size, ev) ↦ some (some ev, record r { pos = r.pos + size })
    ])

  -- `for (var ev of reader)`, with fuel: `next` calls `read` until that gives null.
  unfoldable pub read_all : ℕ → Reader → Frame
  read_all zero r = unfinished
  read_all (suc fuel) r = elim (read r) [
    | none ↦ thrown
    | some (none, r') ↦ events [] r'
    | some (some ev, r') ↦ push ev (read_all fuel r')
  ]

  -- What the reader makes of a message: `reader` starts at its first byte. Every event takes
  -- seven bytes or more, so as many rounds as there are bytes, and one, are enough.
  unfoldable pub read_message : List ℕ → Frame
  read_message bytes =
      read_all (suc (length bytes)) (record { view = bytes; pos = 0; error = none })
