-- ===== src/Protocol/Contract.antt =====
-- src/Protocol.h: what is documented of `EncodeEvent`, for the events that hold no text.
use yardstick.Base.{
  ℕ, ◌^◌, ◌≤◌, ◌<◌, ◌≡◌, ◌≢◌, refl, ap, ◌∙◌, Option, List, [], length, leb, Bool-cases, inl, inr,
  if◌then◌else◌, arith,
}
use yardstick.Api.{YsResult, success, no_memory}
use yardstick.Protocol.{
  Memory, EventData, event_type, Run, running, returned, overrun, encode_event, encode_size,
}
use yardstick.Protocol.Encoding.{text}
use yardstick.Protocol.Bounds.{encode_event-success, encode_event-no_memory}

-- `NoMemory` if the buffer is not big enough, otherwise `Success`.
unfoldable pub documented_result : (available : ℕ) → EventData → YsResult
documented_result available ev = if leb (encode_size ev) available then success else no_memory

-- What a run returns, if it does.
unfoldable pub result_of : Run → Option YsResult
result_of (returned r o) = Option.some r
result_of (running o) = Option.none
result_of overrun = Option.none

no_text : (mem : Memory) (ev : EventData) → event_type ev ≢ 5 → text mem ev ≡ []
unfolding text event_type
no_text mem EventData.none plain = refl
no_text mem (EventData.header a b) plain = refl
no_text mem (EventData.tick a) plain = refl
no_text mem (EventData.region a b c d e) plain = refl
no_text mem (EventData.counter_set a b c d e) plain = refl
no_text mem (EventData.string a b c) plain = absurd (plain refl)
no_text mem (EventData.counter_add a b) plain = refl

-- For an event other than a string, in a space that lies inside a buffer of less than 2^64 bytes,
-- EncodeEvent returns what Protocol.h says of it: NoMemory if the space is smaller than EncodeSize,
-- and Success otherwise.
pub encode_event-documented :
    (mem : Memory) (buffer : List ℕ) (available : ℕ) (ev : EventData)
    → event_type ev ≢ 5
    → available ≤ length buffer
    → length buffer < 2 ^ 64
    → result_of (encode_event mem (Option.some buffer) available ev)
      ≡ Option.some (documented_result available ev)
unfolding result_of documented_result
encode_event-documented mem buffer available ev plain room small =
    elim (Bool-cases (leb (encode_size ev) available)) [
      | inl fits ↦
          ap result_of (encode_event-success mem buffer available ev (ground arith) room small)
          ∙ rw fits refl
      | inr long ↦
          let (stop, inside, e) =
            encode_event-no_memory mem buffer available ev (no_text mem ev plain) (ground arith)
              room small in
          ap result_of e ∙ rw long refl
    ]
