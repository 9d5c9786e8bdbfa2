-- ===== src/Tests/Sessions.antt =====
-- Examples for one session of src/WebsocketSink.cpp.
use yardstick.Base.{◌≡◌, ◌≢◌, refl, some, List, [], ◌∷◌, ◌++◌, true, arith}
use yardstick.Tests.{letters, same, some_region}
use yardstick.Api.{success}
use yardstick.PointerHash.{hash_pointer}
use yardstick.Protocol.{EventData, event_type}
use yardstick.Client.{Event, region}
use yardstick.Client
use yardstick.Client.RoundTrip.{seen}
use yardstick.Client.Message.{Seen, nothing, more}
use yardstick.Session.{Session, finished, flush_session, write_session_event, ◌>>◌}
use yardstick.Session.Valid.{IsValid, Log, Done}
use yardstick.Session.Strings.{announce, told_all, is_marked, mark}
use yardstick.Session.Events.{strings, write_session_event-Done}
use yardstick.Session.Collisions.{is_marked-collision}
use yardstick.Session.Hearing.{Knows, Named, write_session_event-Named}
use yardstick.Service.Informing.{Informed-new}
use yardstick.Sink.{fresh_session}
use yardstick.Sink.Fresh.{fresh_session-IsValid, fresh_session-Log}
use yardstick.Delivery.{Delivered, write_session_event-Delivered}

abbrev fresh : Session
fresh = fresh_session 7

fresh-IsValid : IsValid fresh
fresh-IsValid = fresh_session-IsValid 7

fresh-Log : Log letters fresh []
fresh-Log = fresh_session-Log letters 7

region-plain : event_type some_region ≢ 5
unfolding event_type
region-plain = omega arith

write_session_event-Done_example :
    Done letters
      (write_session_event letters some_region)
      fresh
      ([] ++ announce letters fresh.table (strings some_region) ++ (some_region ∷ []))
      (told_all fresh.table (strings some_region))
write_session_event-Done_example =
    write_session_event-Done letters some_region fresh [] region-plain fresh-IsValid fresh-Log

abbrev tick_7 : EventData
tick_7 = EventData.tick 7

tick-plain : event_type tick_7 ≢ 5
unfolding event_type
tick-plain = omega arith

-- A session with a tick in its buffer.
abbrev ticked :
    Done letters
      (write_session_event letters tick_7)
      fresh
      ([] ++ announce letters fresh.table (strings tick_7) ++ (tick_7 ∷ []))
      (told_all fresh.table (strings tick_7))
ticked = write_session_event-Done letters tick_7 fresh [] tick-plain fresh-IsValid fresh-Log

tick-Seen :
    Seen same letters
      ([] ++ announce letters fresh.table (strings tick_7) ++ (tick_7 ∷ []))
      (Client.tick 7 ∷ [])
unfolding strings announce seen
tick-Seen = more {ev = EventData.tick 7} (omega arith) refl nothing

region-seen :
    seen same letters some_region ≡ some (region 12 (hash_pointer 100) (hash_pointer 200) 5 9)
unfolding seen
region-seen = refl

write_session_event-Delivered_example :
    (names : List Event) × Seen same letters
      (announce letters ticked.after.table (strings some_region))
      names
    × ((s' : Session) × ((write_session_event letters some_region >> flush_session) ticked.after
          ≡ finished success s')
        × IsValid s'
        × Delivered same s' (
            (Client.tick 7 ∷ [])
            ++ names
            ++ (region 12 (hash_pointer 100) (hash_pointer 200) 5 9 ∷ [])))
write_session_event-Delivered_example =
    write_session_event-Delivered same letters ticked.after _ some_region ticked.valid ticked.log
      tick-Seen region-plain (omega arith) region-seen

is_marked-collision_example : is_marked (mark fresh.table 20) 22 ≡ true
is_marked-collision_example = is_marked-collision fresh 20 22 fresh-IsValid refl refl

write_session_event-Named_example :
    (s' : Session) × (write_session_event letters some_region fresh ≡ finished success s')
    × IsValid s'
    × Log letters s'
        ([] ++ (announce letters fresh.table (strings some_region) ++ (some_region ∷ [])))
    × Knows letters s'.table
        ([] ++ (announce letters fresh.table (strings some_region) ++ (some_region ∷ [])))
    × Named letters []
        ([] ++ (announce letters fresh.table (strings some_region) ++ (some_region ∷ [])))
write_session_event-Named_example =
    write_session_event-Named letters some_region fresh [] region-plain fresh-IsValid fresh-Log
      (Informed-new letters 7).knows tt
