-- ===== src/Tests/Wires.antt =====
-- Examples for src/Protocol.cpp, src/PointerHash.h, src/yardstick.cpp and the web tool's reader.
use yardstick.Base.{◌≡◌, refl, none, some, List, [], ◌∷◌, ◌++◌, ◌+◌, arith, drop, replicate}
use yardstick.Tests.{letters, same, some_region}
use yardstick.Api.{success}
use yardstick.PointerHash.{hash_pointer}
use yardstick.Protocol.{EventData, encode_event, encode_size, returned, overrun}
use yardstick.Protocol.Encoding.{encoding}
use yardstick.Protocol.Bounds.{encode_event-success, encode_event-overrun}
use yardstick.Client.{region, read}
use yardstick.Client.RoundTrip.{seen, read-encoding}

encode_event-success_example :
    encode_event letters (some (replicate 40 7)) 32 some_region
    ≡ returned success (record {
      buffer = encoding letters some_region ++ drop (encode_size some_region) (replicate 40 7);
      out_length = encode_size some_region;
    })
unfolding encode_size
encode_event-success_example =
    encode_event-success letters (replicate 40 7) 32 some_region (omega arith) (omega arith)
      (omega arith)

encode_event-overrun_example :
    encode_event letters (some (replicate 16 7)) 16 (EventData.string 3 30 100) ≡ overrun
encode_event-overrun_example =
    encode_event-overrun letters (replicate 16 7) 16 3 30 100 (omega arith) (omega arith)
      (omega arith) (omega arith)

read-encoding_example :
    read same (record {
      view = (2 ∷ 0 ∷ []) ++ (encoding letters some_region ++ (6 ∷ []));
      pos = 2;
      error = none;
    })
    ≡ some (
      some (region 12 (hash_pointer 100) (hash_pointer 200) 5 9),
      record {
        view = (2 ∷ 0 ∷ []) ++ (encoding letters some_region ++ (6 ∷ []));
        pos = 2 + encode_size some_region;
        error = none;
      },
    )
unfolding seen
read-encoding_example =
    read-encoding same letters (2 ∷ 0 ∷ []) (6 ∷ []) some_region (omega arith) refl none

abbrev two_events : List EventData
two_events = some_region ∷ EventData.tick 77 ∷ []
