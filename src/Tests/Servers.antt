-- ===== src/Tests/Servers.antt =====
-- Examples for `Listen` and `Close` of src/WebsocketSink.cpp.
use yardstick.Base.{◌≡◌, refl, true, none, [], ◌==◌, arith}
use yardstick.Api.{success}
use yardstick.Sink.{Sink, ended, fault}
use yardstick.Tests.Sinks.{two_sessions}
use yardstick.Server.{Server, Answers, close}
use yardstick.Server.Listening.{IsReady, Shuts, close-twice}

-- A shutdown of the web server that calls nothing back.
abbrev quiet : Sink → Sink
quiet s = s

-- A sink that listens on port 80, with no session.
abbrev listening : Server
listening = record {
  allocator = 5;
  port = 80;
  server = 24;
  memory = 16;
  sink = record { heap = λ p. none; live = λ p. p == 16; misfreed = []; sessions = 0 };
}

listening-IsReady : IsReady listening []
listening-IsReady = record {
  list = record { chain = refl; distinct = tt };
  owned = λ ne. refl;
  blocks = record { live = tt; distinct = tt };
  apart = λ ne. tt;
}

listening-Shuts : Shuts quiet listening []
listening-Shuts = record {
  remaining = [];
  fewer = omega arith;
  ready = listening-IsReady;
  careful = refl;
}

abbrev answers : Answers
answers = record { memory = 40; server = 48 }

-- The same with two sessions, and every block allocated.
abbrev busy : Server
busy = record {
  allocator = 5;
  port = 80;
  server = 24;
  memory = 88;
  sink = record two_sessions { live = λ p. true };
}

close-twice_example :
    (w : Server) × (close quiet 1 listening ≡ ended (success, w)) × (close quiet 1 w ≡ fault)
close-twice_example =
    close-twice quiet 0 1 listening listening-IsReady listening-Shuts (omega arith) (omega arith)
