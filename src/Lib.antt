-- ===== src/Lib.antt =====
-- Yardstick, a profiler for games: a program emits events (regions, counters, ticks), each thread
-- queues its own, a background thread takes them off the queues and hands them to a web socket
-- sink, which writes each of them to every connected session as bytes, and a web tool reads the
-- bytes back.
--
-- The parts, and the files that model them:
--   Api: `ysResult` and the types of arguments of inc/yardstick/yardstick.h. Support: its version and
--   support code. Macros: its macros, with the library and with `NO_YS`, over a record of the
--   exported functions.
--   PointerHash: src/PointerHash.h, the handles that stand for strings on the wire.
--   Protocol: src/Protocol.h and src/Protocol.cpp. `encode_event` is `EncodeEvent`, as a run over
--   the object that the output pointer points into, so that a write past its end is an outcome of
--   its own; `encode_size` is `EncodeSize`. Protocol/Encoding describes the bytes as a list.
--   Client: tools/web/js/ysProtocol.js, the reader of a message. A RangeError of a `DataView` is
--   `thrown`.
--   Session: one session of src/WebsocketSink.cpp, with `WriteSessionString`, `WriteSessionEvent`
--   and `FlushSession`. The calls of webby are kept as a trace, which Session/Wire turns into the
--   messages that the client receives. The web server is code of another project: what is relied on
--   is that the writes between the start and the end of a frame make one message.
--   Session/Naming and Session/Hearing: the table of strings, and that a client is told the strings of
--   an event before the event; Session/Collisions: handles that share a bit of the table.
--   Delivery: a session and the reader together.
--   Sink: the list of sessions of src/WebsocketSink.cpp, in a heap of blocks: `CreateSession`,
--   `DestroySession`, `FindSession`, `WriteEvent`, `Flush`, and the loop of `Close`. The blocks that
--   the allocator gives are an argument; a block that is given back though it is not allocated is
--   kept in a list, `misfreed`. Sink/Agreeing: the sessions that `DestroySession` leaves;
--   Sink/Freeing: the blocks that `Close` gives back; Sink/Owning: that they are allocated.
--   Connection: the callbacks of src/WebsocketSink.cpp, `webby_connected` and `webby_closed` first of
--   all; Connection/Leaving: the client that came last goes. Service: the class of
--   src/WebsocketSink.h as a machine of its operations, with webby's calls back into it;
--   Service/Sessions and Service/Informing: what holds of its sessions; Service/Machine:
--   the states that it reaches while clients leave in that order; Service/Closing: Close and Listen;
--   Service/Progress: its operations end.
--   Server: `Listen`, `Close` and `Update` of src/WebsocketSink.cpp. What webby's calls do to the
--   sessions, and what the allocator and `WebbyServerInit` answer, are arguments.
--   Queue: src/ConcurrentQueue.h at 512 slots, with 32-bit positions that wrap around, for one
--   caller at a time. Queue/Ring ties the slots to a list, Queue/Refine states the refinement.
--   Queue/Handoff: one thread in `TryEnque` and one in `TryDeque`, as step relations.
--   Thread: `Enque` and `Deque` of src/ThreadState.cpp. Each round of the wait in `Enque` is an
--   argument, with what the other threads do to the queue before the next one.
--   Thread/State: the states of all threads, `thread_instance`, and `EmitEvent` of
--   src/yardstick.cpp; Thread/Life: a thread's first event and its end.
--   Circular: src/ConcurrentCircularBuffer.h at 1024 bytes, one call after another.
--   Registry: the list of threads of src/GlobalState.cpp, `ProcessThread` and `FlushThreads`, on
--   lists of events; Registry/Rings: the two on the queues of src/ConcurrentQueue.h.
--   Background: `ThreadMain` of src/GlobalState.cpp, which puts the threads, the sink and the server
--   together: Background/Taking hands events to the sessions, Background/Serving flushes them up to
--   what the clients read, Background/Turning is a whole turn, Background/Loop several turns and
--   the end of the loop, Background/Arrivals what turns take off a queue that gets more events,
--   Background/Draining and Background/Emptied those turns up to the clients, Background/Stuck the
--   loop once two threads have been registered, and Background/Rings a turn on the queues of
--   src/ConcurrentQueue.h.
--   Lifecycle: `Initialize`, `Shutdown` and `ListenWebsocket` of src/GlobalState.cpp.
--   Emit: the events that the calls of src/yardstick.cpp and the scopes of
--   inc/yardstick/yardstick.h make; Emit/Typed: what their arguments' types say of them;
--   Emit/Received: what the web tool reads of them.
--   Program: the exported functions of src/yardstick.cpp over the state of src/GlobalState.h, which
--   fill the record that Macros uses, and a turn of the background thread over it; Program/Turns and
--   Program/Watching: from `ysProfile` to the clients; Program/Nesting: a scope within another.
--   Spinlock: src/Spinlock.h as a step relation of any number of threads, a shared access at a time.
--   Signal: src/Signal.h, as step relations of one waiting thread and any number of posts, and over
--   the events of Windows. Atomics: the layout of src/Atomics.h. Clock: src/Clock.h. Algorithm:
--   src/Algorithm.h.
--   Base: words, bits, lists, maps, options and tests that the parts share; Tests: examples.
--
-- Numbers are natural numbers with the wrap-around of each width written out. An address is a
-- number, a double its 64 bits, a byte a number below 256. The loops over linked lists, the loop of
-- the reader and the loop of `Close` take fuel: one round more than there are sessions, or bytes in
-- the message, is enough, since a round passes one session, or at least one byte. The loop over the
-- threads is given any fuel. The loops of the queue take the outcomes of the exchange as a list, or
-- are steps.
--
-- Not modelled: the web server webby, which is another project's library, and the systems' clocks,
-- events, sockets and allocators, which are arguments; the display of the web tool; several
-- callers of `TryEnque` or of `TryDeque` at once, which the program does not have; callers of the
-- circular buffer, which the program does not use, that interleave within a call; and memory orders
-- weaker than one access after another.
pub mod Base
pub mod Api
pub mod PointerHash
pub mod Protocol
pub mod Client
pub mod Session
pub mod Delivery
pub mod Sink
pub mod Server
pub mod Circular
pub mod Queue
pub mod Thread
pub mod Registry
pub mod Background
pub mod Lifecycle
pub mod Emit
pub mod Connection
pub mod Service
pub mod Spinlock
pub mod Algorithm
pub mod Clock
pub mod Signal
pub mod Support
pub mod Macros
pub mod Program
pub mod Atomics
pub mod Tests
