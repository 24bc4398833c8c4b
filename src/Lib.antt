-- ===== src/Lib.antt =====
-- The WebRTC plugin of pomelo (the C code in src/): sessions that a client opens over a WebSocket,
-- authenticates with a connect token and moves to WebRTC data channels.
--
-- Parts. A session owns a WebSocket client, a peer connection, one channel for each mode of its socket
-- and a system channel for pings. The WebSocket carries the token, the descriptions and candidates of
-- the negotiation and the ready signals; when all channels are open and the client is ready, the host
-- is asked for a native session. Objects are counted and pooled. The code of the plugin runs on its one
-- thread, so that an execution is a sequence of callbacks; the task queue, through which the threads of
-- the host and of libdatachannel hand their events over, is modelled with its interleavings.
--
-- - Base, Decimal: shared lists, tests and splits; `%zu`, PRIu64 and PRIi64 with what they print.
-- - StringBuffer (src/utils/string-buffer.c): the growing buffer. `ensure_capacity`, `append_bin`,
--   `append_str`, `append_chr`, `to_string`, `to_binary`, `init`, `on_alloc` are the functions of the
--   same names behind `pomelo_string_buffer_`; an append past the block ends in `overrun`.
-- - Label (src/channel/channel-dc.c, src/session/session-pc.c): the labels of data channels.
-- - Frame (src/session/session.c): the bytes of pings and pongs.
-- - Message (src/session/session-ws.c): the texts of the WebSocket, composed and read.
-- - Env: all that is outside this code, as parameters: calls (`Call`), their answers and arrays.
-- - World (src/session/session.h, src/channel/channel.h, src/context.c): one session, its channels by
--   their pointers, and the calls made so far; timer tasks.
-- - Session/Open (src/session): how a session starts, and the host's calls on it.
-- - Session/Cleanup, Session/Close (src/session/session.c): how a session ends; Session/References: what
--   happens to its references over its life.
-- - Session/Send, Session/Receive, Session/Auth (src/session/session-ws.c, src/session/session-pc.c):
--   messages out, callbacks in, authentication.
-- - Session/Handshake (src/session/session.c, src/session/session-plugin.c): from the open channels to
--   the connected session.
-- - Session/System (src/session/session.c): pings and pongs.
-- - Channel, Channel/Events (src/channel): a channel's life, its data channels and their callbacks.
--   Channel/Receiving follows the references that come with messages.
-- - Context/Tasks (src/context.c): `submit_task` and `async_task_callback`; Context/Tasks/Order has all
--   interleavings of the threads that submit with the one that calls, Context/Tasks/Race one of them;
--   Context/Tasks/Drain is the loop that empties the list.
-- - Dispatch (src/session, src/channel, src/socket): the functions that other threads call and that
--   submit a task; Dispatch/Messages has the bytes of messages to the host and from it.
-- - Context/Workers (src/context.c): `spawn_task` and the callbacks of worker tasks and timers;
--   Context/Shutdown: the end of the event loop, between its thread and the one that closes it.
-- - Context/Life (src/context.c): `context_create`, `context_destroy` and their parts; Context/Elements
--   (src/socket, src/session, src/channel): `on_alloc` and `on_free` of the pooled objects.
-- - Plugin (src/plugin.c): the entry and the unload.
-- - Rtc (src/rtc-api): the wrapper around libdatachannel: its context with its pools and its log, buffers
--   and their counter (Rtc/Buffer/Interleaved has the threads that use it at once), addresses,
--   configurations, peer connections with their local description and their requests, data channels,
--   WebSocket clients and servers; Rtc/DataChannel/Lives has all that may happen to the pooled object of
--   a client.
-- - Socket (src/socket): the socket with its sessions and its WebSocket server; Socket/References and
--   Socket/Holders have all that may happen to it, as steps; Socket/Executor is the counter of sockets.
-- - Tests: an environment of lists and counters, and runs of the theorems on it.
--
-- Correspondence. A function of the model has the name of the C function without the prefix
-- `pomelo_webrtc_` (and `session_` where the module says so). A state is passed on explicitly; a call
-- out of this code is an element of the log of `World`, and its answer is a function of the log and
-- the call, so that an environment may answer differently each time. Pointers are numbers, NULL is
-- `none`, bits of `flags` are Booleans, `size_t` and `uint64_t` wrap at 2^64 where the code computes
-- with them. An `assert` that fails and a write past a block are the call `undefined_behaviour`.
--
-- Bounds. Loops over arrays run on the number of their rounds, which the C code computes before the
-- loop. `print_u64` has fuel for 20 digits, which is enough below 2^64. `async_task_callback` has fuel for
-- its rounds: more than the weight of the tasks is enough. The loop of `RTCBuffer::ref` is a step of an
-- interleaving. No other fuel is used.
--
-- Not modelled: the functions that only pass a call on to a pool or cast it for the wrapper's objects;
-- the options of the pools, the pools themselves and what prints a line of the log; and the submodules,
-- whose code is not here. Towards the plugin the wrapper is a part of `Env`.
pub mod Base
pub mod Decimal
pub mod Frame
pub mod Label
pub mod StringBuffer
pub mod Message
pub mod Env
pub mod World
pub mod Session
pub mod Channel
pub mod Context
pub mod Rtc
pub mod Socket
pub mod Dispatch
pub mod Plugin
pub mod Tests
