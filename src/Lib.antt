-- ===== src/Lib.antt =====
-- Verification of lu, a C++ library of sockets, WebSockets, lock-free queues and job threads.
--
-- The parts modelled here are the ones with logic of their own; the system calls, OpenSSL, libcurl
-- and SOCI that other parts wrap are not.
--
-- Frame: include/platform/socket/websocket/Frame.h, src/platform/socket/websocket/Frame.cpp.
--   Frame.Types has the frame's state (`Frame`, `reset`, `setError`) and the received data
--   (`SocketData`); Frame.Reader the parser (`readFrame` and its four handlers, `checkValidity`,
--   `mask`); Frame.Message the loop over frames (`processMessage`, `processControlFrame`, `append`);
--   Frame.Writer the sender (`getFrameHeader`, `sendMsg`). Calls of the callback are events, in
--   order. The random masking keys are an argument. Logging, the count that `sendMsg` returns and
--   its conversion of the number of frames to `int` are left out; the host is little-endian.
--   `readFrame` has fuel for five rounds: header, length, mask, payload and the test for `Done`.
--   `processMessage` has fuel for one turn per byte left and two more: a turn takes at least a
--   header.
-- Crypto: include/crypto/DataWrap.h, src/crypto/DataWrap.cpp. Crypto.DataWrap is the byte buffer
--   in which the frames collect fragments and build headers, with its moves.
-- Queues: include/queue/Queue.h, include/common/Common.h. Queues.Index has the index arithmetic
--   (`remapIndex`, `nextPowerOfTwo`, the shuffle bits); Queues.Slots one slot of `AtomicQueue` and
--   of `AtomicQueue2`, behind the interface `SlotOps` with its laws; Queues.Ring the operations of
--   `QueueBase` on either kind, with 32-bit counters and comparisons as `int`. Each operation runs
--   to its end before the next one starts; where the code would spin there is no result. Operations
--   that overlap in time, `RetryDecorator` and `MPSCQueue` are not modelled.
-- Jobs: include/thread, src/thread. Jobs.Types and Jobs.Manager are `JobManager` under its lock;
--   Jobs.System adds the workers (`JobWorker::process`) and makes each part of a call that has the
--   lock one step, in any order; Jobs.Queue is `JobQueue`, which hands jobs to a manager.
--   Jobs.Draining and Jobs.Order are about calls of `popJob` until none is left to start. Jobs,
--   workers and callbacks are addresses; what they do themselves is outside, as are the number of
--   cores and the comparison of jobs, which are arguments. The last loop of `cancelJobs`, which
--   wakes the workers until none is left, and `notify_all` are events or left out.
-- Locks: include/common/spinlock.h, src/common/spinlock.cpp. Locks.Ticket is `TicketSpinlock` with
--   the threads that use it through `LockGuard`, Locks.Unfair is `UnfairSpinlock`, both as steps,
--   with all atomic operations in one order. `Spinlock` only calls pthread and is not modelled.
--   Locks.Barrier is `Barrier` of src/common/barrier.cpp, with fewer than 2 ^ 32 threads.
-- Streams: include/platform/socket/DataSocket.h and DataSocketV.h, platform/socket/data_handler,
--   `readDataSocket` of src/utils/Utils.cpp. Streams.Receiving has what the system calls give;
--   Streams.Messages `readMessages`, with fuel for a turn per byte and one more; Streams.Loop
--   `Receive`, on an interface with the room and the turn of a socket; Streams.DataSocket and
--   Streams.DataSocketV fill it; Streams.StringHandler and Streams.StringV are the data handlers.
--   Streams.EventChannel is include/platform/EventChannel.h, on the same loop. What arrives at each
--   call is an argument, and `recv` takes the bytes pending in their order. A loop that never ends
--   and a write past the buffer, or past the message that a handler makes, are results.
--   Streams.BaseSocket and Streams.SendFile are `send` and `sendfile` of
--   src/platform/socket/BaseSocket.cpp, on a list of what the calls do.
-- Text: src/utils/DelimiterTextParser.cpp and `toLower` of src/utils/Utils.cpp. Text.Parser has
--   the parser of items with its exceptions as results, Text.Numbers `std::stoi` and its like;
--   `std::stof` and `std::stod` are arguments, and `nextDateTime` is left out.
-- Handshake: src/platform/socket/websocket/HandshakeRequest.cpp, HandshakeResponse.cpp and
--   HandshakeSeverResponse.cpp. Handshake.Lines is the loop over the lines of a text, with fuel for
--   a turn per byte and one more, where a line takes two bytes; Handshake.Request makes and answers
--   a request, Handshake.Response makes the response, Handshake.Client reads it. The hash and
--   whether `std::stof` gives less than 1.1F are arguments. The loops over protocols and over
--   versions have a turn per byte and two more, which Handshake.Fuel shows to be enough. The map of
--   keys is a list in which the first entry of a key counts, which is what `emplace` keeps.
-- Web: include/platform/socket/WebSocket.h. Web.Socket has a turn of `Receive` of a server's
--   socket, whose frame reads its size limit through a dangling reference, so that what it reads is
--   an argument: `processHandshake`, with fuel for a turn per byte of its view and two more,
--   `readMessages`, which joins Handshake and Frame, and the shift of the buffer. The loop around
--   the turn is the one of DataSocket.h and is not repeated.
-- Base: numbers, words, bits, bytes and lists that the parts share.
--
-- Not modelled: the rest of the system sockets, descriptors, event loop and timers, threads and channels,
-- the heartbeat sockets, configuration, reflection and serialisation, storage, the REST client, hashes and keys.
--
-- The Examples module of each part runs the code and applies the theorems at concrete inputs.
pub mod Base
pub mod Crypto
pub mod Frame
pub mod Jobs
pub mod Queues
pub mod Locks
pub mod Streams
pub mod Text
pub mod Handshake
pub mod Web
