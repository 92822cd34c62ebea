-- ===== src/Lib.antt =====
-- A model of the network library under muduo/: what its classes keep and do, and why that is right.
--
-- The program. A `TcpConnection` owns a socket, a `Channel` with the events it asks for, and two
-- `Buffer`s. The loop's poller (`EPollPoller`) tells the kernel what the channels ask for, and calls
-- the handlers of the channels that have events; the handlers read into the input buffer, flush the
-- output buffer, and call the user. An `HttpServer` is such a user: it parses the input with an
-- `HttpContext` and sends an `HttpResponse`. An `EventLoop` polls, runs the handlers, and runs the
-- functors that were queued for it. A `TcpServer` gets sockets from its `Acceptor`, makes a connection of
-- each, hands it to a loop of the `EventLoopThreadPool`, and removes it by functors of the two loops. A
-- `TcpClient` gets its socket from a `Connector`, which tries again. The queues between threads, the
-- latch, `Date`, `Timestamp`, `LogStream` and `StringPiece` are of muduo/base.
--
-- Files.
-- Prelude: shared names and lemmas; in it Tests (Boolean tests on numbers), Booleans, Lists, Results,
--   Bytes, Maps and Decimal (what printf makes of a number).
-- Endian: muduo/net/Endian.h. An integer of `width` bytes; the source's 64, 32 and 16 bits are 8, 4, 2.
-- Buffer: muduo/net/Buffer.h and Buffer.cpp. `Buffer` has the vector and the two indices; a pointer
--   into the readable part is its offset from `peek()`. A method is `none` where its assertion fails.
--   Content, Space, Ints, ReadFd and Search hold lemmas on the methods, Queue the specification.
-- Http.Request, Http.Response, Http.Context, Http.Server: the classes of muduo/net/http. `parse_loop`
--   is the loop of parseRequest; Context.Line, Lines, Loop and Parse, Response.Text,
--   Server.Replies and Server.Refused hold the theorems. The callback of the server is a parameter.
-- Date: muduo/base/Date.h and Date.cpp, with Date.Calendar, Date.RoundTrip and Date.Iso.
-- Channel: muduo/net/Channel.h and Channel.cpp; Channel.Bits says what the methods make of the events.
-- TcpConnection: muduo/net/TcpConnection.h and TcpConnection.cpp. A method gives the connection and its
--   effects in order. Run has the calls, Laws the invariant, Invariant the reachable connections,
--   Order and Notices the order of the states, Sent and Stream the bytes, Faults and HalfClosed what
--   happens where the code fails. Handlers is a part of Invariant.
-- LogStream: muduo/base/LogStream.h and LogStream.cpp, with Convert and Bounds.
-- EPollPoller: muduo/net/EPollPoller.h, EPollPoller.cpp and Poller.h, with Agreement, Interest and Poll.
-- PollPoller: muduo/net/PollPoller.h and PollPoller.cpp, the poller over poll(2). Slots is the agreement of
--   map, indices and array; Lists, Added, Changed, Places, Popped and Swapped are the steps of Update and
--   Remove.
-- EventLoop: muduo/net/EventLoop.h and EventLoop.cpp, over EPollPoller. `round` is one turn of `loop`, and
--   `rounds` a turn for each answer of the poller. Functors has the order of the functors, Wakeups the
--   eventfd, Quit the end of the loop, Channels the removal of a channel.
-- Acceptor: muduo/net/Acceptor.h and Acceptor.cpp, with Sockets.
-- TcpServer: muduo/net/TcpServer.h and TcpServer.cpp. System puts it together with the connections and the
--   functors that wait; Names, Tracking, Accepts and Steps lead to Removal.
-- TcpClient: muduo/net/TcpClient.h and TcpClient.cpp. System puts it together with a Connector and the
--   connections; Attempts, Keeping, Opening and Ending lead to Single.
-- Connector: muduo/net/Connector.h and Connector.cpp, with Backoff and Sockets.
-- EventLoopThreadPool: muduo/net/EventLoopThreadPool.h and EventLoopThreadPool.cpp, with RoundRobin.
-- TimerQueue: muduo/net/TimerQueue.h, TimerQueue.cpp, Timer.h and Timer.cpp. System has the calls of the
--   users, in the callbacks of expired timers too; Order, Sets, Expiry, Matched, Erased, Held, Adds and Calls
--   lead to Runs.
-- Timestamp: muduo/base/Timestamp.h and Timestamp.cpp, with Text.
-- BlockingQueue, BoundedBlockingQueue, CountDownLatch: the files of these names in muduo/base, with
--   Progress and Opening; BoundedBlockingQueue.Passes has the lemmas on one pass of a thread.
-- StringPiece: muduo/base/StringPiece.h, with Order and Pieces.
-- The other modules named Tests apply the theorems at concrete values.
--
-- Numbers. Sizes and descriptors are natural numbers; a subtraction stands where the source makes sure
-- that it does not go below 0, or the case is written out. `complement` and `as_size` keep the widths
-- of 32 and 64 bits. Sizes near 2 ^ 64 are not considered: no vector has them. `append_string` has the cast
-- of a string's size to `int` in StringPiece; a message of a TcpConnection is given as the bytes of its
-- piece. The functions of Date are `none` where an `int` would overflow.
-- Fuel. `parse_loop` gets one more than the readable bytes; each round that goes on takes a line off
-- (Http.Context.Loop). `decimal_digits`, `convert_loop` and `convert_hex_loop` get one more than the
-- number, which each round divides.
-- The system. What read, write, readv, connect and epoll_wait answer is an argument of the handler;
-- the documented behaviour of epoll_ctl is `epoll_ctl` of EPollPoller.Agreement. boost::circular_buffer is
-- the interface `CircularBuffer` of BoundedBlockingQueue.Buffers, and `Laws` is what its documentation
-- says; an eventfd is readable when its counter is not 0.
-- Threads. A mutex makes the part of a method from its entry, or the end of a wait, to its return, or
-- the next wait, one step; the steps of threads come in any order. Where another thread calls an
-- EventLoop, its write to the eventfd is a step of its own behind the one under the mutex. In TcpServer.System any waiting functor
-- may run next, which has the orders of the loops among its own.
-- Assertions are taken to be compiled in. A callback of a user runs inside of a method in the source; here
-- the calls that it makes on the connection come as further calls behind the method.
--
-- Not modelled: muduo/net/Socket.cpp, SocketsOps.cpp and InetAddress.cpp, which call the system;
-- EventLoopThread.cpp and, of muduo/base, the threads, locks, atomics and Logging; of the modelled
-- classes, the setters of callbacks, the destructors but those of TcpServer and TcpClient, the calls of
-- EventLoop that only go on to its TimerQueue, and what prints floating-point numbers.
pub mod Prelude
pub mod Endian
pub mod Acceptor
pub mod BlockingQueue
pub mod BoundedBlockingQueue
pub mod Buffer
pub mod Http
pub mod CountDownLatch
pub mod Date
pub mod Channel
pub mod TcpConnection
pub mod LogStream
pub mod EPollPoller
pub mod EventLoop
pub mod Connector
pub mod EventLoopThreadPool
pub mod Timestamp
pub mod PollPoller
pub mod StringPiece
pub mod TcpClient
pub mod TcpServer
pub mod TimerQueue
