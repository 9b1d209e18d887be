-- ===== src/Lib.antt =====
-- The game server of the homework series: an overlapped I/O server on a completion port, with its
-- buffers, its allocator and its locks. The homeworks are versions of one program. The models
-- follow Homework4/EduServer_IOCP, and Homework6/EduServer_IOCP where it goes further.
--
-- How the parts work together: `SessionManager` (Server/Accepting, Server/Issuing) issues sessions
-- and posts an accept for each. Every overlapped operation has a context, which holds a reference
-- to its session. A worker (Server/Worker) takes a completed context from the port, calls the
-- session's handlers (Server), which post the next operation, and deletes the context; the last
-- reference brings the session back to the manager. A session's bytes are in a `CircularBuffer`,
-- and sessions and contexts are allocated from `MemoryPool` and `ObjectPool`.
--
-- The files:
--   Prelude: shared names, tests on numbers, machine words, lists, and members of lists.
--   CircularBuffer: Homework4/EduServer_IOCP/CircularBuffer.h and .cpp. A function has the name of
--     the method; those that change the buffer return it. CircularBuffer/Queue has the byte queue
--     that the buffer stands for, CircularBuffer/Invariant what its fields keep.
--   MemoryPool: Homework4/EduServer_IOCP/MemoryPool.h and .cpp. MemoryPool/PoolTable has the
--     constructor, MemoryPool/Classes its size classes, MemoryPool/Blocks and MemoryPool/Reuse the
--     blocks that are handed out and given back.
--   Server: Homework4/EduServer_IOCP/ClientSession.cpp and SessionManager.cpp, with the worker of
--     IocpManager.cpp in Server/Worker. Server/Invariant says who holds the references, and
--     Server/Runs has the runs of the whole server, Server/Leaks the sessions that it loses.
--   Session: Homework6/EduServer_IOCP/Session.cpp with IOThread::DoSendJob. Session/Accepting has the
--     rest of ClientSession.cpp with ClientSessionManager.cpp, Session/Requests the player of
--     Player.cpp with DBContext.cpp, Session/IoThread a round of IOThread.cpp. Session/Stream, with
--     Session/Flight and Session/Outcomes, is about the bytes that a session sends, Session/SendJob
--     about the loop that flushes, Session/Growing about the database contexts, Session/Agreeing
--     about a player's fields and row. The references are counted in Session/Counting and
--     References; Handlers, Flushing, Operations, Completing and Rounds are about one round,
--     Issuing and Runs about whole runs.
--   Database: a job of a database thread, Homework6/EduServer_IOCP: the module itself has
--     DBHelper.cpp, Database/Contexts the `OnSQLExecute` of PlayerDBContext.cpp, Database/Table the
--     procedures of Homework6/SQL/GameDB.sql, Database/Connections `Initialize` and `Finalize`. ODBC is
--     a parameter, `Odbc`, with what is documented of it in `IsLawful` of Database/Laws, where
--     `reference` is a driver that does just that. Database/Simulation and Simulating compare two
--     drivers, Database/Releasing is about the connection of the thread, Database/Single and Jobs
--     about what a job does, Database/RoundTrip about an update and a load.
--   DummyClients: Homework7/DummyClients/DummyClients, the clients that load the server. The
--     module itself has Session.cpp, DummyClients/Packets the framing of PacketHandler.cpp and
--     SendRequest, DummyClients/Connect the connect cycle with SessionManager.cpp,
--     DummyClients/Worker a round of WorkerThread.cpp. DummyClients/Framing, Rounds, Receiving
--     and Sending are about packets as lists of bytes, DummyClients/Stalling about a packet that
--     lies across the two regions, DummyClients/Connecting, Preparing, Login and Greeting about
--     the start of a client. Its references are counted in DummyClients/Counting and References;
--     Handlers, Flushing, Handling, Operations, Jobs and Completing are about one round of a
--     worker, Starting and Runs about whole runs. Protobuf's streams and messages are parameters:
--     `Streams` with what is documented of them in `IsLawful`, and `Messages` with `IsSized`.
--   Players: Homework4/EduServer_IOCP/Player.cpp and PlayerManager.cpp. Players/Registration is about
--     who is in the manager, Players/Buffs about how long a buff lasts.
--   ObjectPool: Homework4/EduServer_IOCP/ObjectPool.h.
--   LockOrder: Homework4/EduServer_IOCP/LockOrderChecker.cpp.
--   Spinlock: the write side of Homework4/EduServer_IOCP/FastSpinlock.cpp, by steps of its threads.
--   ExchangeLock: Homework6/EduServer_IOCP/FastSpinlock.cpp, by steps of its threads.
--
-- Numbers: size_t and uint64_t wrap at 2 ^ 64, DWORD and ULONG at 2 ^ 32, and a long is below
-- 2 ^ 31 where the code asserts its sign; otherwise it is its bit pattern. A failed CRASH_ASSERT
-- is `none`. What Windows answers to a call is an argument of the operation. A pointer in a free
-- object of the pool has 8 bytes.
--
-- Fuel: `accept_sessions` has one unit for each time round, and one more than MAX_CONNECTION is
-- enough; the loops of the memory pool's constructor have 64, more than any of them makes;
-- `do_send_job` has one for each time round, and one more than the requests is enough where the
-- loop ends; `accept_client_sessions` has one for each time round; `receive_loop` has one more than
-- the bytes of region A, since every round but the last reads a header.
--
-- Interleaving: the handlers of a server run one after the other, a round of a worker at a time,
-- which is how the completion port serves one session as long as it has one receive or send at a
-- time, and likewise those of a dummy client; a disconnect in between two steps of another handler
-- is not modelled. A database thread runs one job at a time, on the connection of its own. The locks are
-- modelled by single steps.
--
-- WAIT_TIMEOUT: a worker of Homework4 drops a context whose completion failed or moved no bytes while
-- its thread's last error is WAIT_TIMEOUT. The runs of Server/Runs are those without such a drop, and
-- Server/Leaks has what one costs.
--
-- Addresses of locals: DBHelper binds each column's length to a local of a function that returns before
-- SQLFetch writes it. These writes are listed in `stray`, and taken to hit none of the members.
--
-- Not modelled: the sockets and the start of the threads; the player's jobs of Homework4, the timer
-- and the GrandCentralExecuter, whose dispatch has no body in the source; the dispatch of the
-- database threads and the creation and deletion of a player, which have none either; the sessions
-- with other servers, which nothing makes; the read side of the spinlock (unfinished in the
-- source); logging and crash dumps; EchoBack and PostSend of the dummy clients, which nothing calls;
-- and the copies of other projects' libraries.
pub mod Prelude
pub mod CircularBuffer
pub mod Database
pub mod MemoryPool
pub mod Server
pub mod Session
pub mod Spinlock
pub mod ExchangeLock
pub mod ObjectPool
pub mod LockOrder
pub mod DummyClients
pub mod Players
