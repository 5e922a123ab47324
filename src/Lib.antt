-- ===== src/Lib.antt =====
-- coproto: a library for protocols that send and receive asynchronously, many of them over one
-- socket.
--
-- A protocol holds forks of a socket. A fork has a session id; the scheduler gives it a local id and
-- tells the peer, in a meta message, which session the id stands for. Sends of all forks go out one
-- after another, each behind a header with its size and the fork's id. Receives wait in their fork's
-- queue until a header names the fork. Two coroutines of the scheduler drive this: one writes the
-- sends, one reads headers and bodies. What completes is handed to an execution queue, which resumes
-- the callbacks. An error, or a call of `close`, cancels both sides.
--
-- Paths are those of the repository.
--
-- - Prelude: the names, Boolean tests, lists and machine words that the other modules share.
-- - ErrorCode: coproto/Common/error_code.h, `code` and `std::error_code`.
-- - Queue: coproto/Common/Queue.h. A chain of blocks, each a ring whose indices wrap at 2^64.
--   Blocks are placed by their position in the chain. Queue/Window has the ring's arithmetic,
--   Queue/Blocks one block, Queue/Chain the chain, Queue/Refine its operations, Queue/Erase
--   the erasure through a pointer, Queue/Reserve `reserve`, and Queue/Iterator the iterators, whose
--   fuel bounds the steps over the occupied entries. Queue/Blocking has `BlockingQueue`, whose lock makes each
--   call one step.
-- - Executor/CbQueue: coproto/Socket/Executor.h, `CBQueue`, the ring of callbacks; Fifo has the ring
--   below its capacity and Growth the push on a full one. The copying loop has the buffer's length
--   as fuel, which bounds its rounds.
-- - Executor/ExecutionQueue: coproto/Socket/Executor.h, `ExecutionQueue` and its handles, for any
--   number of threads. A thread's turn is one action: what it does under the mutex, or one round of
--   `runReturnLast`; what a callback or function that is run does with the queue are actions of its
--   own. Its rings hold eight at most: a push on a full one, which loses what the ring holds, is
--   `none`. Handles and Order have the invariant, Steps and Runs the operations, Returns
--   the loop to its end while nothing else is done with the queue, with the number of actions that are
--   still to come as fuel, and Others and Bounded that number while anything else is.
-- - SessionId: coproto/Proto/SessionID.h, the ids and how a child's is derived; SessionId/Print has their
--   text.
-- - Buffers: coproto/Proto/Operation.h, the buffer of a receive and its error.
-- - Wire: coproto/Socket/SocketScheduler.h, `Header` and `ControlBlock`, as bytes.
-- - Buffering: coproto/Socket/BufferingSocket.h. The byte buffer is a list of chunks with an offset
--   into the first (Buffering/Bytes); Buffering/Stream has the socket over it, and
--   Buffering/Awaiter a `SendRecvAwaiter` with its stop callback; Buffering/Moved has the move of one
--   buffer into another.
-- - LocalSocket: coproto/Socket/LocalAsyncSock.h. Each direction is a pair of one send and one
--   receive; LocalSocket/Transfer has their meeting, LocalSocket/Closing has `close`.
-- - Sched: coproto/Socket/SocketScheduler.h and SocketScheduler.cpp, with SocketFork.h,
--   SendOperation.h and RecvOperation.h. State has the members as a record, and the place where each
--   coroutine is suspended as a data type. Table has `fork`, `initLocalSocketFork` and
--   `initRemoteSocketFork`; Table/Keys and Table/Invariant have what ties the maps to the forks.
--   Recv and Send have the calls and the coroutines, from one suspension to the next; Cancel has
--   `cancel` and `close`, Stop the stop callbacks of single operations, and Run the events that drive
--   a scheduler. Count has `mNumRecvs` over all of them. Flush has `flush` and the tokens that
--   operations share, on a state that shows of an operation only its tokens, and of a queue whether the
--   last entry is an erased one, where `back()` fails. Whether the stop callback's `erase(T*)` finds
--   its operation depends on the blocks of the queue (Queue/Erase), which the lists of operations do not
--   show; it is a parameter of the callbacks. Stream has the format
--   of messages that the comment on `SockScheduler` describes, as the bytes that a list of messages
--   stands for and as a reader with the number of headers as fuel; Writes, Completes, Linked, Queues and Delivers have what the
--   send task makes of it while no write fails and no fork is added, Decode and Reads the reader,
--   Exchanged the two together, Moves and Drains how the list runs empty, and Receives, First and Sequence what the receive task makes of a message.
-- - Asio: coproto/Socket/AsioSocket.h. The awaiters of a transfer (Asio, Race), of a connection
--   attempt with its retries (Asio/Connect) and of an incoming connection (Asio/Accept); the same
--   two over TLS, where a handshake follows (Asio/TlsConnect, Asio/TlsAccept). An action is what
--   runs between two points where a completion or a stop request can come in; who resumes the handle
--   is decided by the flag, as in the code. boost asio completes
--   an operation once after it was started, at any time and with any result.
-- - Clp: coproto/Common/CLP.h and CLP.cpp, the command line parser; Parse, Keys, Split and Range
--   have its loops. The number of arguments, the length of the text and the number of w-bit words
--   are their fuel, and each bounds the rounds.
-- - Tests: concrete inputs.
--
-- A failed assertion, an exception, a read of an empty optional and a use of what is gone are `none`. A step holds the
-- scheduler's mutex from its start to its end, as the code does. A pointer or an iterator to a fork is
-- its position in the list, which only grows. Callbacks, handles and executors are numbers. The
-- socket below the scheduler is a parameter: each completion says how many bytes moved and with which
-- error.
--
-- Not modelled: certificates, name resolution and the io context of the asio sockets; stop
-- requests that run inside the call that registers them, where they lock the mutex again;
-- `exchangeMessages`, which resumes the user's code; the conversions of the command line's values by string
-- streams; type erasure and template traits.
pub mod Prelude
pub mod ErrorCode
pub mod Queue
pub mod Executor
pub mod SessionId
pub mod Buffers
pub mod Wire
pub mod Buffering
pub mod LocalSocket
pub mod Sched
pub mod Asio
pub mod Clp
pub mod Tests
