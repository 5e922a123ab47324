-- ===== src/Sched.antt =====
-- coproto/Socket/SocketScheduler.h and SocketScheduler.cpp, SocketFork.h, SendOperation.h and
-- RecvOperation.h: the scheduler that runs many forks over one socket, as explicit state passing.
-- The two coroutine tasks are their suspension points; an event resumes one of them.
pub mod State
pub mod Table
pub mod Cancel
pub mod Recv
pub mod Send
pub mod Run
pub mod Stop
pub mod Flush
pub mod Stream
pub mod Count
