-- ===== src/Executor.antt =====
-- coproto/Socket/Executor.h: the ring of callbacks that the execution queues are made of.
pub mod CbQueue
pub mod ExecutionQueue
