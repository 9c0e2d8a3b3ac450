-- ===== src/Executor.antt =====
-- lib/Executor.h and src/Executor.c: frames, their scheduling, and the calls of the tasks.
pub mod Frame
pub mod Schedule
pub mod Async
pub mod Run
pub mod Cycle
pub mod Turn
pub mod Fair
pub mod Invariant
pub mod Lifecycle
pub mod Setup
pub mod Waiting
