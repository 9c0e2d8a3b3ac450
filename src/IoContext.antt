-- ===== src/IoContext.antt =====
-- lib/IOContext.h and src/IOContext.c: the context's data, its pool of tokens, and the calls that
-- hand a token to the ring and take it back.
pub mod Uring
pub mod Token
pub mod Pool
pub mod Request
pub mod Process
pub mod Lifetime
pub mod Balance
pub mod Requests
pub mod Batch
pub mod Answer
pub mod Callbacks
pub mod Ownership
pub mod Simulated
pub mod Abstract
pub mod Refines
