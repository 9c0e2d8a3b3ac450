-- ===== src/Executor/Invariant.antt =====
-- The invariant of the executor: the table of frames, the contexts that are saved, and where the
-- thread is. Every step of the program keeps it.
pub mod Defs
pub mod Moves
pub mod Steps
pub mod Shortened
pub mod Ends
pub mod Waking
pub mod Spawning
pub mod Program
