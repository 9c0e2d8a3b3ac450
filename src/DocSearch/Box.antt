-- ===== src/DocSearch/Box.antt =====
-- search.js: the class `SearchBox`.
pub mod State
pub mod Display
pub mod Search
pub mod Events
pub mod Filter
pub mod Index
pub mod Reset
pub mod Timers
pub mod Typing
pub mod Life
