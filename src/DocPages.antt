-- ===== src/DocPages.antt =====
-- docs/html: the scripts of the documentation's pages beside the search.
pub mod Query
pub mod Sections
pub mod Folder
pub mod Changes
pub mod Stripes
pub mod Moves
pub mod Striped
pub mod Level
pub mod Fold
pub mod Refold
pub mod Page
pub mod Section
pub mod Click
