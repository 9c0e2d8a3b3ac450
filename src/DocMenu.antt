-- ===== src/DocMenu.antt =====
-- docs/html/menu.js and docs/html/menudata.js: the menu of the pages.
pub mod Tree
pub mod Data
pub mod Html
pub mod Tags
pub mod Links
pub mod Nest
