-- ===== src/DocSearch.antt =====
-- docs/html/search/search.js: the search of the documentation's pages.
pub mod Text
pub mod Id
pub mod Rows
pub mod Keys
pub mod Page
pub mod Nav
pub mod Box
pub mod NavVisible
pub mod Drawn
pub mod Create
pub mod CreateSearch
pub mod CreateLinks
pub mod Data
pub mod Files
pub mod Found
pub mod Shown
