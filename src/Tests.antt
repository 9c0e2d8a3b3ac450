-- ===== src/Tests.antt =====
-- Runs on concrete inputs, and each theorem that has hypotheses applied where they hold.
mod Align
mod IoContext
mod Executor
mod DocSearch
mod DocResults
mod DocPages
mod DocMenu
