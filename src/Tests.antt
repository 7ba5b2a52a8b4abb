-- ===== src/Tests.antt =====
-- Runs of the models at concrete inputs, and instances of the theorems there.
mod Todos
mod Ledgers
mod Usages
mod Terminals
mod Routers
mod Reviews
mod Canonicals
mod Steps
mod Texts
mod Promotions
mod Tasks
mod Catalogs
mod Numbers
