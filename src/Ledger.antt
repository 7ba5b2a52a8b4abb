-- ===== src/Ledger.antt =====
-- application/todo-ledger.ts: the todo ledger, which plans changes to the todo document, writes them
-- through a compare-and-swap store and records them in the session's events.
pub mod State
pub mod Plans
pub mod Operations
pub mod Native
pub mod Requests
