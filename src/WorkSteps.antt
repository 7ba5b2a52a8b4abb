-- ===== src/WorkSteps.antt =====
-- domain/work-steps.ts: the plan that a provider's journal shows, and the activities of each step.
pub mod Runtime
pub mod Distance
pub mod Framing
pub mod Entries
pub mod Classes
pub mod Journal
pub mod Matches
pub mod Reconcile
pub mod Flow
pub mod Views
pub mod Turns
pub mod Projection
