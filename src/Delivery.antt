-- ===== src/Delivery.antt =====
-- What the calls of the store do to the rows of its tables, and what holds of every store that a
-- history of calls reaches.
pub mod Edges
pub mod Moves
pub mod Invariant
pub mod Preserve
pub mod Growth
pub mod Refine
pub mod Calls
pub mod Histories
pub mod Finality
pub mod Manual
pub mod Fencing
pub mod Starting
pub mod Admission
pub mod Replays
pub mod Requests
pub mod Idempotency
pub mod Queue
pub mod Service
pub mod Acceptance
pub mod Settlement
pub mod Endings
pub mod Terminal
pub mod Retirement
pub mod Samples
mod Checks
mod CodexChecks
mod StepChecks
mod Examples
mod PluginExamples
