-- ===== src/Runtime.antt =====
-- internal/runtime: the plan of a response's calls, the dispatch of a call through the store, and the
-- trimming of a history.
pub mod Calls
pub mod Attempted
pub mod Planning
pub mod Planned
pub mod PlanExamples
pub mod Trimming
pub mod Steady
pub mod Units
pub mod Dropped
pub mod Links
pub mod Trimmed
pub mod Kept
pub mod TrimHistory
pub mod TrimExamples
pub mod Examples
