-- ===== src/Indexing.antt =====
-- backend/services/indexing_service.py: index jobs, their cancellation and the worker.
pub mod Jobs
pub mod Start
pub mod Starting
pub mod Deletion
pub mod Cancel
pub mod Fences
pub mod Cancelled
pub mod Swept
pub mod Engine
pub mod Publishing
pub mod Worker
pub mod Renewal
pub mod Handling
pub mod Examples
