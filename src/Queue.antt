-- ===== src/Queue.antt =====
-- backend/storage/queue_repository.py: the index queue, the owner locks and the worker heartbeat.
pub mod Store
pub mod Jobs
pub mod Delivery
pub mod Recovery
pub mod Attempts
pub mod Locks
pub mod SharedLocks
pub mod Exclusion
pub mod Heartbeat
pub mod Model
pub mod Examples
