-- ===== src/Qa.antt =====
-- backend/services/qa_service.py: batches of questions.
pub mod Batch
pub mod Start
pub mod Progress
pub mod Rounds
pub mod Completion
pub mod Waiting
pub mod Polling
pub mod Outcome
pub mod Cancellation
pub mod Examples
