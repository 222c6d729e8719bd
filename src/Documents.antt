-- ===== src/Documents.antt =====
-- backend/services/document_service.py: the state of a document's two indexes, and deletion.
pub mod Status
pub mod Removal
pub mod Removed
pub mod Saving
pub mod Races
pub mod Examples
