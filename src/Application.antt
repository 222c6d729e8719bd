-- ===== src/Application.antt =====
-- backend/storage/app_repository.py and file_store.py: the rows of owners, and the file graph.
pub mod Rows
pub mod Isolation
pub mod FileGraph
pub mod Merge
pub mod Examples
