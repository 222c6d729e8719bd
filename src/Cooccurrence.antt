-- ===== src/Cooccurrence.antt =====
-- backend/pipeline/cooccurrence.py: which entities of a page are linked, and which links are shown.
pub mod Pairs
pub mod Soundness
pub mod Completeness
pub mod Layout
pub mod Selection
pub mod Examples
