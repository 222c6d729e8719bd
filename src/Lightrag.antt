-- ===== src/Lightrag.antt =====
-- backend/lightrag_integration: the cache of instances, merged answers, and the pages of a document.
pub mod Instances
pub mod Sharing
pub mod Leases
pub mod Releases
pub mod Creation
pub mod Reachable
pub mod Context
pub mod Merging
pub mod Evidence
pub mod Pages
pub mod Numbering
pub mod Examples
