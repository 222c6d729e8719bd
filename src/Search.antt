-- ===== src/Search.antt =====
-- backend/services/search_service.py: the searches over the knowledge graph.
pub mod Paths
pub mod Walks
pub mod Found
pub mod Termination
pub mod Scope
pub mod Scoping
pub mod Examples
pub mod ScopeExamples
