-- ===== src/Builder.antt =====
-- backend/pipeline/kg_builder.py: the nodes and the edges of a document's knowledge graph.
pub mod Graph
pub mod Records
pub mod Nodes
pub mod Built
pub mod Examples
