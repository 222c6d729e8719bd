-- ===== src/Assembler.antt =====
-- backend/pipeline/text_assembler.py: the parser's blocks, joined to one text for each page.
pub mod Pages
pub mod Spans
pub mod Groups
pub mod Examples
