-- ===== src/DocIntel.antt =====
-- The document intelligence of the backend: cutting documents into knowledge-base chunks.
pub mod Chunking
pub mod Schedule
pub mod Tests
