-- ===== src/DocIntel/Chunking.antt =====
-- backend/doc_intel/chunking.py: a normalized document becomes chunks of bounded size.
pub mod Cleaning
pub mod Split
pub mod Header
pub mod Builder
pub mod Feed
pub mod Build
