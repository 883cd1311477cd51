-- ===== src/Import.antt =====
-- The import of documents into the knowledge base: backend/doc_intel/kb_repo.py, kb_store.py,
-- kb_import.py, embedding.py and textutil.py.
pub mod Textutil
pub mod Rows
pub mod Repo
pub mod Store
pub mod Embedding
pub mod Pipeline
pub mod Service
pub mod Tests
