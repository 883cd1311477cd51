-- ===== src/Queues.antt =====
-- The queues of the knowledge base: which parts of it a chat searches.
pub mod Catalog
pub mod Assign
pub mod Access
pub mod Tests
