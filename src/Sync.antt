-- ===== src/Sync.antt =====
-- The synchronisation of SharePoint folders: backend/doc_intel/crm_repo.py and scheduler.py. The tables
-- stand together in one value, since several transactions write more than one of them. A moment is a
-- number of milliseconds; the database driver binds it as a DATE, which drops the fraction of a second,
-- and `as_date` is that.
pub mod Rows
pub mod Tables
pub mod Files
pub mod Runs
pub mod Sources
pub mod Moves
pub mod Scheduler
pub mod Tests
