-- ===== src/Restore.antt =====
-- backend/app/services/restore.py: merging a backup into the live data. Modelled are the journal of
-- the files that an import brings and its completion after a stop.
pub mod Journal
