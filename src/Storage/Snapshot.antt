-- ===== src/Storage/Snapshot.antt =====
-- storage/internal/snapshot: snapshots of the tables, and the graph rebuilt from the delta log.
pub mod Replay
pub mod Store
pub mod Restore
