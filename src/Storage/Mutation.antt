-- ===== src/Storage/Mutation.antt =====
-- storage/internal/mutation: the single write entry point.
pub mod Conflict
pub mod Handlers
pub mod Batch
pub mod Step
pub mod Projection
pub mod Integrity
pub mod Fresh
pub mod Upsert
