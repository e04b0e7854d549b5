-- ===== src/Pipeline.antt =====
-- The processing pipeline (pipeline/): a batch of records becomes the mutations that storage needs.
pub mod Merge
pub mod Gate
pub mod Delta
mod Witnesses
