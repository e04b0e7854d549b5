-- ===== src/Ingestion.antt =====
-- The ingestion zone (ingestion/): ingestors are run in the order of their dependencies, what they
-- fetch is validated and delivered, and a checkpoint remembers how far each has come.
pub mod Contract
pub mod Registry
pub mod Plan
pub mod Dispatch
pub mod Stores
pub mod RunOne
mod Opened
pub mod Examples
mod Witnesses
mod RunWitnesses
