-- ===== src/Storage.antt =====
-- The storage zone (storage/): the schema, the tables and the delta log in one SQLite file, and the
-- mutation API, which is the only writer.
pub mod Schema
pub mod Table
pub mod Session
pub mod Graph
pub mod DeltaLog
pub mod Cache
pub mod Metrics
pub mod Query
pub mod Mutation
pub mod Snapshot
pub mod Search
pub mod Opened
pub mod Examples
pub mod Witnesses
pub mod QueryWitnesses
mod SearchWitnesses
