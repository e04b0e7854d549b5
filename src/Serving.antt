-- ===== src/Serving.antt =====
-- The serving zone (serving/): the analyses that answer from what storage keeps, without a language
-- model.
pub mod Client
pub mod Evolution
pub mod Impact
pub mod Topics
pub mod Intent
pub mod Planner
pub mod Retriever
pub mod Server
mod Witnesses
mod GraphWitnesses
