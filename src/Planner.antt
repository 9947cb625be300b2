-- ===== src/Planner.antt =====
-- cypherast/planner: physical operators, their cost, and the choice of a plan.
pub mod PhysicalOps
pub mod Cost
pub mod Plan
pub mod Enumeration
pub mod Cache
mod Examples
