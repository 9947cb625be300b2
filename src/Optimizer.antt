-- ===== src/Optimizer.antt =====
-- cypherast/optimizer: the rewrites of a query tree.
pub mod Simplify
pub mod RuleSet
pub mod Canonical
mod Samples
pub mod Pushdown
pub mod Chains
