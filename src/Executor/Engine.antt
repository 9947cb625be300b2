-- ===== src/Executor/Engine.antt =====
-- cypherast/executor/engine.py: the clauses of a query over the graph. `ev` is `eval_expr`, on which
-- every part takes its evaluations; `Engine/Query` ties the knot. A row is a dictionary.
pub mod Row
pub mod Action
pub mod Write
pub mod Query
pub mod Sound
mod Examples
pub mod Trails
pub mod Match
pub mod Project
