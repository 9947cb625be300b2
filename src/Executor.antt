-- ===== src/Executor.antt =====
-- cypherast/executor: the in-memory property graph, the evaluation of expressions and the engine.
pub mod Value
pub mod Graph
pub mod Python
pub mod Env
pub mod Functions
pub mod Eval
pub mod Engine
pub mod Samples
