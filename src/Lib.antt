-- ===== src/Lib.antt =====
-- A model of cypherast, a library that parses, checks, rewrites, plans and runs Cypher queries,
-- with theorems about its lexer, its syntax tree, its in-memory graph, its executor, its
-- simplifier and its planner.
--
-- The parts and their files
--   Prelude        the lists, numbers, results and Python dictionaries that the parts share. A
--                  dictionary is an association list in insertion order, an exception a value of
--                  `Result`.
--   Ast            cypherast/ast.py. Each class of the tree is a constructor of `AstNode`; `Ast/Kind`
--                  names the classes, `Ast/Walk` is `walk`, `find` and `find_all`, `Ast/Transform`
--                  is `transform`, and `Ast/Transform/Raising` the same with a rewrite that may
--                  raise.
--   Lexer          cypherast/lexer.py: `Tokens`, the characters that are left and the position in
--                  `Characters`, one function for each scanner in `Scanners`, `next_token` and
--                  `tokenize` in `Lexer`; `Quoting` has what cypherast/renderer.py quotes. A text
--                  is a list of code points.
--   Executor       cypherast/executor/graph.py in `Executor/Graph` (the graph is a record that every
--                  operation returns anew) and cypherast/executor/env.py in `Executor/Env`,
--                  `Executor/Functions` and `Executor/Eval`; `Executor/Python` has the operations
--                  of Python on values that the evaluator uses. cypherast/executor/engine.py is
--                  `Executor/Engine`: `Match` and `Trails` find rows, `Project` makes them (WITH,
--                  RETURN, ORDER BY, aggregates), `Write` changes the graph, `Query` runs the
--                  clauses. A clause that writes is an `Action`: it keeps the graph as it stands
--                  where it raises.
--   Optimizer      cypherast/optimizer/simplify.py, one function for each test of `_fix`, and
--                  cypherast/optimizer/engine.py in `Optimizer/RuleSet`; pushdown_predicates.py in
--                  `Optimizer/Pushdown`, canonicalize_patterns.py in `Optimizer/Canonical` and
--                  merge_match_chains.py in `Optimizer/Chains`.
--   Planner        cypherast/planner: the operators, their cost, the plan of a query, the choice
--                  among candidate plans, and the plan cache.
--   Dialects       cypherast/dialects/lower.py in `Dialects/Lower`: the core form of a surface tree.
--                  `Inside` says where a predicate stands in a pattern, `Form` which forms the
--                  rewrite of a node takes away.
--
-- How they interact: the optimizer, the lowering and the planner are functions of the tree; the
-- evaluator reads the tree, the graph and the bindings; the soundness of the simplifier and of
-- the hoisting of inline predicates is stated against the evaluator.
--
-- What is a parameter: floating-point arithmetic (`Floats`; a float is the 64 bits of its
-- double), Python's own library (`Builtins`), what `str` says of a character (`Unicode`), and
-- the text of an expression in a plan or as the name of a column (`Texts`). The clauses take
-- `eval_expr` as an argument; `Engine/Query` ties the two. An integer that meets a float is
-- taken to lie in the range of a double.
--
-- Fuel: the queue of a variable-length search runs on as many rounds as there are trails, which
-- is shown to be enough, and `tokenize` for as many tokens as there are characters and one more,
-- which is enough as well; `eval_expr` and `execute` take the depth of nested pattern forms and
-- of nested unions. All other recursion is structural. A loop of the source that does not end
-- (`in` on a node) gives the error `nontermination`.
--
-- Not modelled: the parser, and the renderer but for its quoting; what the query of an EXISTS
-- changes; dialect capabilities, checks and transforms; scopes and lineage; the schema but for
-- the statistics and endpoints that the planner reads; the optimizer's other passes; mutation
-- of a tree in place (`set`, `replace`, parent links); the regular expressions of `cache_key`.
pub mod Prelude
pub mod Ast
pub mod Lexer
pub mod Executor
pub mod Optimizer
pub mod Planner
pub mod Dialects
