-- ===== src/Planner/Examples.antt =====
-- Plans of small queries, the cost of one, and the cache.
use Prim.Native.Nat.{◌≤◌, ◌+◌}
use cypherast.Prelude.{In, String, ◌≡◌, refl, false, [], ◌∷◌, none, some, length, arith}
use cypherast.Prelude.Result.{ok, err, stop_iteration}
use cypherast.Ast.{
  ◌+++◌, AstNode, AstNodes, nil, cons, absent, present, outgoing, identifier, label_expression,
  node_pattern, relationship_pattern, path_pattern, pattern, match_clause, return_clause, query,
  cypher,
}
use cypherast.Planner.PhysicalOps.{
  operator, no_op, PhysicalOp, name_of, once, empty_result, scan_all, only, filter_op, flatten,
}
use cypherast.Planner.Cost.{estimate, total, estimate-eq-total}
use cypherast.Planner.Plan.{Texts, plan_clauses, plan_query, plan_query-return, naive_plan}
use cypherast.Planner.Plan.Root.{plan_query-update}
use cypherast.Planner.Enumeration.{
  Schema, orient_expand, schema_adjusted_cost, candidates, cost_plan,
}
use cypherast.Planner.Enumeration.Cheapest.{NoneCheaper, cost_plan-NoneCheaper}
use cypherast.Executor.Python.{Floats}
use cypherast.Prelude.Int.{pos_part}
use cypherast.Executor.Samples.{some_floats}
use cypherast.Planner.Cache.{PlanCache, put, get, put-bounded}

abbrev some_texts : Texts
some_texts = record { render = λ n. "e" }

abbrev labeled : String → String → AstNode
labeled x l =
    node_pattern (present (identifier x)) (present (label_expression (l ∷ []) none)) absent absent

-- MATCH (a:A)-[:R]->(b:B) RETURN a
abbrev between : AstNode
between = path_pattern absent (
    cons (labeled "a" "A") (
      cons
        (relationship_pattern absent ("R" ∷ []) absent outgoing none none false absent none absent
          absent)
        (cons (labeled "b" "B") nil)))

abbrev matched : AstNodes
matched = cons (match_clause (pattern (cons between nil)) false absent [] absent) nil

abbrev clauses : AstNodes
clauses =
    matched
    +++ cons (return_clause (cons (identifier "a") nil) false absent absent absent absent) nil

abbrev scanned : PhysicalOp
scanned = filter_op "p" (only (scan_all "n" (only once)))

estimate-eq-total_example : estimate scanned ≡ total (flatten scanned)
estimate-eq-total_example = estimate-eq-total scanned

plan_query-update_example :
    plan_query some_texts matched ≡ empty_result (only (plan_clauses some_texts matched once))
plan_query-update_example = plan_query-update some_texts matched refl

plan_query-return_example : name_of (plan_query some_texts clauses) ≡ "Produce"
plan_query-return_example =
    plan_query-return some_texts matched (cons (identifier "a") nil) false absent absent absent
      absent

-- A schema that knows how many nodes the label B has.
abbrev with_stats : Schema
with_stats = record {
  endpoints = ("R", ("A", "B") ∷ []) ∷ [];
  stats = ("label:B", 4607182418800017408) ∷ [];
}

cost_plan-NoneCheaper_example :
    In
      (cost_plan some_floats some_texts (some with_stats) (cypher (query clauses) none))
      (candidates some_floats some_texts (some with_stats) clauses)
    × NoneCheaper
        (estimate (cost_plan some_floats some_texts none (cypher (query clauses) none)))
        (candidates some_floats some_texts none clauses)
cost_plan-NoneCheaper_example =
    cost_plan-NoneCheaper some_floats some_texts (some with_stats) clauses none

abbrev full : PlanCache
full = record { max_size = 1; store = ("a", once) ∷ [] }

put-bounded_example :
    (d : PlanCache) × (put "b" scanned full ≡ ok d)
    × (length d.store ≤ d.max_size)
    × (get "b" d ≡ some scanned)
put-bounded_example = put-bounded "b" scanned full (omega arith) (omega arith)

-- A cache of size nothing has no entry to drop.
put-empty : put "b" scanned (record { max_size = 0; store = [] }) ≡ err stop_iteration
unfolding put
put-empty = refl

-- The naive plan of the query ends in its RETURN; the cheapest one, an alternative of its MATCH, is
-- the match alone.
naive-Produce : name_of (naive_plan some_texts (cypher (query clauses) none)) ≡ "Produce"
unfolding naive_plan
naive-Produce = refl

cost_plan-Expand :
    name_of (cost_plan some_floats some_texts none (cypher (query clauses) none)) ≡ "Expand"
unfolding cost_plan
cost_plan-Expand = refl

-- With a schema, an expansion of an alternative names the endpoints of its type.
endpoints_named : orient_expand ":R" ("S" ∷ "R" ∷ []) with_stats.endpoints ≡ ":R /*A->B*/"
unfolding orient_expand
endpoints_named = refl

-- The statistics of the label in the root's text scale the cost; those of other labels do not.
abbrev counting : Floats
counting = record some_floats { of_int = pos_part; times = λ a b. a + 1 }

abbrev scan_b : PhysicalOp
scan_b = operator "ScanAllByLabel" "(b :B)" no_op 0

scaled_once :
    schema_adjusted_cost counting scan_b
      (record { endpoints = []; stats = ("label:B", 0) ∷ ("label:C", 0) ∷ ("B", 0) ∷ [] })
    ≡ 21
unfolding schema_adjusted_cost
scaled_once = refl
