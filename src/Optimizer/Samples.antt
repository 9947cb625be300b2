-- ===== src/Optimizer/Samples.antt =====
-- The passes on small trees.
use cypherast.Prelude.{◌≡◌, refl, [], none, some, true, false}
use cypherast.Ast.{
  match_clause, unwind, AstNode, AstNodes, nil, cons, absent, present, identifier, node_pattern,
  relationship_pattern, path_pattern, incoming, binary, and, eq, property, integer, pattern,
  map_literal, entry, end, outgoing,
}
use cypherast.Prelude.Int.{pos}
use cypherast.Prelude.Result.{ok}
use cypherast.Optimizer.Pushdown.{Folded, try_fold}
use cypherast.Optimizer.Pushdown.Conjuncts.{NoneLost, try_fold-NoneLost}
use cypherast.Optimizer.Chains.{merge_clauses, others, others-merge_clauses}
use cypherast.Optimizer.Canonical.{canonicalize_patterns, canonicalize_patterns_idem}

abbrev node_named : AstNode → AstNode
node_named x = node_pattern (present x) absent absent absent

-- (a)<--(b)
abbrev backwards : AstNode
backwards = path_pattern absent (
    cons (node_named (identifier "a")) (
      cons
        (relationship_pattern absent [] absent incoming none none false absent none absent absent)
        (cons (node_named (identifier "b")) nil)))

-- (b)-->(a)
abbrev forwards : AstNode
forwards = path_pattern absent (
    cons (node_named (identifier "b")) (
      cons
        (relationship_pattern absent [] absent outgoing none none false absent none absent absent)
        (cons (node_named (identifier "a")) nil)))

turned : canonicalize_patterns backwards ≡ forwards
unfolding canonicalize_patterns
turned = refl

canonicalize_patterns_idem_example :
    canonicalize_patterns (canonicalize_patterns backwards) ≡ canonicalize_patterns backwards
canonicalize_patterns_idem_example = canonicalize_patterns_idem backwards

-- n.age = 30 AND m
abbrev of_age : AstNode
of_age =
    binary and (binary eq (property (identifier "n") "age") (integer (pos 30))) (identifier "m")

abbrev node_n : AstNode → AstNodes
node_n n = cons (path_pattern absent (cons n nil)) nil

abbrev pushed : Folded
pushed = record {
  remaining = some (identifier "m");
  folded = true;
  left_pattern = pattern (
      node_n (
        node_pattern (present (identifier "n")) absent
          (present (map_literal (entry "age" (integer (pos 30)) end))) absent));
}

pushes : try_fold of_age (pattern (node_n (node_named (identifier "n")))) ≡ ok pushed
unfolding try_fold
pushes = refl

try_fold-NoneLost_example : NoneLost of_age (pattern (node_n (node_named (identifier "n")))) pushed
try_fold-NoneLost_example =
    try_fold-NoneLost of_age (pattern (node_n (node_named (identifier "n")))) pushes

-- MATCH (a) MATCH (a)<--(b) UNWIND m AS x
abbrev two_matches : AstNodes
two_matches =
    cons (match_clause (pattern (node_n (node_named (identifier "a")))) false absent [] absent) (
      cons (match_clause (pattern (cons backwards nil)) false absent [] absent)
        (cons (unwind (identifier "m") (identifier "x")) nil))

merged :
    merge_clauses two_matches
    ≡ cons
        (match_clause (pattern (cons backwards nil)) false absent [] absent)
        (cons (unwind (identifier "m") (identifier "x")) nil)
unfolding merge_clauses
merged = refl

others-merge_clauses_example : others (merge_clauses two_matches) ≡ others two_matches
others-merge_clauses_example = others-merge_clauses two_matches
