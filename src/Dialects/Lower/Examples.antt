-- ===== src/Dialects/Lower/Examples.antt =====
-- MATCH (n WHERE n.age) LET x = n.age RETURN x, lowered.
use cypherast.Prelude.{◌≡◌, refl, ◌↔◌, true, false, [], All}
use cypherast.Prelude.Result.{ok, ◌>>=◌}
use cypherast.Ast.{
  map_literal, entry, end, pattern_comprehension, AstNode, OptNode, nil, cons, absent, present,
  star, boolean, identifier, alias, node_pattern, path_pattern, pattern, match_clause, where_clause,
  let_clause, return_clause, with_clause, query,
}
use cypherast.Ast.Walk.{walk}
use cypherast.Executor.Samples.{some_library, no_engine}
use cypherast.Executor.Env.{Env}
use cypherast.Executor.Graph.{empty_graph}
use cypherast.Dialects.Lower.{lower_node, lower_to_core, stripped, inline_of}
use cypherast.Dialects.Lower.Core.{is_surface, lower_to_core_lowers}
use cypherast.Dialects.Lower.Hoist.{lower_node-match, Holds, Passes, hoisted-Holds}
use cypherast.Dialects.Lower.Inside.{Inside}

abbrev inline : AstNode
inline = pattern (
    cons
      (path_pattern absent (
        cons
          (node_pattern (present (identifier "n")) absent absent
            (present (where_clause (boolean true))))
          nil))
      nil)

abbrev bare : AstNode
bare = pattern (
    cons
      (path_pattern absent
        (cons (node_pattern (present (identifier "n")) absent absent absent) nil))
      nil)

abbrev bound : AstNode
bound = alias (identifier "n") (identifier "x")

abbrev returned : AstNode
returned = return_clause (cons (identifier "x") nil) false absent absent absent absent

abbrev surface : AstNode
surface = query (
    cons (match_clause inline false absent [] absent)
      (cons (let_clause (cons bound nil)) (cons returned nil)))

abbrev core_form : AstNode
core_form = query (
    cons (match_clause bare false (present (where_clause (boolean true))) [] absent) (
      cons (with_clause (cons star (cons bound nil)) false absent absent absent absent absent)
        (cons returned nil)))

lowered : lower_to_core surface ≡ ok core_form
unfolding lower_to_core
lowered = refl

lower_to_core_lowers_example : All (λ n. is_surface n ≡ false) (walk core_form)
lower_to_core_lowers_example = lower_to_core_lowers surface core_form lowered

lower_node-match_example :
    (inline_of (stripped inline) ≡ [])
    × ((lower_node (match_clause inline false absent [] absent) >>= lower_node)
        ≡ lower_node (match_clause inline false absent [] absent))
lower_node-match_example = lower_node-match inline false absent [] absent

abbrev row : Env
row = record { graph = empty_graph; bindings = [] }

hoisted-Holds_example :
    (after : OptNode) × (lower_node (match_clause inline false (present (identifier "x")) [] absent)
      ≡ ok (match_clause (stripped inline) false after [] absent))
    × (Passes some_library no_engine row after ↔ (
        Passes some_library no_engine row (present (identifier "x"))
        × ((p : AstNode) → Inside p inline → Holds some_library no_engine row p)))
hoisted-Holds_example =
    hoisted-Holds some_library no_engine row inline false (present (identifier "x")) [] absent

-- {k: [(n WHERE true) | n]}: what stands in a map is neither refused nor lowered, so that its inline
-- predicate stays.
abbrev in_map : AstNode
in_map = map_literal (entry "k" (pattern_comprehension absent inline absent (identifier "n")) end)

in_map-lowered : lower_to_core in_map ≡ ok in_map
unfolding lower_to_core
in_map-lowered = refl

-- The same comprehension outside the map is lowered.
comprehension-lowered :
    lower_to_core (pattern_comprehension absent inline absent (identifier "n"))
    ≡ ok
        (pattern_comprehension absent bare (present (where_clause (boolean true))) (identifier "n"))
unfolding lower_to_core
comprehension-lowered = refl
