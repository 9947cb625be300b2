-- ===== src/Executor/Engine/Examples.antt =====
-- The engine on a small graph: two people, the first of whom knows the second.
use Prim.Native.Nat.{ℕ, ◌≤◌}
use mathlib.Core.List.{Perm}
use mathlib.Core.Logic.{◌↔◌}
use cypherast.Prelude.{
  ◌≡◌, refl, true, false, String, List, [], ◌∷◌, Option, none, some, length, In, here, there, arith,
}
use cypherast.Prelude.Int.{pos}
use cypherast.Prelude.Dict.{lookup, has, nat_eq, string_eq}
use cypherast.Prelude.Result.{Result, ok}
use cypherast.Ast.{
  AstNode, AstNodes, nil, cons, absent, present, outgoing, identifier, label_expression, property,
  node_pattern, relationship_pattern, path_pattern, pattern, match_clause, set_clause, set_item,
  delete, ordered, string,
}
use cypherast.Executor.Value.{Value, Values, empty, item, int, node_ref}
use cypherast.Executor.Graph.{Graph, empty_graph, create_node, create_rel}
use cypherast.Executor.Graph.History.{empty_graph-IsConsistent}
use cypherast.Executor.Env.{Env}
use cypherast.Executor.Eval.{eval}
use cypherast.Executor.Samples.{some_library, no_engine}
use cypherast.Executor.Engine.Row.{Row}
use cypherast.Executor.Engine.Sound.{IsSound, create_node-IsSound, create_rel-IsSound}
use cypherast.Executor.Engine.Trails.{Hops, var_expand}
use cypherast.Executor.Engine.Trails.Ends.{var_expand_ends}
use cypherast.Executor.Engine.Trails.Exact.{Allowed, var_expand-exact}
use cypherast.Executor.Engine.Match.Paths.{match_rows}
use cypherast.Executor.Engine.Match.Rows.{optional_match-keeps_rows}
use cypherast.Executor.Engine.Project.{Texts, order_all}
use cypherast.Executor.Engine.Project.Order.{order_all-Perm}
use cypherast.Executor.Engine.Project.Aggregate.{grouped}
use cypherast.Executor.Engine.Project.Groups.{members, grouped-Perm}
use cypherast.Executor.Engine.Write.{create_rows}
use cypherast.Executor.Engine.Write.Creates.{create_rows-IsSound, IsBoundIn}
use cypherast.Executor.Engine.Query.{run_query}
use cypherast.Executor.Engine.Query.Quiet.{all_quiet, run_query-keeps}

abbrev person : Graph
person = (create_node ("Person" ∷ []) [] empty_graph).1

abbrev people : Graph
people = (create_node ("Person" ∷ []) [] person).1

abbrev friends : Graph
friends = (create_rel 1 2 "KNOWS" [] people).1

empty_graph-IsSound : IsSound empty_graph
unfolding lookup
empty_graph-IsSound = record { consistent = empty_graph-IsConsistent; object_fresh = λ n h. cc }

people-IsSound : IsSound people
people-IsSound =
    create_node-IsSound ("Person" ∷ []) []
      (create_node-IsSound ("Person" ∷ []) [] empty_graph-IsSound)

friends-IsSound : IsSound friends
unfolding create_node has
friends-IsSound = create_rel-IsSound 1 2 "KNOWS" [] people-IsSound refl refl

abbrev one_to_two : Hops
one_to_two = record { direction = outgoing; types = "KNOWS" ∷ []; min_hops = 1; max_hops = 2 }

var_expand_ends_example : (rs : List (List ℕ × ℕ)) × (var_expand friends one_to_two 1 ≡ ok rs)
var_expand_ends_example = var_expand_ends friends one_to_two 1

known : var_expand friends one_to_two 1 ≡ ok ((3 ∷ [], 2) ∷ [])
unfolding var_expand create_node create_rel
known = refl

var_expand-exact_example :
    In {A = List ℕ × ℕ} (3 ∷ [], 2) ((3 ∷ [], 2) ∷ []) ↔ Allowed friends one_to_two 1 (3 ∷ [], 2)
var_expand-exact_example = var_expand-exact friends one_to_two 1 ((3 ∷ [], 2) ∷ []) known (3 ∷ []) 2

abbrev ev : AstNode → Env → Result Value
ev = eval some_library no_engine

abbrev person_as : String → AstNode
person_as x =
    node_pattern (present (identifier x)) (present (label_expression ("Person" ∷ []) none)) absent
      absent

abbrev knows : AstNode
knows =
    relationship_pattern absent ("KNOWS" ∷ []) absent outgoing none none false absent none absent
      absent

abbrev one_path : AstNodes → AstNode
one_path es = pattern (cons (path_pattern absent es) nil)

abbrev introduction : AstNode
introduction = one_path (cons (person_as "a") (cons knows (cons (person_as "b") nil)))

abbrev bound_row : Row
bound_row = ("a", node_ref 1) ∷ []

bound_row-IsBoundIn : IsBoundIn bound_row friends
unfolding lookup create_node create_rel has
bound_row-IsBoundIn x n e = first n (lookup x bound_row) refl e
  where
    first :
        (n : ℕ) (o : Option Value)
        → lookup x bound_row ≡ o
        → o ≡ some (node_ref n)
        → has n friends.nodes ≡ true
    first n o p q = ground arith

only_row : (row : Row) → In row (bound_row ∷ []) → IsBoundIn row friends
only_row row here = bound_row-IsBoundIn
only_row row (there i) = elim i [ ]

create_rows-IsSound_example : IsSound (create_rows ev [] introduction (bound_row ∷ []) friends).1
create_rows-IsSound_example =
    create_rows-IsSound ev [] introduction (bound_row ∷ []) friends-IsSound only_row

abbrev met_row : Row
met_row = ("a", node_ref 1) ∷ ("b", node_ref 2) ∷ []

met :
    match_rows some_library ev [] friends introduction true absent (bound_row ∷ [])
    ≡ ok (met_row ∷ [])
unfolding match_rows create_node create_rel
met = refl

optional_match-keeps_rows_example : length (bound_row ∷ []) ≤ length (met_row ∷ [])
optional_match-keeps_rows_example =
    optional_match-keeps_rows some_library ev [] friends introduction absent (bound_row ∷ []) met

abbrev some_texts : Texts
some_texts = record { render = λ e. ""; lower = λ s. s }

abbrev paired : ℕ → Row × Row
paired n = (("x", int (pos n)) ∷ [], ("x", int (pos n)) ∷ [])

abbrev by_x : AstNodes
by_x = cons (ordered (identifier "x") true none) nil

sorted_down :
    order_all some_library some_texts ev [] friends by_x (paired 1 ∷ paired 2 ∷ [])
    ≡ ok (paired 2 ∷ paired 1 ∷ [])
unfolding order_all eval
sorted_down = refl

order_all-Perm_example : Perm (paired 2 ∷ paired 1 ∷ []) (paired 1 ∷ paired 2 ∷ [])
order_all-Perm_example =
    order_all-Perm some_library some_texts ev [] friends by_x (paired 1 ∷ paired 2 ∷ []) sorted_down

abbrev number : ℕ → Row
number n = ("x", int (pos n)) ∷ []

abbrev two_groups : List (Values × List Row)
two_groups =
    (item (int (pos 1)) empty, number 1 ∷ number 1 ∷ [])
    ∷ (item (int (pos 2)) empty, number 2 ∷ [])
    ∷ []

parted :
    grouped some_library some_texts ev [] friends
      (cons (identifier "x") nil)
      (number 1 ∷ number 2 ∷ number 1 ∷ [])
      []
    ≡ ok two_groups
unfolding grouped eval
parted = refl

grouped-Perm_example : Perm (members two_groups) (number 1 ∷ number 2 ∷ number 1 ∷ [])
grouped-Perm_example =
    grouped-Perm some_library some_texts ev [] friends (cons (identifier "x") nil)
      (number 1 ∷ number 2 ∷ number 1 ∷ []) parted

-- MATCH (a:Person) SET a.name = 'x' DELETE a, which raises at the first node
abbrev renaming : AstNodes
renaming = cons (match_clause (one_path (cons (person_as "a") nil)) false absent [] absent) (
    cons
      (set_clause
        (cons (set_item (property (identifier "a") "name") (present (string "x")) none) nil))
      (cons (delete (cons (identifier "a") nil) false) nil))

renaming-quiet : all_quiet renaming ≡ true
unfolding all_quiet
renaming-quiet = refl

run_query-keeps_example : IsSound (run_query some_library some_texts ev [] renaming friends).1
run_query-keeps_example =
    run_query-keeps some_library some_texts ev [] renaming renaming-quiet friends-IsSound
