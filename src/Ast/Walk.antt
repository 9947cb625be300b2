-- ===== src/Ast/Walk.antt =====
-- `AstNode.walk`, `find_all` and `find`: a node, then its arguments from left to right, node by node
-- and list by list. What stands in a tuple (map entries, CASE arms, pairs of a map projection) is
-- not visited.
use cypherast.Prelude.{Bool, List, [], ◌∷◌, ◌++◌, Option, none, some, if◌then◌else◌}
use cypherast.Ast.{
  AstNode, AstNodes, OptNode, ProjectionEntries, nil, cons, absent, present, finish, node_entry,
  pair_entry, name_entry, property, label_predicate, list_literal, list_subscript, list_slice,
  range, alias, binary, not_expr, neg, is_null, function_call, case_expr, coalesce,
  list_comprehension, quantifier, list_lambda, pattern_comprehension, map_projection,
  pattern_predicate, count_subquery, node_pattern, relationship_pattern, path_pattern, pattern,
  shortest_path, relationship_lambda, quantified_path, match_clause, where_clause, with_clause,
  return_clause, for_clause, group_by, unwind, order, ordered, skip, limit, create, merge,
  on_create, on_match, set_clause, set_item, delete, remove_clause, remove_labels, foreach,
  call_subquery, filter_item, filter_clause, let_clause, load_csv, search_clause, when_branch,
  when_query, call_procedure, union, query, cypher, next, insert_clause, create_graph_type, yield,
}

unfoldable mutual
  -- The nodes strictly below a node, in the order of `walk`.
  pub below : AstNode → List AstNode
  below (property object name) = (object ∷ below object)
  below (label_predicate object labels) = (object ∷ below object) ++ (labels ∷ below labels)
  below (list_literal items) = below_list items
  below (list_subscript object index) = (object ∷ below object) ++ (index ∷ below index)
  below (list_slice object start stop) =
      (object ∷ below object) ++ (below_opt start ++ below_opt stop)
  below (range start stop) = below_opt start ++ below_opt stop
  below (alias object as_name) = (object ∷ below object) ++ (as_name ∷ below as_name)
  below (binary op left right) = (left ∷ below left) ++ (right ∷ below right)
  below (not_expr object) = (object ∷ below object)
  below (neg object) = (object ∷ below object)
  below (is_null object not_) = (object ∷ below object)
  below (function_call name args distinct) = below_list args
  below (case_expr subject arms default) = below_opt subject ++ below_opt default
  below (coalesce items) = below_list items
  below (list_comprehension variable source condition projection) =
      (variable ∷ below variable)
      ++ ((source ∷ below source) ++ (below_opt condition ++ below_opt projection))
  below (quantifier name variable source condition) =
      (variable ∷ below variable) ++ ((source ∷ below source) ++ below_opt condition)
  below (list_lambda name variable source body accumulator initial) =
      (variable ∷ below variable)
      ++ ((source ∷ below source)
          ++ ((body ∷ below body) ++ (below_opt accumulator ++ below_opt initial)))
  below (pattern_comprehension variable pat condition projection) =
      below_opt variable
      ++ ((pat ∷ below pat) ++ (below_opt condition ++ (projection ∷ below projection)))
  below (map_projection object entries) = (object ∷ below object) ++ below_entries entries
  below (pattern_predicate pat not_) = (pat ∷ below pat)
  below (count_subquery inner) = (inner ∷ below inner)
  below (node_pattern variable labels properties condition) =
      below_opt variable ++ (below_opt labels ++ (below_opt properties ++ below_opt condition))
  below
        (relationship_pattern variable types properties direction low high variable_length condition
          quant weight total) =
      below_opt variable
      ++ (below_opt properties ++ (below_opt condition ++ (below_opt weight ++ below_opt total)))
  below (path_pattern variable elements) = below_opt variable ++ below_list elements
  below (pattern paths) = below_list paths
  below (shortest_path object all_) = (object ∷ below object)
  below (relationship_lambda rel node body) =
      (rel ∷ below rel) ++ ((node ∷ below node) ++ (body ∷ below body))
  below (quantified_path object low high) = (object ∷ below object)
  below (match_clause pat optional condition hints search_of) =
      (pat ∷ below pat) ++ (below_opt condition ++ below_opt search_of)
  below (where_clause object) = (object ∷ below object)
  below (with_clause items distinct condition ord skp lim grp) =
      below_list items
      ++ (below_opt condition
          ++ (below_opt ord ++ (below_opt skp ++ (below_opt lim ++ below_opt grp))))
  below (return_clause items distinct ord skp lim grp) =
      below_list items ++ (below_opt ord ++ (below_opt skp ++ (below_opt lim ++ below_opt grp)))
  below (for_clause object name) = (object ∷ below object) ++ (name ∷ below name)
  below (group_by items) = below_list items
  below (unwind object name) = (object ∷ below object) ++ (name ∷ below name)
  below (order items) = below_list items
  below (ordered object desc nulls) = (object ∷ below object)
  below (skip object) = (object ∷ below object)
  below (limit object) = (object ∷ below object)
  below (create pat) = (pat ∷ below pat)
  below (merge pat actions) = (pat ∷ below pat) ++ below_list actions
  below (on_create actions) = below_list actions
  below (on_match actions) = below_list actions
  below (set_clause items) = below_list items
  below (set_item object value op) = (object ∷ below object) ++ below_opt value
  below (delete items detach) = below_list items
  below (remove_clause items) = below_list items
  below (remove_labels object labels) = (object ∷ below object) ++ (labels ∷ below labels)
  below (foreach variable object clauses) =
      (variable ∷ below variable) ++ ((object ∷ below object) ++ below_list clauses)
  below (call_subquery inner variables optional in_tx rows) =
      (inner ∷ below inner) ++ (below_list variables ++ below_opt rows)
  below (filter_item variable predicate) = (variable ∷ below variable) ++ below_opt predicate
  below (filter_clause items) = below_list items
  below (let_clause items) = below_list items
  below (load_csv url name headers terminator) =
      (url ∷ below url) ++ ((name ∷ below name) ++ below_opt terminator)
  below (search_clause variable index vector lim score) =
      (variable ∷ below variable) ++ ((vector ∷ below vector) ++ (below_opt lim ++ below_opt score))
  below (when_branch condition inner) = (condition ∷ below condition) ++ (inner ∷ below inner)
  below (when_query branches default) = below_list branches ++ below_opt default
  below (call_procedure name args yielded condition) =
      below_list args ++ (below_opt yielded ++ below_opt condition)
  below (union left right distinct) = (left ∷ below left) ++ (right ∷ below right)
  below (query clauses) = below_list clauses
  below (cypher object version) = (object ∷ below object)
  below (next left right) = (left ∷ below left) ++ (right ∷ below right)
  below (insert_clause pat) = (pat ∷ below pat)
  below (create_graph_type name body) = below_opt body
  below (yield items) = below_list items
  below _ = []

  pub below_list : AstNodes → List AstNode
  below_list nil = []
  below_list (cons n ns) = (n ∷ below n) ++ below_list ns

  pub below_opt : OptNode → List AstNode
  below_opt absent = []
  below_opt (present n) = n ∷ below n

  pub below_entries : ProjectionEntries → List AstNode
  below_entries finish = []
  below_entries (node_entry n es) = (n ∷ below n) ++ below_entries es
  below_entries (pair_entry k n es) = below_entries es
  below_entries (name_entry x es) = below_entries es

abbrev pub walk : AstNode → List AstNode
walk n = n ∷ below n

-- [n for n in self.walk() if isinstance(n, types)], the types being given by their test
abbrev select : (AstNode → Bool) → List AstNode → List AstNode
select is [] = []
select is (n ∷ ns) = if is n then n ∷ select is ns else select is ns

unfoldable pub find_all : (AstNode → Bool) → AstNode → List AstNode
unfolding below
find_all is n = select is (walk n)

abbrev first : (AstNode → Bool) → List AstNode → Option AstNode
first is [] = none
first is (n ∷ ns) = if is n then some n else first is ns

unfoldable pub find : (AstNode → Bool) → AstNode → Option AstNode
unfolding below
find is n = first is (walk n)
