-- ===== src/Ast/Transform.antt =====
-- `AstNode.transform`: the arguments are rewritten first, then the node itself. Here the rewrite
-- cannot raise; `Transform/Raising` has the one that can. What stands in a tuple is left as it is.
pub mod Raising
pub mod Agree
pub mod Settled
pub mod Everywhere
pub mod Idempotent
mod Examples
use cypherast.Ast.{
  AstNode, AstNodes, OptNode, ProjectionEntries, nil, cons, absent, present, finish, node_entry,
  pair_entry, name_entry, property, label_predicate, list_literal, list_subscript, list_slice,
  range, alias, binary, not_expr, neg, is_null, function_call, case_expr, coalesce,
  list_comprehension, quantifier, list_lambda, pattern_comprehension, map_projection,
  pattern_predicate, count_subquery, node_pattern, relationship_pattern, path_pattern, pattern,
  shortest_path, relationship_lambda, quantified_path, match_clause, where_clause, with_clause,
  return_clause, for_clause, group_by, unwind, order, ordered, skip, limit, create, merge,
  on_create, on_match, set_clause, set_item, delete, remove_clause, remove_labels, foreach,
  call_subquery, filter_item, filter_clause, let_clause, load_csv, search_clause, when_branch,
  when_query, call_procedure, union, query, cypher, next, insert_clause, create_graph_type, yield,
}

unfoldable mutual
  pub transform : (AstNode → AstNode) → AstNode → AstNode
  transform f (property object name) = f (property (transform f object) name)
  transform f (label_predicate object labels) =
      f (label_predicate (transform f object) (transform f labels))
  transform f (list_literal items) = f (list_literal (transform_list f items))
  transform f (list_subscript object index) =
      f (list_subscript (transform f object) (transform f index))
  transform f (list_slice object start stop) =
      f (list_slice (transform f object) (transform_opt f start) (transform_opt f stop))
  transform f (range start stop) = f (range (transform_opt f start) (transform_opt f stop))
  transform f (alias object as_name) = f (alias (transform f object) (transform f as_name))
  transform f (binary op left right) = f (binary op (transform f left) (transform f right))
  transform f (not_expr object) = f (not_expr (transform f object))
  transform f (neg object) = f (neg (transform f object))
  transform f (is_null object not_) = f (is_null (transform f object) not_)
  transform f (function_call name args distinct) =
      f (function_call name (transform_list f args) distinct)
  transform f (case_expr subject arms default) =
      f (case_expr (transform_opt f subject) arms (transform_opt f default))
  transform f (coalesce items) = f (coalesce (transform_list f items))
  transform f (list_comprehension variable source condition projection) = f (
      list_comprehension (transform f variable) (transform f source) (transform_opt f condition)
        (transform_opt f projection))
  transform f (quantifier name variable source condition) =
      f (quantifier name (transform f variable) (transform f source) (transform_opt f condition))
  transform f (list_lambda name variable source body accumulator initial) = f (
      list_lambda name (transform f variable) (transform f source) (transform f body)
        (transform_opt f accumulator) (transform_opt f initial))
  transform f (pattern_comprehension variable pat condition projection) = f (
      pattern_comprehension (transform_opt f variable) (transform f pat) (transform_opt f condition)
        (transform f projection))
  transform f (map_projection object entries) =
      f (map_projection (transform f object) (transform_entries f entries))
  transform f (pattern_predicate pat not_) = f (pattern_predicate (transform f pat) not_)
  transform f (count_subquery inner) = f (count_subquery (transform f inner))
  transform f (node_pattern variable labels properties condition) = f (
      node_pattern (transform_opt f variable) (transform_opt f labels) (transform_opt f properties)
        (transform_opt f condition))
  transform f
        (relationship_pattern variable types properties direction low high variable_length condition
          quant weight total) =
      f (
        relationship_pattern (transform_opt f variable) types (transform_opt f properties) direction
          low high variable_length (transform_opt f condition) quant (transform_opt f weight)
          (transform_opt f total))
  transform f (path_pattern variable elements) =
      f (path_pattern (transform_opt f variable) (transform_list f elements))
  transform f (pattern paths) = f (pattern (transform_list f paths))
  transform f (shortest_path object all_) = f (shortest_path (transform f object) all_)
  transform f (relationship_lambda rel node body) =
      f (relationship_lambda (transform f rel) (transform f node) (transform f body))
  transform f (quantified_path object low high) = f (quantified_path (transform f object) low high)
  transform f (match_clause pat optional condition hints search_of) = f (
      match_clause (transform f pat) optional (transform_opt f condition) hints
        (transform_opt f search_of))
  transform f (where_clause object) = f (where_clause (transform f object))
  transform f (with_clause items distinct condition ord skp lim grp) = f (
      with_clause (transform_list f items) distinct (transform_opt f condition)
        (transform_opt f ord) (transform_opt f skp) (transform_opt f lim) (transform_opt f grp))
  transform f (return_clause items distinct ord skp lim grp) = f (
      return_clause (transform_list f items) distinct (transform_opt f ord) (transform_opt f skp)
        (transform_opt f lim) (transform_opt f grp))
  transform f (for_clause object name) = f (for_clause (transform f object) (transform f name))
  transform f (group_by items) = f (group_by (transform_list f items))
  transform f (unwind object name) = f (unwind (transform f object) (transform f name))
  transform f (order items) = f (order (transform_list f items))
  transform f (ordered object desc nulls) = f (ordered (transform f object) desc nulls)
  transform f (skip object) = f (skip (transform f object))
  transform f (limit object) = f (limit (transform f object))
  transform f (create pat) = f (create (transform f pat))
  transform f (merge pat actions) = f (merge (transform f pat) (transform_list f actions))
  transform f (on_create actions) = f (on_create (transform_list f actions))
  transform f (on_match actions) = f (on_match (transform_list f actions))
  transform f (set_clause items) = f (set_clause (transform_list f items))
  transform f (set_item object value op) =
      f (set_item (transform f object) (transform_opt f value) op)
  transform f (delete items detach) = f (delete (transform_list f items) detach)
  transform f (remove_clause items) = f (remove_clause (transform_list f items))
  transform f (remove_labels object labels) =
      f (remove_labels (transform f object) (transform f labels))
  transform f (foreach variable object clauses) =
      f (foreach (transform f variable) (transform f object) (transform_list f clauses))
  transform f (call_subquery inner variables optional in_tx rows) = f (
      call_subquery (transform f inner) (transform_list f variables) optional in_tx
        (transform_opt f rows))
  transform f (filter_item variable predicate) =
      f (filter_item (transform f variable) (transform_opt f predicate))
  transform f (filter_clause items) = f (filter_clause (transform_list f items))
  transform f (let_clause items) = f (let_clause (transform_list f items))
  transform f (load_csv url name headers terminator) =
      f (load_csv (transform f url) (transform f name) headers (transform_opt f terminator))
  transform f (search_clause variable index vector lim score) = f (
      search_clause (transform f variable) index (transform f vector) (transform_opt f lim)
        (transform_opt f score))
  transform f (when_branch condition inner) =
      f (when_branch (transform f condition) (transform f inner))
  transform f (when_query branches default) =
      f (when_query (transform_list f branches) (transform_opt f default))
  transform f (call_procedure name args yielded condition) = f (
      call_procedure name (transform_list f args) (transform_opt f yielded)
        (transform_opt f condition))
  transform f (union left right distinct) =
      f (union (transform f left) (transform f right) distinct)
  transform f (query clauses) = f (query (transform_list f clauses))
  transform f (cypher object version) = f (cypher (transform f object) version)
  transform f (next left right) = f (next (transform f left) (transform f right))
  transform f (insert_clause pat) = f (insert_clause (transform f pat))
  transform f (create_graph_type name body) = f (create_graph_type name (transform_opt f body))
  transform f (yield items) = f (yield (transform_list f items))
  transform f leaf = f leaf

  pub transform_list : (AstNode → AstNode) → AstNodes → AstNodes
  transform_list f nil = nil
  transform_list f (cons n ns) = cons (transform f n) (transform_list f ns)

  pub transform_opt : (AstNode → AstNode) → OptNode → OptNode
  transform_opt f absent = absent
  transform_opt f (present n) = present (transform f n)

  pub transform_entries : (AstNode → AstNode) → ProjectionEntries → ProjectionEntries
  transform_entries f finish = finish
  transform_entries f (node_entry n es) = node_entry (transform f n) (transform_entries f es)
  transform_entries f (pair_entry k n es) = pair_entry k n (transform_entries f es)
  transform_entries f (name_entry x es) = name_entry x (transform_entries f es)
