-- ===== src/Ast/Transform/Agree.antt =====
-- A raising rewrite that never raises is the plain one.
use cypherast.Prelude.{◌≡◌, refl}
use cypherast.Prelude.Result.{ok}
use cypherast.Ast.{
  AstNode, AstNodes, OptNode, ProjectionEntries, nil, cons, absent, present, finish, node_entry,
  pair_entry, name_entry, property, label_predicate, list_literal, list_subscript, list_slice,
  range, alias, binary, not_expr, neg, is_null, function_call, case_expr, coalesce,
  list_comprehension, quantifier, list_lambda, pattern_comprehension, map_projection,
  pattern_predicate, count_subquery, node_pattern, relationship_pattern, path_pattern, pattern,
  shortest_path, relationship_lambda, quantified_path, match_clause, where_clause, with_clause,
  return_clause, for_clause, group_by, unwind, order, ordered, skip, limit, create, merge,
  on_create, on_match, set_clause, set_item, delete, remove_clause, remove_labels, foreach,
  call_subquery, filter_item, filter_clause, let_clause, load_csv, search_clause, when_branch,
  when_query, call_procedure, union, query, cypher, next, insert_clause, create_graph_type, yield,
}
use cypherast.Ast.Transform.{transform, transform_list, transform_opt, transform_entries}
use cypherast.Ast.Transform.Raising.{
  transform_result, transform_result_list, transform_result_opt, transform_result_entries,
}

module _ (f : AstNode → AstNode) where
  mutual
    unfolding transform transform_result

    agree : (n : AstNode) → transform_result (λ m. ok (f m)) n ≡ ok (transform f n)
    agree (property object name) = rw (agree object)
    agree (label_predicate object labels) = rw (agree object, agree labels)
    agree (list_literal items) = rw (agree_list items)
    agree (list_subscript object index) = rw (agree object, agree index)
    agree (list_slice object start stop) = rw (agree object, agree_opt start, agree_opt stop)
    agree (range start stop) = rw (agree_opt start, agree_opt stop)
    agree (alias object as_name) = rw (agree object, agree as_name)
    agree (binary op left right) = rw (agree left, agree right)
    agree (not_expr object) = rw (agree object)
    agree (neg object) = rw (agree object)
    agree (is_null object not_) = rw (agree object)
    agree (function_call name args distinct) = rw (agree_list args)
    agree (case_expr subject arms default) = rw (agree_opt subject, agree_opt default)
    agree (coalesce items) = rw (agree_list items)
    agree (list_comprehension variable source condition projection) =
        rw (agree variable, agree source, agree_opt condition, agree_opt projection)
    agree (quantifier name variable source condition) =
        rw (agree variable, agree source, agree_opt condition)
    agree (list_lambda name variable source body accumulator initial) =
        rw (agree variable, agree source, agree body, agree_opt accumulator, agree_opt initial)
    agree (pattern_comprehension variable pat condition projection) =
        rw (agree_opt variable, agree pat, agree_opt condition, agree projection)
    agree (map_projection object entries) = rw (agree object, agree_entries entries)
    agree (pattern_predicate pat not_) = rw (agree pat)
    agree (count_subquery inner) = rw (agree inner)
    agree (node_pattern variable labels properties condition) =
        rw (agree_opt variable, agree_opt labels, agree_opt properties, agree_opt condition)
    agree
          (relationship_pattern variable types properties direction low high variable_length
            condition quant weight total) =
        rw (
          agree_opt variable,
          agree_opt properties,
          agree_opt condition,
          agree_opt weight,
          agree_opt total,
        )
    agree (path_pattern variable elements) = rw (agree_opt variable, agree_list elements)
    agree (pattern paths) = rw (agree_list paths)
    agree (shortest_path object all_) = rw (agree object)
    agree (relationship_lambda rel node body) = rw (agree rel, agree node, agree body)
    agree (quantified_path object low high) = rw (agree object)
    agree (match_clause pat optional condition hints search_of) =
        rw (agree pat, agree_opt condition, agree_opt search_of)
    agree (where_clause object) = rw (agree object)
    agree (with_clause items distinct condition ord skp lim grp) = rw (
      agree_list items,
      agree_opt condition,
      agree_opt ord,
      agree_opt skp,
      agree_opt lim,
      agree_opt grp,
    )
    agree (return_clause items distinct ord skp lim grp) =
        rw (agree_list items, agree_opt ord, agree_opt skp, agree_opt lim, agree_opt grp)
    agree (for_clause object name) = rw (agree object, agree name)
    agree (group_by items) = rw (agree_list items)
    agree (unwind object name) = rw (agree object, agree name)
    agree (order items) = rw (agree_list items)
    agree (ordered object desc nulls) = rw (agree object)
    agree (skip object) = rw (agree object)
    agree (limit object) = rw (agree object)
    agree (create pat) = rw (agree pat)
    agree (merge pat actions) = rw (agree pat, agree_list actions)
    agree (on_create actions) = rw (agree_list actions)
    agree (on_match actions) = rw (agree_list actions)
    agree (set_clause items) = rw (agree_list items)
    agree (set_item object value op) = rw (agree object, agree_opt value)
    agree (delete items detach) = rw (agree_list items)
    agree (remove_clause items) = rw (agree_list items)
    agree (remove_labels object labels) = rw (agree object, agree labels)
    agree (foreach variable object clauses) = rw (agree variable, agree object, agree_list clauses)
    agree (call_subquery inner variables optional in_tx rows) =
        rw (agree inner, agree_list variables, agree_opt rows)
    agree (filter_item variable predicate) = rw (agree variable, agree_opt predicate)
    agree (filter_clause items) = rw (agree_list items)
    agree (let_clause items) = rw (agree_list items)
    agree (load_csv url name headers terminator) = rw (agree url, agree name, agree_opt terminator)
    agree (search_clause variable index vector lim score) =
        rw (agree variable, agree vector, agree_opt lim, agree_opt score)
    agree (when_branch condition inner) = rw (agree condition, agree inner)
    agree (when_query branches default) = rw (agree_list branches, agree_opt default)
    agree (call_procedure name args yielded condition) =
        rw (agree_list args, agree_opt yielded, agree_opt condition)
    agree (union left right distinct) = rw (agree left, agree right)
    agree (query clauses) = rw (agree_list clauses)
    agree (cypher object version) = rw (agree object)
    agree (next left right) = rw (agree left, agree right)
    agree (insert_clause pat) = rw (agree pat)
    agree (create_graph_type name body) = rw (agree_opt body)
    agree (yield items) = rw (agree_list items)
    agree _ = refl

    agree_list :
        (ns : AstNodes) → transform_result_list (λ m. ok (f m)) ns ≡ ok (transform_list f ns)
    agree_list nil = refl
    agree_list (cons n ns) = rw (agree n, agree_list ns)

    agree_opt : (o : OptNode) → transform_result_opt (λ m. ok (f m)) o ≡ ok (transform_opt f o)
    agree_opt absent = refl
    agree_opt (present n) = rw (agree n)

    agree_entries :
        (es : ProjectionEntries)
        → transform_result_entries (λ m. ok (f m)) es ≡ ok (transform_entries f es)
    agree_entries finish = refl
    agree_entries (node_entry n es) = rw (agree n, agree_entries es)
    agree_entries (pair_entry k n es) = rw (agree_entries es)
    agree_entries (name_entry x es) = rw (agree_entries es)

-- Where the rewrite never raises, the traversal that may raise returns what the plain one does.
pub transform_result-ok :
    (f : AstNode → AstNode) (n : AstNode) → transform_result (λ m. ok (f m)) n ≡ ok (transform f n)
transform_result-ok f n = agree f n
