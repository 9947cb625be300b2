-- ===== src/Ast/Transform/Everywhere.antt =====
-- What a bottom-up rewrite establishes at every node of its result.
use cypherast.Prelude.{All, none_left, All-append}
use cypherast.Ast.{
  AstNode, AstNodes, OptNode, ProjectionEntries, nil, cons, absent, present, finish, node_entry,
  pair_entry, name_entry, property, label_predicate, list_literal, list_subscript, list_slice,
  range, alias, binary, not_expr, neg, is_null, function_call, case_expr, coalesce,
  list_comprehension, quantifier, list_lambda, pattern_comprehension, map_projection,
  pattern_predicate, count_subquery, node_pattern, relationship_pattern, path_pattern, pattern,
  shortest_path, relationship_lambda, quantified_path, match_clause, where_clause, with_clause,
  return_clause, for_clause, group_by, unwind, order, ordered, skip, limit, create, merge,
  on_create, on_match, set_clause, set_item, delete, remove_clause, remove_labels, foreach,
  call_subquery, filter_item, filter_clause, let_clause, load_csv, search_clause, when_branch,
  when_query, call_procedure, union, query, cypher, next, insert_clause, create_graph_type, yield,
}
use cypherast.Ast.Transform.{transform, transform_list, transform_opt, transform_entries}
use cypherast.Ast.Walk.{below, below_list, below_opt, below_entries, walk}

module _ (f : AstNode → AstNode) {P : AstNode → Type 0}
    (keeps : (n : AstNode) → All P (below n) → All P (walk (f n))) where
  mutual
    unfolding transform below

    at : (n : AstNode) → All P (walk (transform f n))
    at (property object name) = keeps (property (transform f object) name) (at object)
    at (label_predicate object labels) =
        keeps (label_predicate (transform f object) (transform f labels))
          (All-append (at object) (at labels))
    at (list_literal items) = keeps (list_literal (transform_list f items)) (at_list items)
    at (list_subscript object index) =
        keeps (list_subscript (transform f object) (transform f index))
          (All-append (at object) (at index))
    at (list_slice object start stop) =
        keeps (list_slice (transform f object) (transform_opt f start) (transform_opt f stop))
          (All-append (at object) (All-append (at_opt start) (at_opt stop)))
    at (range start stop) =
        keeps (range (transform_opt f start) (transform_opt f stop))
          (All-append (at_opt start) (at_opt stop))
    at (alias object as_name) =
        keeps (alias (transform f object) (transform f as_name))
          (All-append (at object) (at as_name))
    at (binary op left right) =
        keeps (binary op (transform f left) (transform f right)) (All-append (at left) (at right))
    at (not_expr object) = keeps (not_expr (transform f object)) (at object)
    at (neg object) = keeps (neg (transform f object)) (at object)
    at (is_null object not_) = keeps (is_null (transform f object) not_) (at object)
    at (function_call name args distinct) =
        keeps (function_call name (transform_list f args) distinct) (at_list args)
    at (case_expr subject arms default) =
        keeps (case_expr (transform_opt f subject) arms (transform_opt f default))
          (All-append (at_opt subject) (at_opt default))
    at (coalesce items) = keeps (coalesce (transform_list f items)) (at_list items)
    at (list_comprehension variable source condition projection) =
        keeps
          (list_comprehension (transform f variable) (transform f source)
            (transform_opt f condition) (transform_opt f projection))
          (All-append (at variable)
            (All-append (at source) (All-append (at_opt condition) (at_opt projection))))
    at (quantifier name variable source condition) =
        keeps
          (quantifier name (transform f variable) (transform f source) (transform_opt f condition))
          (All-append (at variable) (All-append (at source) (at_opt condition)))
    at (list_lambda name variable source body accumulator initial) =
        keeps
          (list_lambda name (transform f variable) (transform f source) (transform f body)
            (transform_opt f accumulator) (transform_opt f initial))
          (All-append (at variable) (
            All-append (at source)
              (All-append (at body) (All-append (at_opt accumulator) (at_opt initial)))))
    at (pattern_comprehension variable pat condition projection) =
        keeps
          (pattern_comprehension (transform_opt f variable) (transform f pat)
            (transform_opt f condition) (transform f projection))
          (All-append (at_opt variable)
            (All-append (at pat) (All-append (at_opt condition) (at projection))))
    at (map_projection object entries) =
        keeps (map_projection (transform f object) (transform_entries f entries))
          (All-append (at object) (at_entries entries))
    at (pattern_predicate pat not_) = keeps (pattern_predicate (transform f pat) not_) (at pat)
    at (count_subquery inner) = keeps (count_subquery (transform f inner)) (at inner)
    at (node_pattern variable labels properties condition) =
        keeps
          (node_pattern (transform_opt f variable) (transform_opt f labels)
            (transform_opt f properties) (transform_opt f condition))
          (All-append (at_opt variable)
            (All-append (at_opt labels) (All-append (at_opt properties) (at_opt condition))))
    at
          (relationship_pattern variable types properties direction low high variable_length
            condition quant weight total) =
        keeps
          (relationship_pattern (transform_opt f variable) types (transform_opt f properties)
            direction low high variable_length (transform_opt f condition) quant
            (transform_opt f weight) (transform_opt f total))
          (All-append (at_opt variable) (
            All-append (at_opt properties)
              (All-append (at_opt condition) (All-append (at_opt weight) (at_opt total)))))
    at (path_pattern variable elements) =
        keeps (path_pattern (transform_opt f variable) (transform_list f elements))
          (All-append (at_opt variable) (at_list elements))
    at (pattern paths) = keeps (pattern (transform_list f paths)) (at_list paths)
    at (shortest_path object all_) = keeps (shortest_path (transform f object) all_) (at object)
    at (relationship_lambda rel node body) =
        keeps (relationship_lambda (transform f rel) (transform f node) (transform f body))
          (All-append (at rel) (All-append (at node) (at body)))
    at (quantified_path object low high) =
        keeps (quantified_path (transform f object) low high) (at object)
    at (match_clause pat optional condition hints search_of) =
        keeps
          (match_clause (transform f pat) optional (transform_opt f condition) hints
            (transform_opt f search_of))
          (All-append (at pat) (All-append (at_opt condition) (at_opt search_of)))
    at (where_clause object) = keeps (where_clause (transform f object)) (at object)
    at (with_clause items distinct condition ord skp lim grp) =
        keeps
          (with_clause (transform_list f items) distinct (transform_opt f condition)
            (transform_opt f ord) (transform_opt f skp) (transform_opt f lim) (transform_opt f grp))
          (All-append (at_list items) (
            All-append (at_opt condition) (
              All-append (at_opt ord)
                (All-append (at_opt skp) (All-append (at_opt lim) (at_opt grp))))))
    at (return_clause items distinct ord skp lim grp) =
        keeps
          (return_clause (transform_list f items) distinct (transform_opt f ord)
            (transform_opt f skp) (transform_opt f lim) (transform_opt f grp))
          (All-append (at_list items) (
            All-append (at_opt ord)
              (All-append (at_opt skp) (All-append (at_opt lim) (at_opt grp)))))
    at (for_clause object name) =
        keeps (for_clause (transform f object) (transform f name))
          (All-append (at object) (at name))
    at (group_by items) = keeps (group_by (transform_list f items)) (at_list items)
    at (unwind object name) =
        keeps (unwind (transform f object) (transform f name)) (All-append (at object) (at name))
    at (order items) = keeps (order (transform_list f items)) (at_list items)
    at (ordered object desc nulls) = keeps (ordered (transform f object) desc nulls) (at object)
    at (skip object) = keeps (skip (transform f object)) (at object)
    at (limit object) = keeps (limit (transform f object)) (at object)
    at (create pat) = keeps (create (transform f pat)) (at pat)
    at (merge pat actions) =
        keeps (merge (transform f pat) (transform_list f actions))
          (All-append (at pat) (at_list actions))
    at (on_create actions) = keeps (on_create (transform_list f actions)) (at_list actions)
    at (on_match actions) = keeps (on_match (transform_list f actions)) (at_list actions)
    at (set_clause items) = keeps (set_clause (transform_list f items)) (at_list items)
    at (set_item object value op) =
        keeps (set_item (transform f object) (transform_opt f value) op)
          (All-append (at object) (at_opt value))
    at (delete items detach) = keeps (delete (transform_list f items) detach) (at_list items)
    at (remove_clause items) = keeps (remove_clause (transform_list f items)) (at_list items)
    at (remove_labels object labels) =
        keeps (remove_labels (transform f object) (transform f labels))
          (All-append (at object) (at labels))
    at (foreach variable object clauses) =
        keeps (foreach (transform f variable) (transform f object) (transform_list f clauses))
          (All-append (at variable) (All-append (at object) (at_list clauses)))
    at (call_subquery inner variables optional in_tx rows) =
        keeps
          (call_subquery (transform f inner) (transform_list f variables) optional in_tx
            (transform_opt f rows))
          (All-append (at inner) (All-append (at_list variables) (at_opt rows)))
    at (filter_item variable predicate) =
        keeps (filter_item (transform f variable) (transform_opt f predicate))
          (All-append (at variable) (at_opt predicate))
    at (filter_clause items) = keeps (filter_clause (transform_list f items)) (at_list items)
    at (let_clause items) = keeps (let_clause (transform_list f items)) (at_list items)
    at (load_csv url name headers terminator) =
        keeps (load_csv (transform f url) (transform f name) headers (transform_opt f terminator))
          (All-append (at url) (All-append (at name) (at_opt terminator)))
    at (search_clause variable index vector lim score) =
        keeps
          (search_clause (transform f variable) index (transform f vector) (transform_opt f lim)
            (transform_opt f score))
          (All-append (at variable)
            (All-append (at vector) (All-append (at_opt lim) (at_opt score))))
    at (when_branch condition inner) =
        keeps (when_branch (transform f condition) (transform f inner))
          (All-append (at condition) (at inner))
    at (when_query branches default) =
        keeps (when_query (transform_list f branches) (transform_opt f default))
          (All-append (at_list branches) (at_opt default))
    at (call_procedure name args yielded condition) =
        keeps
          (call_procedure name (transform_list f args) (transform_opt f yielded)
            (transform_opt f condition))
          (All-append (at_list args) (All-append (at_opt yielded) (at_opt condition)))
    at (union left right distinct) =
        keeps (union (transform f left) (transform f right) distinct)
          (All-append (at left) (at right))
    at (query clauses) = keeps (query (transform_list f clauses)) (at_list clauses)
    at (cypher object version) = keeps (cypher (transform f object) version) (at object)
    at (next left right) =
        keeps (next (transform f left) (transform f right)) (All-append (at left) (at right))
    at (insert_clause pat) = keeps (insert_clause (transform f pat)) (at pat)
    at (create_graph_type name body) =
        keeps (create_graph_type name (transform_opt f body)) (at_opt body)
    at (yield items) = keeps (yield (transform_list f items)) (at_list items)
    at leaf = keeps leaf none_left

    at_list : (ns : AstNodes) → All P (below_list (transform_list f ns))
    at_list nil = none_left
    at_list (cons n ns) = All-append (at n) (at_list ns)

    at_opt : (o : OptNode) → All P (below_opt (transform_opt f o))
    at_opt absent = none_left
    at_opt (present n) = at n

    at_entries : (es : ProjectionEntries) → All P (below_entries (transform_entries f es))
    at_entries finish = none_left
    at_entries (node_entry n es) = All-append (at n) (at_entries es)
    at_entries (pair_entry k n es) = at_entries es
    at_entries (name_entry x es) = at_entries es

-- What the rewrite establishes at one node, if it holds at every node below, holds at every node of
-- the result.
pub All-walk-transform :
    (f : AstNode → AstNode) {P : AstNode → Type 0}
    → ((n : AstNode) → All P (below n) → All P (walk (f n)))
    → (n : AstNode) → All P (walk (transform f n))
All-walk-transform f keeps n = at f keeps n
