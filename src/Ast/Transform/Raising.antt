-- ===== src/Ast/Transform/Raising.antt =====
-- `AstNode.transform` with a rewrite that may raise: the first error ends the traversal.
use cypherast.Prelude.Result.{Result, ok, ◌>>=◌}
use cypherast.Ast.{
  AstNode, AstNodes, OptNode, ProjectionEntries, nil, cons, absent, present, finish, node_entry,
  pair_entry, name_entry, property, label_predicate, list_literal, list_subscript, list_slice,
  range, alias, binary, not_expr, neg, is_null, function_call, case_expr, coalesce,
  list_comprehension, quantifier, list_lambda, pattern_comprehension, map_projection,
  pattern_predicate, count_subquery, node_pattern, relationship_pattern, path_pattern, pattern,
  shortest_path, relationship_lambda, quantified_path, match_clause, where_clause, with_clause,
  return_clause, for_clause, group_by, unwind, order, ordered, skip, limit, create, merge,
  on_create, on_match, set_clause, set_item, delete, remove_clause, remove_labels, foreach,
  call_subquery, filter_item, filter_clause, let_clause, load_csv, search_clause, when_branch,
  when_query, call_procedure, union, query, cypher, next, insert_clause, create_graph_type, yield,
}

unfoldable mutual
  pub transform_result : (AstNode → Result AstNode) → AstNode → Result AstNode
  transform_result f (property object name) = do
    object' ← transform_result f object
    f (property object' name)
  transform_result f (label_predicate object labels) = do
    object' ← transform_result f object
    labels' ← transform_result f labels
    f (label_predicate object' labels')
  transform_result f (list_literal items) = do
    items' ← transform_result_list f items
    f (list_literal items')
  transform_result f (list_subscript object index) = do
    object' ← transform_result f object
    index' ← transform_result f index
    f (list_subscript object' index')
  transform_result f (list_slice object start stop) = do
    object' ← transform_result f object
    start' ← transform_result_opt f start
    stop' ← transform_result_opt f stop
    f (list_slice object' start' stop')
  transform_result f (range start stop) = do
    start' ← transform_result_opt f start
    stop' ← transform_result_opt f stop
    f (range start' stop')
  transform_result f (alias object as_name) = do
    object' ← transform_result f object
    as_name' ← transform_result f as_name
    f (alias object' as_name')
  transform_result f (binary op left right) = do
    left' ← transform_result f left
    right' ← transform_result f right
    f (binary op left' right')
  transform_result f (not_expr object) = do
    object' ← transform_result f object
    f (not_expr object')
  transform_result f (neg object) = do object' ← transform_result f object; f (neg object')
  transform_result f (is_null object not_) = do
    object' ← transform_result f object
    f (is_null object' not_)
  transform_result f (function_call name args distinct) = do
    args' ← transform_result_list f args
    f (function_call name args' distinct)
  transform_result f (case_expr subject arms default) = do
    subject' ← transform_result_opt f subject
    default' ← transform_result_opt f default
    f (case_expr subject' arms default')
  transform_result f (coalesce items) = do
    items' ← transform_result_list f items
    f (coalesce items')
  transform_result f (list_comprehension variable source condition projection) = do
    variable' ← transform_result f variable
    source' ← transform_result f source
    condition' ← transform_result_opt f condition
    projection' ← transform_result_opt f projection
    f (list_comprehension variable' source' condition' projection')
  transform_result f (quantifier name variable source condition) = do
    variable' ← transform_result f variable
    source' ← transform_result f source
    condition' ← transform_result_opt f condition
    f (quantifier name variable' source' condition')
  transform_result f (list_lambda name variable source body accumulator initial) = do
    variable' ← transform_result f variable
    source' ← transform_result f source
    body' ← transform_result f body
    accumulator' ← transform_result_opt f accumulator
    initial' ← transform_result_opt f initial
    f (list_lambda name variable' source' body' accumulator' initial')
  transform_result f (pattern_comprehension variable pat condition projection) = do
    variable' ← transform_result_opt f variable
    pat' ← transform_result f pat
    condition' ← transform_result_opt f condition
    projection' ← transform_result f projection
    f (pattern_comprehension variable' pat' condition' projection')
  transform_result f (map_projection object entries) = do
    object' ← transform_result f object
    entries' ← transform_result_entries f entries
    f (map_projection object' entries')
  transform_result f (pattern_predicate pat not_) = do
    pat' ← transform_result f pat
    f (pattern_predicate pat' not_)
  transform_result f (count_subquery inner) = do
    inner' ← transform_result f inner
    f (count_subquery inner')
  transform_result f (node_pattern variable labels properties condition) = do
    variable' ← transform_result_opt f variable
    labels' ← transform_result_opt f labels
    properties' ← transform_result_opt f properties
    condition' ← transform_result_opt f condition
    f (node_pattern variable' labels' properties' condition')
  transform_result f
        (relationship_pattern variable types properties direction low high variable_length condition
          quant weight total) =
      do
        variable' ← transform_result_opt f variable
        properties' ← transform_result_opt f properties
        condition' ← transform_result_opt f condition
        weight' ← transform_result_opt f weight
        total' ← transform_result_opt f total
        f (
            relationship_pattern variable' types properties' direction low high variable_length
              condition' quant weight' total')
  transform_result f (path_pattern variable elements) = do
    variable' ← transform_result_opt f variable
    elements' ← transform_result_list f elements
    f (path_pattern variable' elements')
  transform_result f (pattern paths) = do paths' ← transform_result_list f paths; f (pattern paths')
  transform_result f (shortest_path object all_) = do
    object' ← transform_result f object
    f (shortest_path object' all_)
  transform_result f (relationship_lambda rel node body) = do
    rel' ← transform_result f rel
    node' ← transform_result f node
    body' ← transform_result f body
    f (relationship_lambda rel' node' body')
  transform_result f (quantified_path object low high) = do
    object' ← transform_result f object
    f (quantified_path object' low high)
  transform_result f (match_clause pat optional condition hints search_of) = do
    pat' ← transform_result f pat
    condition' ← transform_result_opt f condition
    search_of' ← transform_result_opt f search_of
    f (match_clause pat' optional condition' hints search_of')
  transform_result f (where_clause object) = do
    object' ← transform_result f object
    f (where_clause object')
  transform_result f (with_clause items distinct condition ord skp lim grp) = do
    items' ← transform_result_list f items
    condition' ← transform_result_opt f condition
    ord' ← transform_result_opt f ord
    skp' ← transform_result_opt f skp
    lim' ← transform_result_opt f lim
    grp' ← transform_result_opt f grp
    f (with_clause items' distinct condition' ord' skp' lim' grp')
  transform_result f (return_clause items distinct ord skp lim grp) = do
    items' ← transform_result_list f items
    ord' ← transform_result_opt f ord
    skp' ← transform_result_opt f skp
    lim' ← transform_result_opt f lim
    grp' ← transform_result_opt f grp
    f (return_clause items' distinct ord' skp' lim' grp')
  transform_result f (for_clause object name) = do
    object' ← transform_result f object
    name' ← transform_result f name
    f (for_clause object' name')
  transform_result f (group_by items) = do
    items' ← transform_result_list f items
    f (group_by items')
  transform_result f (unwind object name) = do
    object' ← transform_result f object
    name' ← transform_result f name
    f (unwind object' name')
  transform_result f (order items) = do items' ← transform_result_list f items; f (order items')
  transform_result f (ordered object desc nulls) = do
    object' ← transform_result f object
    f (ordered object' desc nulls)
  transform_result f (skip object) = do object' ← transform_result f object; f (skip object')
  transform_result f (limit object) = do object' ← transform_result f object; f (limit object')
  transform_result f (create pat) = do pat' ← transform_result f pat; f (create pat')
  transform_result f (merge pat actions) = do
    pat' ← transform_result f pat
    actions' ← transform_result_list f actions
    f (merge pat' actions')
  transform_result f (on_create actions) = do
    actions' ← transform_result_list f actions
    f (on_create actions')
  transform_result f (on_match actions) = do
    actions' ← transform_result_list f actions
    f (on_match actions')
  transform_result f (set_clause items) = do
    items' ← transform_result_list f items
    f (set_clause items')
  transform_result f (set_item object value op) = do
    object' ← transform_result f object
    value' ← transform_result_opt f value
    f (set_item object' value' op)
  transform_result f (delete items detach) = do
    items' ← transform_result_list f items
    f (delete items' detach)
  transform_result f (remove_clause items) = do
    items' ← transform_result_list f items
    f (remove_clause items')
  transform_result f (remove_labels object labels) = do
    object' ← transform_result f object
    labels' ← transform_result f labels
    f (remove_labels object' labels')
  transform_result f (foreach variable object clauses) = do
    variable' ← transform_result f variable
    object' ← transform_result f object
    clauses' ← transform_result_list f clauses
    f (foreach variable' object' clauses')
  transform_result f (call_subquery inner variables optional in_tx rows) = do
    inner' ← transform_result f inner
    variables' ← transform_result_list f variables
    rows' ← transform_result_opt f rows
    f (call_subquery inner' variables' optional in_tx rows')
  transform_result f (filter_item variable predicate) = do
    variable' ← transform_result f variable
    predicate' ← transform_result_opt f predicate
    f (filter_item variable' predicate')
  transform_result f (filter_clause items) = do
    items' ← transform_result_list f items
    f (filter_clause items')
  transform_result f (let_clause items) = do
    items' ← transform_result_list f items
    f (let_clause items')
  transform_result f (load_csv url name headers terminator) = do
    url' ← transform_result f url
    name' ← transform_result f name
    terminator' ← transform_result_opt f terminator
    f (load_csv url' name' headers terminator')
  transform_result f (search_clause variable index vector lim score) = do
    variable' ← transform_result f variable
    vector' ← transform_result f vector
    lim' ← transform_result_opt f lim
    score' ← transform_result_opt f score
    f (search_clause variable' index vector' lim' score')
  transform_result f (when_branch condition inner) = do
    condition' ← transform_result f condition
    inner' ← transform_result f inner
    f (when_branch condition' inner')
  transform_result f (when_query branches default) = do
    branches' ← transform_result_list f branches
    default' ← transform_result_opt f default
    f (when_query branches' default')
  transform_result f (call_procedure name args yielded condition) = do
    args' ← transform_result_list f args
    yielded' ← transform_result_opt f yielded
    condition' ← transform_result_opt f condition
    f (call_procedure name args' yielded' condition')
  transform_result f (union left right distinct) = do
    left' ← transform_result f left
    right' ← transform_result f right
    f (union left' right' distinct)
  transform_result f (query clauses) = do
    clauses' ← transform_result_list f clauses
    f (query clauses')
  transform_result f (cypher object version) = do
    object' ← transform_result f object
    f (cypher object' version)
  transform_result f (next left right) = do
    left' ← transform_result f left
    right' ← transform_result f right
    f (next left' right')
  transform_result f (insert_clause pat) = do pat' ← transform_result f pat; f (insert_clause pat')
  transform_result f (create_graph_type name body) = do
    body' ← transform_result_opt f body
    f (create_graph_type name body')
  transform_result f (yield items) = do items' ← transform_result_list f items; f (yield items')
  transform_result f leaf = f leaf

  pub transform_result_list : (AstNode → Result AstNode) → AstNodes → Result AstNodes
  transform_result_list f nil = ok nil
  transform_result_list f (cons n ns) = do
    n' ← transform_result f n
    ns' ← transform_result_list f ns
    ok (cons n' ns')

  pub transform_result_opt : (AstNode → Result AstNode) → OptNode → Result OptNode
  transform_result_opt f absent = ok absent
  transform_result_opt f (present n) = do n' ← transform_result f n; ok (present n')

  pub transform_result_entries :
      (AstNode → Result AstNode) → ProjectionEntries → Result ProjectionEntries
  transform_result_entries f finish = ok finish
  transform_result_entries f (node_entry n es) = do
    n' ← transform_result f n
    es' ← transform_result_entries f es
    ok (node_entry n' es')
  transform_result_entries f (pair_entry k n es) = do
    es' ← transform_result_entries f es
    ok (pair_entry k n es')
  transform_result_entries f (name_entry x es) = do
    es' ← transform_result_entries f es
    ok (name_entry x es')
