-- ===== src/Ast/Transform/Settled.antt =====
-- What a rewrite that may raise establishes at every node of its result.
use cypherast.Prelude.{◌≡◌, All, none_left, All-append, subst}
use cypherast.Prelude.Result.{Result, ok, bound-ok, ok-injective}
use cypherast.Ast.{
  AstNode, AstNodes, OptNode, ProjectionEntries, nil, cons, absent, present, finish, node_entry,
  pair_entry, name_entry, property, label_predicate, list_literal, list_subscript, list_slice,
  range, alias, binary, not_expr, neg, is_null, function_call, case_expr, coalesce,
  list_comprehension, quantifier, list_lambda, pattern_comprehension, map_projection,
  pattern_predicate, count_subquery, node_pattern, relationship_pattern, path_pattern, pattern,
  shortest_path, relationship_lambda, quantified_path, match_clause, where_clause, with_clause,
  return_clause, for_clause, group_by, unwind, order, ordered, skip, limit, create, merge,
  on_create, on_match, set_clause, set_item, delete, remove_clause, remove_labels, foreach,
  call_subquery, filter_item, filter_clause, let_clause, load_csv, search_clause, when_branch,
  when_query, call_procedure, union, query, cypher, next, insert_clause, create_graph_type, yield,
}
use cypherast.Ast.Transform.Raising.{
  transform_result, transform_result_list, transform_result_opt, transform_result_entries,
}
use cypherast.Ast.Walk.{below, below_list, below_opt, below_entries, walk}

module _ (f : AstNode → Result AstNode) {P : AstNode → Type 0}
    (keeps : (n m : AstNode) → All P (below n) → f n ≡ ok m → All P (walk m)) where
  mutual
    unfolding transform_result below

    at : (n m : AstNode) → transform_result f n ≡ ok m → All P (walk m)
    at (property object name) m h =
        let (n0, e0, h1) = bound-ok (transform_result f object) _ h in
        keeps _ m (at object n0 e0) h1
    at (label_predicate object labels) m h =
        let (n0, e0, h1) = bound-ok (transform_result f object) _ h in
        let (n1, e1, h2) = bound-ok (transform_result f labels) _ h1 in
        keeps _ m (All-append (at object n0 e0) (at labels n1 e1)) h2
    at (list_literal items) m h =
        let (n0, e0, h1) = bound-ok (transform_result_list f items) _ h in
        keeps _ m (at_list items n0 e0) h1
    at (list_subscript object index) m h =
        let (n0, e0, h1) = bound-ok (transform_result f object) _ h in
        let (n1, e1, h2) = bound-ok (transform_result f index) _ h1 in
        keeps _ m (All-append (at object n0 e0) (at index n1 e1)) h2
    at (list_slice object start stop) m h =
        let (n0, e0, h1) = bound-ok (transform_result f object) _ h in
        let (n1, e1, h2) = bound-ok (transform_result_opt f start) _ h1 in
        let (n2, e2, h3) = bound-ok (transform_result_opt f stop) _ h2 in
        keeps _ m
          (All-append (at object n0 e0) (All-append (at_opt start n1 e1) (at_opt stop n2 e2))) h3
    at (range start stop) m h =
        let (n0, e0, h1) = bound-ok (transform_result_opt f start) _ h in
        let (n1, e1, h2) = bound-ok (transform_result_opt f stop) _ h1 in
        keeps _ m (All-append (at_opt start n0 e0) (at_opt stop n1 e1)) h2
    at (alias object as_name) m h =
        let (n0, e0, h1) = bound-ok (transform_result f object) _ h in
        let (n1, e1, h2) = bound-ok (transform_result f as_name) _ h1 in
        keeps _ m (All-append (at object n0 e0) (at as_name n1 e1)) h2
    at (binary op left right) m h =
        let (n0, e0, h1) = bound-ok (transform_result f left) _ h in
        let (n1, e1, h2) = bound-ok (transform_result f right) _ h1 in
        keeps _ m (All-append (at left n0 e0) (at right n1 e1)) h2
    at (not_expr object) m h =
        let (n0, e0, h1) = bound-ok (transform_result f object) _ h in
        keeps _ m (at object n0 e0) h1
    at (neg object) m h =
        let (n0, e0, h1) = bound-ok (transform_result f object) _ h in
        keeps _ m (at object n0 e0) h1
    at (is_null object not_) m h =
        let (n0, e0, h1) = bound-ok (transform_result f object) _ h in
        keeps _ m (at object n0 e0) h1
    at (function_call name args distinct) m h =
        let (n0, e0, h1) = bound-ok (transform_result_list f args) _ h in
        keeps _ m (at_list args n0 e0) h1
    at (case_expr subject arms default) m h =
        let (n0, e0, h1) = bound-ok (transform_result_opt f subject) _ h in
        let (n1, e1, h2) = bound-ok (transform_result_opt f default) _ h1 in
        keeps _ m (All-append (at_opt subject n0 e0) (at_opt default n1 e1)) h2
    at (coalesce items) m h =
        let (n0, e0, h1) = bound-ok (transform_result_list f items) _ h in
        keeps _ m (at_list items n0 e0) h1
    at (list_comprehension variable source condition projection) m h =
        let (n0, e0, h1) = bound-ok (transform_result f variable) _ h in
        let (n1, e1, h2) = bound-ok (transform_result f source) _ h1 in
        let (n2, e2, h3) = bound-ok (transform_result_opt f condition) _ h2 in
        let (n3, e3, h4) = bound-ok (transform_result_opt f projection) _ h3 in
        keeps _ m
          (All-append (at variable n0 e0) (
            All-append (at source n1 e1)
              (All-append (at_opt condition n2 e2) (at_opt projection n3 e3))))
          h4
    at (quantifier name variable source condition) m h =
        let (n0, e0, h1) = bound-ok (transform_result f variable) _ h in
        let (n1, e1, h2) = bound-ok (transform_result f source) _ h1 in
        let (n2, e2, h3) = bound-ok (transform_result_opt f condition) _ h2 in
        keeps _ m
          (All-append (at variable n0 e0) (All-append (at source n1 e1) (at_opt condition n2 e2)))
          h3
    at (list_lambda name variable source body accumulator initial) m h =
        let (n0, e0, h1) = bound-ok (transform_result f variable) _ h in
        let (n1, e1, h2) = bound-ok (transform_result f source) _ h1 in
        let (n2, e2, h3) = bound-ok (transform_result f body) _ h2 in
        let (n3, e3, h4) = bound-ok (transform_result_opt f accumulator) _ h3 in
        let (n4, e4, h5) = bound-ok (transform_result_opt f initial) _ h4 in
        keeps _ m
          (All-append (at variable n0 e0) (
            All-append (at source n1 e1) (
              All-append (at body n2 e2)
                (All-append (at_opt accumulator n3 e3) (at_opt initial n4 e4)))))
          h5
    at (pattern_comprehension variable pat condition projection) m h =
        let (n0, e0, h1) = bound-ok (transform_result_opt f variable) _ h in
        let (n1, e1, h2) = bound-ok (transform_result f pat) _ h1 in
        let (n2, e2, h3) = bound-ok (transform_result_opt f condition) _ h2 in
        let (n3, e3, h4) = bound-ok (transform_result f projection) _ h3 in
        keeps _ m
          (All-append (at_opt variable n0 e0)
            (All-append (at pat n1 e1) (All-append (at_opt condition n2 e2) (at projection n3 e3))))
          h4
    at (map_projection object entries) m h =
        let (n0, e0, h1) = bound-ok (transform_result f object) _ h in
        let (n1, e1, h2) = bound-ok (transform_result_entries f entries) _ h1 in
        keeps _ m (All-append (at object n0 e0) (at_entries entries n1 e1)) h2
    at (pattern_predicate pat not_) m h =
        let (n0, e0, h1) = bound-ok (transform_result f pat) _ h in keeps _ m (at pat n0 e0) h1
    at (count_subquery inner) m h =
        let (n0, e0, h1) = bound-ok (transform_result f inner) _ h in keeps _ m (at inner n0 e0) h1
    at (node_pattern variable labels properties condition) m h =
        let (n0, e0, h1) = bound-ok (transform_result_opt f variable) _ h in
        let (n1, e1, h2) = bound-ok (transform_result_opt f labels) _ h1 in
        let (n2, e2, h3) = bound-ok (transform_result_opt f properties) _ h2 in
        let (n3, e3, h4) = bound-ok (transform_result_opt f condition) _ h3 in
        keeps _ m
          (All-append (at_opt variable n0 e0) (
            All-append (at_opt labels n1 e1)
              (All-append (at_opt properties n2 e2) (at_opt condition n3 e3))))
          h4
    at
          (relationship_pattern variable types properties direction low high variable_length
            condition quant weight total)
          m h =
        let (n0, e0, h1) = bound-ok (transform_result_opt f variable) _ h in
        let (n1, e1, h2) = bound-ok (transform_result_opt f properties) _ h1 in
        let (n2, e2, h3) = bound-ok (transform_result_opt f condition) _ h2 in
        let (n3, e3, h4) = bound-ok (transform_result_opt f weight) _ h3 in
        let (n4, e4, h5) = bound-ok (transform_result_opt f total) _ h4 in
        keeps _ m
          (All-append (at_opt variable n0 e0) (
            All-append (at_opt properties n1 e1) (
              All-append (at_opt condition n2 e2)
                (All-append (at_opt weight n3 e3) (at_opt total n4 e4)))))
          h5
    at (path_pattern variable elements) m h =
        let (n0, e0, h1) = bound-ok (transform_result_opt f variable) _ h in
        let (n1, e1, h2) = bound-ok (transform_result_list f elements) _ h1 in
        keeps _ m (All-append (at_opt variable n0 e0) (at_list elements n1 e1)) h2
    at (pattern paths) m h =
        let (n0, e0, h1) = bound-ok (transform_result_list f paths) _ h in
        keeps _ m (at_list paths n0 e0) h1
    at (shortest_path object all_) m h =
        let (n0, e0, h1) = bound-ok (transform_result f object) _ h in
        keeps _ m (at object n0 e0) h1
    at (relationship_lambda rel node body) m h =
        let (n0, e0, h1) = bound-ok (transform_result f rel) _ h in
        let (n1, e1, h2) = bound-ok (transform_result f node) _ h1 in
        let (n2, e2, h3) = bound-ok (transform_result f body) _ h2 in
        keeps _ m (All-append (at rel n0 e0) (All-append (at node n1 e1) (at body n2 e2))) h3
    at (quantified_path object low high) m h =
        let (n0, e0, h1) = bound-ok (transform_result f object) _ h in
        keeps _ m (at object n0 e0) h1
    at (match_clause pat optional condition hints search_of) m h =
        let (n0, e0, h1) = bound-ok (transform_result f pat) _ h in
        let (n1, e1, h2) = bound-ok (transform_result_opt f condition) _ h1 in
        let (n2, e2, h3) = bound-ok (transform_result_opt f search_of) _ h2 in
        keeps _ m
          (All-append (at pat n0 e0) (All-append (at_opt condition n1 e1) (at_opt search_of n2 e2)))
          h3
    at (where_clause object) m h =
        let (n0, e0, h1) = bound-ok (transform_result f object) _ h in
        keeps _ m (at object n0 e0) h1
    at (with_clause items distinct condition ord skp lim grp) m h =
        let (n0, e0, h1) = bound-ok (transform_result_list f items) _ h in
        let (n1, e1, h2) = bound-ok (transform_result_opt f condition) _ h1 in
        let (n2, e2, h3) = bound-ok (transform_result_opt f ord) _ h2 in
        let (n3, e3, h4) = bound-ok (transform_result_opt f skp) _ h3 in
        let (n4, e4, h5) = bound-ok (transform_result_opt f lim) _ h4 in
        let (n5, e5, h6) = bound-ok (transform_result_opt f grp) _ h5 in
        keeps _ m
          (All-append (at_list items n0 e0) (
            All-append (at_opt condition n1 e1) (
              All-append (at_opt ord n2 e2) (
                All-append (at_opt skp n3 e3) (All-append (at_opt lim n4 e4) (at_opt grp n5 e5))))))
          h6
    at (return_clause items distinct ord skp lim grp) m h =
        let (n0, e0, h1) = bound-ok (transform_result_list f items) _ h in
        let (n1, e1, h2) = bound-ok (transform_result_opt f ord) _ h1 in
        let (n2, e2, h3) = bound-ok (transform_result_opt f skp) _ h2 in
        let (n3, e3, h4) = bound-ok (transform_result_opt f lim) _ h3 in
        let (n4, e4, h5) = bound-ok (transform_result_opt f grp) _ h4 in
        keeps _ m
          (All-append (at_list items n0 e0) (
            All-append (at_opt ord n1 e1)
              (All-append (at_opt skp n2 e2) (All-append (at_opt lim n3 e3) (at_opt grp n4 e4)))))
          h5
    at (for_clause object name) m h =
        let (n0, e0, h1) = bound-ok (transform_result f object) _ h in
        let (n1, e1, h2) = bound-ok (transform_result f name) _ h1 in
        keeps _ m (All-append (at object n0 e0) (at name n1 e1)) h2
    at (group_by items) m h =
        let (n0, e0, h1) = bound-ok (transform_result_list f items) _ h in
        keeps _ m (at_list items n0 e0) h1
    at (unwind object name) m h =
        let (n0, e0, h1) = bound-ok (transform_result f object) _ h in
        let (n1, e1, h2) = bound-ok (transform_result f name) _ h1 in
        keeps _ m (All-append (at object n0 e0) (at name n1 e1)) h2
    at (order items) m h =
        let (n0, e0, h1) = bound-ok (transform_result_list f items) _ h in
        keeps _ m (at_list items n0 e0) h1
    at (ordered object desc nulls) m h =
        let (n0, e0, h1) = bound-ok (transform_result f object) _ h in
        keeps _ m (at object n0 e0) h1
    at (skip object) m h =
        let (n0, e0, h1) = bound-ok (transform_result f object) _ h in
        keeps _ m (at object n0 e0) h1
    at (limit object) m h =
        let (n0, e0, h1) = bound-ok (transform_result f object) _ h in
        keeps _ m (at object n0 e0) h1
    at (create pat) m h =
        let (n0, e0, h1) = bound-ok (transform_result f pat) _ h in keeps _ m (at pat n0 e0) h1
    at (merge pat actions) m h =
        let (n0, e0, h1) = bound-ok (transform_result f pat) _ h in
        let (n1, e1, h2) = bound-ok (transform_result_list f actions) _ h1 in
        keeps _ m (All-append (at pat n0 e0) (at_list actions n1 e1)) h2
    at (on_create actions) m h =
        let (n0, e0, h1) = bound-ok (transform_result_list f actions) _ h in
        keeps _ m (at_list actions n0 e0) h1
    at (on_match actions) m h =
        let (n0, e0, h1) = bound-ok (transform_result_list f actions) _ h in
        keeps _ m (at_list actions n0 e0) h1
    at (set_clause items) m h =
        let (n0, e0, h1) = bound-ok (transform_result_list f items) _ h in
        keeps _ m (at_list items n0 e0) h1
    at (set_item object value op) m h =
        let (n0, e0, h1) = bound-ok (transform_result f object) _ h in
        let (n1, e1, h2) = bound-ok (transform_result_opt f value) _ h1 in
        keeps _ m (All-append (at object n0 e0) (at_opt value n1 e1)) h2
    at (delete items detach) m h =
        let (n0, e0, h1) = bound-ok (transform_result_list f items) _ h in
        keeps _ m (at_list items n0 e0) h1
    at (remove_clause items) m h =
        let (n0, e0, h1) = bound-ok (transform_result_list f items) _ h in
        keeps _ m (at_list items n0 e0) h1
    at (remove_labels object labels) m h =
        let (n0, e0, h1) = bound-ok (transform_result f object) _ h in
        let (n1, e1, h2) = bound-ok (transform_result f labels) _ h1 in
        keeps _ m (All-append (at object n0 e0) (at labels n1 e1)) h2
    at (foreach variable object clauses) m h =
        let (n0, e0, h1) = bound-ok (transform_result f variable) _ h in
        let (n1, e1, h2) = bound-ok (transform_result f object) _ h1 in
        let (n2, e2, h3) = bound-ok (transform_result_list f clauses) _ h2 in
        keeps _ m
          (All-append (at variable n0 e0) (All-append (at object n1 e1) (at_list clauses n2 e2))) h3
    at (call_subquery inner variables optional in_tx rows) m h =
        let (n0, e0, h1) = bound-ok (transform_result f inner) _ h in
        let (n1, e1, h2) = bound-ok (transform_result_list f variables) _ h1 in
        let (n2, e2, h3) = bound-ok (transform_result_opt f rows) _ h2 in
        keeps _ m
          (All-append (at inner n0 e0) (All-append (at_list variables n1 e1) (at_opt rows n2 e2)))
          h3
    at (filter_item variable predicate) m h =
        let (n0, e0, h1) = bound-ok (transform_result f variable) _ h in
        let (n1, e1, h2) = bound-ok (transform_result_opt f predicate) _ h1 in
        keeps _ m (All-append (at variable n0 e0) (at_opt predicate n1 e1)) h2
    at (filter_clause items) m h =
        let (n0, e0, h1) = bound-ok (transform_result_list f items) _ h in
        keeps _ m (at_list items n0 e0) h1
    at (let_clause items) m h =
        let (n0, e0, h1) = bound-ok (transform_result_list f items) _ h in
        keeps _ m (at_list items n0 e0) h1
    at (load_csv url name headers terminator) m h =
        let (n0, e0, h1) = bound-ok (transform_result f url) _ h in
        let (n1, e1, h2) = bound-ok (transform_result f name) _ h1 in
        let (n2, e2, h3) = bound-ok (transform_result_opt f terminator) _ h2 in
        keeps _ m (All-append (at url n0 e0) (All-append (at name n1 e1) (at_opt terminator n2 e2)))
          h3
    at (search_clause variable index vector lim score) m h =
        let (n0, e0, h1) = bound-ok (transform_result f variable) _ h in
        let (n1, e1, h2) = bound-ok (transform_result f vector) _ h1 in
        let (n2, e2, h3) = bound-ok (transform_result_opt f lim) _ h2 in
        let (n3, e3, h4) = bound-ok (transform_result_opt f score) _ h3 in
        keeps _ m
          (All-append (at variable n0 e0)
            (All-append (at vector n1 e1) (All-append (at_opt lim n2 e2) (at_opt score n3 e3))))
          h4
    at (when_branch condition inner) m h =
        let (n0, e0, h1) = bound-ok (transform_result f condition) _ h in
        let (n1, e1, h2) = bound-ok (transform_result f inner) _ h1 in
        keeps _ m (All-append (at condition n0 e0) (at inner n1 e1)) h2
    at (when_query branches default) m h =
        let (n0, e0, h1) = bound-ok (transform_result_list f branches) _ h in
        let (n1, e1, h2) = bound-ok (transform_result_opt f default) _ h1 in
        keeps _ m (All-append (at_list branches n0 e0) (at_opt default n1 e1)) h2
    at (call_procedure name args yielded condition) m h =
        let (n0, e0, h1) = bound-ok (transform_result_list f args) _ h in
        let (n1, e1, h2) = bound-ok (transform_result_opt f yielded) _ h1 in
        let (n2, e2, h3) = bound-ok (transform_result_opt f condition) _ h2 in
        keeps _ m
          (All-append (at_list args n0 e0)
            (All-append (at_opt yielded n1 e1) (at_opt condition n2 e2)))
          h3
    at (union left right distinct) m h =
        let (n0, e0, h1) = bound-ok (transform_result f left) _ h in
        let (n1, e1, h2) = bound-ok (transform_result f right) _ h1 in
        keeps _ m (All-append (at left n0 e0) (at right n1 e1)) h2
    at (query clauses) m h =
        let (n0, e0, h1) = bound-ok (transform_result_list f clauses) _ h in
        keeps _ m (at_list clauses n0 e0) h1
    at (cypher object version) m h =
        let (n0, e0, h1) = bound-ok (transform_result f object) _ h in
        keeps _ m (at object n0 e0) h1
    at (next left right) m h =
        let (n0, e0, h1) = bound-ok (transform_result f left) _ h in
        let (n1, e1, h2) = bound-ok (transform_result f right) _ h1 in
        keeps _ m (All-append (at left n0 e0) (at right n1 e1)) h2
    at (insert_clause pat) m h =
        let (n0, e0, h1) = bound-ok (transform_result f pat) _ h in keeps _ m (at pat n0 e0) h1
    at (create_graph_type name body) m h =
        let (n0, e0, h1) = bound-ok (transform_result_opt f body) _ h in
        keeps _ m (at_opt body n0 e0) h1
    at (yield items) m h =
        let (n0, e0, h1) = bound-ok (transform_result_list f items) _ h in
        keeps _ m (at_list items n0 e0) h1
    at leaf m h = keeps leaf m none_left h

    at_list : (ns ms : AstNodes) → transform_result_list f ns ≡ ok ms → All P (below_list ms)
    at_list nil ms h = subst (λ l. All P (below_list l)) (ok-injective h) none_left
    at_list (cons n ns) ms h =
        let (m, e, h1) = bound-ok (transform_result f n) _ h in
        let (rest, d, h2) = bound-ok (transform_result_list f ns) _ h1 in
        subst (λ l. All P (below_list l)) (ok-injective h2)
          (All-append (at n m e) (at_list ns rest d))

    at_opt : (o r : OptNode) → transform_result_opt f o ≡ ok r → All P (below_opt r)
    at_opt absent r h = subst (λ l. All P (below_opt l)) (ok-injective h) none_left
    at_opt (present n) r h =
        let (m, e, h1) = bound-ok (transform_result f n) _ h in
        subst (λ l. All P (below_opt l)) (ok-injective h1) (at n m e)

    at_entries :
        (es ds : ProjectionEntries)
        → transform_result_entries f es ≡ ok ds
        → All P (below_entries ds)
    at_entries finish ds h = subst (λ l. All P (below_entries l)) (ok-injective h) none_left
    at_entries (node_entry n es) ds h =
        let (m, e, h1) = bound-ok (transform_result f n) _ h in
        let (rest, d, h2) = bound-ok (transform_result_entries f es) _ h1 in
        subst (λ l. All P (below_entries l)) (ok-injective h2)
          (All-append (at n m e) (at_entries es rest d))
    at_entries (pair_entry k n es) ds h =
        let (rest, d, h1) = bound-ok (transform_result_entries f es) _ h in
        subst (λ l. All P (below_entries l)) (ok-injective h1) (at_entries es rest d)
    at_entries (name_entry x es) ds h =
        let (rest, d, h1) = bound-ok (transform_result_entries f es) _ h in
        subst (λ l. All P (below_entries l)) (ok-injective h1) (at_entries es rest d)

-- What the rewrite establishes at one node, if it holds at every node below, holds at every node of
-- a result.
pub All-walk-transform_result :
    (f : AstNode → Result AstNode) {P : AstNode → Type 0}
    → ((n m : AstNode) → All P (below n) → f n ≡ ok m → All P (walk m))
    → (n m : AstNode) → transform_result f n ≡ ok m
    → All P (walk m)
All-walk-transform_result f keeps n m h = at f keeps n m h
