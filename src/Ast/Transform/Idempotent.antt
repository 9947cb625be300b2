-- ===== src/Ast/Transform/Idempotent.antt =====
-- When a bottom-up rewrite changes nothing.
use cypherast.Prelude.{◌≡◌, refl, ◌++◌, List, All, also, All-of_append}
use cypherast.Ast.{
  AstNode, AstNodes, OptNode, ProjectionEntries, nil, cons, absent, present, finish, node_entry,
  pair_entry, name_entry, property, label_predicate, list_literal, list_subscript, list_slice,
  range, alias, binary, not_expr, neg, is_null, function_call, case_expr, coalesce,
  list_comprehension, quantifier, list_lambda, pattern_comprehension, map_projection,
  pattern_predicate, count_subquery, node_pattern, relationship_pattern, path_pattern, pattern,
  shortest_path, relationship_lambda, quantified_path, match_clause, where_clause, with_clause,
  return_clause, for_clause, group_by, unwind, order, ordered, skip, limit, create, merge,
  on_create, on_match, set_clause, set_item, delete, remove_clause, remove_labels, foreach,
  call_subquery, filter_item, filter_clause, let_clause, load_csv, search_clause, when_branch,
  when_query, call_procedure, union, query, cypher, next, insert_clause, create_graph_type, yield,
}
use cypherast.Ast.Transform.{transform, transform_list, transform_opt, transform_entries}
use cypherast.Ast.Transform.Everywhere.{All-walk-transform}
use cypherast.Ast.Walk.{below, below_list, below_opt, below_entries, walk}

-- The rewrite leaves a node as it is.
abbrev pub IsFixed : (AstNode → AstNode) → AstNode → Type 0
IsFixed f n = f n ≡ n

module _ (f : AstNode → AstNode) where
  abbrev Known : List AstNode → Type 0
  Known = All (IsFixed f)

  -- What is known of a list of visited nodes, by the argument whose nodes stand first in it.
  of_node : (n : AstNode) {ns : List AstNode} → Known (walk n ++ ns) → Known (walk n) × Known ns
  of_node n = All-of_append (walk n)

  of_opt :
      (o : OptNode) {ns : List AstNode} → Known (below_opt o ++ ns) → Known (below_opt o) × Known ns
  of_opt o = All-of_append (below_opt o)

  of_nodes :
      (xs : AstNodes) {ns : List AstNode}
      → Known (below_list xs ++ ns)
      → Known (below_list xs) × Known ns
  of_nodes xs = All-of_append (below_list xs)

  mutual
    unfolding transform below

    fixed : (n : AstNode) → Known (walk n) → transform f n ≡ n
    fixed (property object name) (also p h) = rw (fixed object h) p
    fixed (label_predicate object labels) (also p h) =
        rw (fixed object (of_node object h).0, fixed labels (of_node object h).1) p
    fixed (list_literal items) (also p h) = rw (fixed_list items h) p
    fixed (list_subscript object index) (also p h) =
        rw (fixed object (of_node object h).0, fixed index (of_node object h).1) p
    fixed (list_slice object start stop) (also p h) =
        rw
          (
            fixed object (of_node object h).0,
            fixed_opt start (of_opt start (of_node object h).1).0,
            fixed_opt stop (of_opt start (of_node object h).1).1,
          )
          p
    fixed (range start stop) (also p h) =
        rw (fixed_opt start (of_opt start h).0, fixed_opt stop (of_opt start h).1) p
    fixed (alias object as_name) (also p h) =
        rw (fixed object (of_node object h).0, fixed as_name (of_node object h).1) p
    fixed (binary op left right) (also p h) =
        rw (fixed left (of_node left h).0, fixed right (of_node left h).1) p
    fixed (not_expr object) (also p h) = rw (fixed object h) p
    fixed (neg object) (also p h) = rw (fixed object h) p
    fixed (is_null object not_) (also p h) = rw (fixed object h) p
    fixed (function_call name args distinct) (also p h) = rw (fixed_list args h) p
    fixed (case_expr subject arms default) (also p h) =
        rw (fixed_opt subject (of_opt subject h).0, fixed_opt default (of_opt subject h).1) p
    fixed (coalesce items) (also p h) = rw (fixed_list items h) p
    fixed (list_comprehension variable source condition projection) (also p h) =
        rw
          (
            fixed variable (of_node variable h).0,
            fixed source (of_node source (of_node variable h).1).0,
            fixed_opt condition (of_opt condition (of_node source (of_node variable h).1).1).0,
            fixed_opt projection (of_opt condition (of_node source (of_node variable h).1).1).1,
          )
          p
    fixed (quantifier name variable source condition) (also p h) =
        rw
          (
            fixed variable (of_node variable h).0,
            fixed source (of_node source (of_node variable h).1).0,
            fixed_opt condition (of_node source (of_node variable h).1).1,
          )
          p
    fixed (list_lambda name variable source body accumulator initial) (also p h) =
        rw
          (
            fixed variable (of_node variable h).0,
            fixed source (of_node source (of_node variable h).1).0,
            fixed body (of_node body (of_node source (of_node variable h).1).1).0,
            fixed_opt accumulator
                (of_opt accumulator (of_node body (of_node source (of_node variable h).1).1).1).0,
            fixed_opt initial
                (of_opt accumulator (of_node body (of_node source (of_node variable h).1).1).1).1,
          )
          p
    fixed (pattern_comprehension variable pat condition projection) (also p h) =
        rw
          (
            fixed_opt variable (of_opt variable h).0,
            fixed pat (of_node pat (of_opt variable h).1).0,
            fixed_opt condition (of_opt condition (of_node pat (of_opt variable h).1).1).0,
            fixed projection (of_opt condition (of_node pat (of_opt variable h).1).1).1,
          )
          p
    fixed (map_projection object entries) (also p h) =
        rw (fixed object (of_node object h).0, fixed_entries entries (of_node object h).1) p
    fixed (pattern_predicate pat not_) (also p h) = rw (fixed pat h) p
    fixed (count_subquery inner) (also p h) = rw (fixed inner h) p
    fixed (node_pattern variable labels properties condition) (also p h) =
        rw
          (
            fixed_opt variable (of_opt variable h).0,
            fixed_opt labels (of_opt labels (of_opt variable h).1).0,
            fixed_opt properties (of_opt properties (of_opt labels (of_opt variable h).1).1).0,
            fixed_opt condition (of_opt properties (of_opt labels (of_opt variable h).1).1).1,
          )
          p
    fixed
          (relationship_pattern variable types properties direction low high variable_length
            condition quant weight total)
          (also p h) =
        rw
          (
            fixed_opt variable (of_opt variable h).0,
            fixed_opt properties (of_opt properties (of_opt variable h).1).0,
            fixed_opt condition (of_opt condition (of_opt properties (of_opt variable h).1).1).0,
            fixed_opt weight
                (of_opt weight (of_opt condition (of_opt properties (of_opt variable h).1).1).1).0,
            fixed_opt total
                (of_opt weight (of_opt condition (of_opt properties (of_opt variable h).1).1).1).1,
          )
          p
    fixed (path_pattern variable elements) (also p h) =
        rw (fixed_opt variable (of_opt variable h).0, fixed_list elements (of_opt variable h).1) p
    fixed (pattern paths) (also p h) = rw (fixed_list paths h) p
    fixed (shortest_path object all_) (also p h) = rw (fixed object h) p
    fixed (relationship_lambda rel node body) (also p h) =
        rw
          (
            fixed rel (of_node rel h).0,
            fixed node (of_node node (of_node rel h).1).0,
            fixed body (of_node node (of_node rel h).1).1,
          )
          p
    fixed (quantified_path object low high) (also p h) = rw (fixed object h) p
    fixed (match_clause pat optional condition hints search_of) (also p h) =
        rw
          (
            fixed pat (of_node pat h).0,
            fixed_opt condition (of_opt condition (of_node pat h).1).0,
            fixed_opt search_of (of_opt condition (of_node pat h).1).1,
          )
          p
    fixed (where_clause object) (also p h) = rw (fixed object h) p
    fixed (with_clause items distinct condition ord skp lim grp) (also p h) =
        rw
          (
            fixed_list items (of_nodes items h).0,
            fixed_opt condition (of_opt condition (of_nodes items h).1).0,
            fixed_opt ord (of_opt ord (of_opt condition (of_nodes items h).1).1).0,
            fixed_opt skp (of_opt skp (of_opt ord (of_opt condition (of_nodes items h).1).1).1).0,
            fixed_opt lim
                (of_opt lim
                  (of_opt skp (of_opt ord (of_opt condition (of_nodes items h).1).1).1).1).0,
            fixed_opt grp
                (of_opt lim
                  (of_opt skp (of_opt ord (of_opt condition (of_nodes items h).1).1).1).1).1,
          )
          p
    fixed (return_clause items distinct ord skp lim grp) (also p h) =
        rw
          (
            fixed_list items (of_nodes items h).0,
            fixed_opt ord (of_opt ord (of_nodes items h).1).0,
            fixed_opt skp (of_opt skp (of_opt ord (of_nodes items h).1).1).0,
            fixed_opt lim (of_opt lim (of_opt skp (of_opt ord (of_nodes items h).1).1).1).0,
            fixed_opt grp (of_opt lim (of_opt skp (of_opt ord (of_nodes items h).1).1).1).1,
          )
          p
    fixed (for_clause object name) (also p h) =
        rw (fixed object (of_node object h).0, fixed name (of_node object h).1) p
    fixed (group_by items) (also p h) = rw (fixed_list items h) p
    fixed (unwind object name) (also p h) =
        rw (fixed object (of_node object h).0, fixed name (of_node object h).1) p
    fixed (order items) (also p h) = rw (fixed_list items h) p
    fixed (ordered object desc nulls) (also p h) = rw (fixed object h) p
    fixed (skip object) (also p h) = rw (fixed object h) p
    fixed (limit object) (also p h) = rw (fixed object h) p
    fixed (create pat) (also p h) = rw (fixed pat h) p
    fixed (merge pat actions) (also p h) =
        rw (fixed pat (of_node pat h).0, fixed_list actions (of_node pat h).1) p
    fixed (on_create actions) (also p h) = rw (fixed_list actions h) p
    fixed (on_match actions) (also p h) = rw (fixed_list actions h) p
    fixed (set_clause items) (also p h) = rw (fixed_list items h) p
    fixed (set_item object value op) (also p h) =
        rw (fixed object (of_node object h).0, fixed_opt value (of_node object h).1) p
    fixed (delete items detach) (also p h) = rw (fixed_list items h) p
    fixed (remove_clause items) (also p h) = rw (fixed_list items h) p
    fixed (remove_labels object labels) (also p h) =
        rw (fixed object (of_node object h).0, fixed labels (of_node object h).1) p
    fixed (foreach variable object clauses) (also p h) =
        rw
          (
            fixed variable (of_node variable h).0,
            fixed object (of_node object (of_node variable h).1).0,
            fixed_list clauses (of_node object (of_node variable h).1).1,
          )
          p
    fixed (call_subquery inner variables optional in_tx rows) (also p h) =
        rw
          (
            fixed inner (of_node inner h).0,
            fixed_list variables (of_nodes variables (of_node inner h).1).0,
            fixed_opt rows (of_nodes variables (of_node inner h).1).1,
          )
          p
    fixed (filter_item variable predicate) (also p h) =
        rw (fixed variable (of_node variable h).0, fixed_opt predicate (of_node variable h).1) p
    fixed (filter_clause items) (also p h) = rw (fixed_list items h) p
    fixed (let_clause items) (also p h) = rw (fixed_list items h) p
    fixed (load_csv url name headers terminator) (also p h) =
        rw
          (
            fixed url (of_node url h).0,
            fixed name (of_node name (of_node url h).1).0,
            fixed_opt terminator (of_node name (of_node url h).1).1,
          )
          p
    fixed (search_clause variable index vector lim score) (also p h) =
        rw
          (
            fixed variable (of_node variable h).0,
            fixed vector (of_node vector (of_node variable h).1).0,
            fixed_opt lim (of_opt lim (of_node vector (of_node variable h).1).1).0,
            fixed_opt score (of_opt lim (of_node vector (of_node variable h).1).1).1,
          )
          p
    fixed (when_branch condition inner) (also p h) =
        rw (fixed condition (of_node condition h).0, fixed inner (of_node condition h).1) p
    fixed (when_query branches default) (also p h) =
        rw (fixed_list branches (of_nodes branches h).0, fixed_opt default (of_nodes branches h).1)
          p
    fixed (call_procedure name args yielded condition) (also p h) =
        rw
          (
            fixed_list args (of_nodes args h).0,
            fixed_opt yielded (of_opt yielded (of_nodes args h).1).0,
            fixed_opt condition (of_opt yielded (of_nodes args h).1).1,
          )
          p
    fixed (union left right distinct) (also p h) =
        rw (fixed left (of_node left h).0, fixed right (of_node left h).1) p
    fixed (query clauses) (also p h) = rw (fixed_list clauses h) p
    fixed (cypher object version) (also p h) = rw (fixed object h) p
    fixed (next left right) (also p h) =
        rw (fixed left (of_node left h).0, fixed right (of_node left h).1) p
    fixed (insert_clause pat) (also p h) = rw (fixed pat h) p
    fixed (create_graph_type name body) (also p h) = rw (fixed_opt body h) p
    fixed (yield items) (also p h) = rw (fixed_list items h) p
    fixed _ (also p _) = p

    fixed_list : (ns : AstNodes) → Known (below_list ns) → transform_list f ns ≡ ns
    fixed_list nil h = refl
    fixed_list (cons n ns) h = rw (fixed n (of_node n h).0, fixed_list ns (of_node n h).1)

    fixed_opt : (o : OptNode) → Known (below_opt o) → transform_opt f o ≡ o
    fixed_opt absent h = refl
    fixed_opt (present n) h = rw (fixed n h)

    fixed_entries :
        (es : ProjectionEntries) → Known (below_entries es) → transform_entries f es ≡ es
    fixed_entries finish h = refl
    fixed_entries (node_entry n es) h =
        rw (fixed n (of_node n h).0, fixed_entries es (of_node n h).1)
    fixed_entries (pair_entry k n es) h = rw (fixed_entries es h)
    fixed_entries (name_entry x es) h = rw (fixed_entries es h)

-- A rewrite that leaves every node of the tree as it is leaves the tree as it is.
pub transform-unchanged :
    (f : AstNode → AstNode) (n : AstNode) → All (IsFixed f) (walk n) → transform f n ≡ n
transform-unchanged f n h = fixed f n h

-- A rewrite whose result is fixed wherever the nodes below were fixed is idempotent.
pub transform_idem :
    (f : AstNode → AstNode)
    → ((n : AstNode) → All (IsFixed f) (below n) → All (IsFixed f) (walk (f n)))
    → (n : AstNode) → transform f (transform f n) ≡ transform f n
transform_idem f keeps n = transform-unchanged f _ (All-walk-transform f keeps n)
