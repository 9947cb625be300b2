-- ===== src/Ast/Kind.antt =====
-- The class of a node, `type(node).__name__`.
use cypherast.Prelude.{String}
use cypherast.Ast.{
  AstNode, BinaryOp, add, sub, mul, div, modulo, pow, eq, neq, lt, lte, gt, gte, and, or, xor,
  is_in, starts_with, ends_with, contains, regex_match, property, label_predicate, list_literal,
  list_subscript, list_slice, range, alias, not_expr, neg, is_null, function_call, case_expr,
  coalesce, list_comprehension, quantifier, list_lambda, pattern_comprehension, map_projection,
  pattern_predicate, count_subquery, node_pattern, relationship_pattern, path_pattern, pattern,
  shortest_path, relationship_lambda, quantified_path, match_clause, where_clause, with_clause,
  return_clause, for_clause, group_by, unwind, order, ordered, skip, limit, create, merge,
  on_create, on_match, set_clause, set_item, delete, remove_clause, remove_labels, foreach,
  call_subquery, filter_item, filter_clause, let_clause, load_csv, search_clause, when_branch,
  when_query, call_procedure, union, query, cypher, next, insert_clause, create_graph_type, yield,
  null, star, boolean, integer, float, string, parameter, identifier, property_selector,
  map_literal, admin_statement, graph_type_ref, session_command, transaction_command, binding_table,
  value_table, use_graph, placeholder, label_expression, binary,
}

abbrev pub op_name : BinaryOp → String
op_name add = "Add"
op_name sub = "Sub"
op_name mul = "Mul"
op_name div = "Div"
op_name modulo = "Mod"
op_name pow = "Pow"
op_name eq = "EQ"
op_name neq = "NEQ"
op_name lt = "LT"
op_name lte = "LTE"
op_name gt = "GT"
op_name gte = "GTE"
op_name and = "And"
op_name or = "Or"
op_name xor = "Xor"
op_name is_in = "In"
op_name starts_with = "StartsWith"
op_name ends_with = "EndsWith"
op_name contains = "Contains"
op_name regex_match = "RegexMatch"

unfoldable pub class_name : AstNode → String
class_name (binary op _ _) = op_name op
class_name (property _ _) = "Property"
class_name (label_predicate _ _) = "LabelPredicate"
class_name (list_literal _) = "List"
class_name (list_subscript _ _) = "ListSubscript"
class_name (list_slice _ _ _) = "ListSlice"
class_name (range _ _) = "Range"
class_name (alias _ _) = "Alias"
class_name (not_expr _) = "Not"
class_name (neg _) = "Neg"
class_name (is_null _ _) = "IsNull"
class_name (function_call _ _ _) = "FunctionCall"
class_name (case_expr _ _ _) = "Case"
class_name (coalesce _) = "Coalesce"
class_name (list_comprehension _ _ _ _) = "ListComprehension"
class_name (quantifier _ _ _ _) = "Quantifier"
class_name (list_lambda _ _ _ _ _ _) = "ListLambda"
class_name (pattern_comprehension _ _ _ _) = "PatternComprehension"
class_name (map_projection _ _) = "MapProjection"
class_name (pattern_predicate _ _) = "PatternPredicate"
class_name (count_subquery _) = "CountSubquery"
class_name (node_pattern _ _ _ _) = "NodePattern"
class_name (relationship_pattern _ _ _ _ _ _ _ _ _ _ _) = "RelationshipPattern"
class_name (path_pattern _ _) = "PathPattern"
class_name (pattern _) = "Pattern"
class_name (shortest_path _ _) = "ShortestPath"
class_name (relationship_lambda _ _ _) = "RelationshipLambda"
class_name (quantified_path _ _ _) = "QuantifiedPath"
class_name (match_clause _ _ _ _ _) = "Match"
class_name (where_clause _) = "Where"
class_name (with_clause _ _ _ _ _ _ _) = "With"
class_name (return_clause _ _ _ _ _ _) = "Return"
class_name (for_clause _ _) = "For"
class_name (group_by _) = "GroupBy"
class_name (unwind _ _) = "Unwind"
class_name (order _) = "Order"
class_name (ordered _ _ _) = "Ordered"
class_name (skip _) = "Skip"
class_name (limit _) = "Limit"
class_name (create _) = "Create"
class_name (merge _ _) = "Merge"
class_name (on_create _) = "OnCreate"
class_name (on_match _) = "OnMatch"
class_name (set_clause _) = "Set"
class_name (set_item _ _ _) = "SetItem"
class_name (delete _ _) = "Delete"
class_name (remove_clause _) = "Remove"
class_name (remove_labels _ _) = "RemoveLabels"
class_name (foreach _ _ _) = "Foreach"
class_name (call_subquery _ _ _ _ _) = "CallSubquery"
class_name (filter_item _ _) = "FilterItem"
class_name (filter_clause _) = "Filter"
class_name (let_clause _) = "Let"
class_name (load_csv _ _ _ _) = "LoadCsv"
class_name (search_clause _ _ _ _ _) = "Search"
class_name (when_branch _ _) = "WhenBranch"
class_name (when_query _ _) = "WhenQuery"
class_name (call_procedure _ _ _ _) = "CallProcedure"
class_name (union _ _ _) = "Union"
class_name (query _) = "Query"
class_name (cypher _ _) = "Cypher"
class_name (next _ _) = "Next"
class_name (insert_clause _) = "Insert"
class_name (create_graph_type _ _) = "CreateGraphType"
class_name (yield _) = "Yield"
class_name null = "Null"
class_name star = "Star"
class_name (boolean _) = "Boolean"
class_name (integer _) = "Integer"
class_name (float _) = "Float"
class_name (string _) = "String"
class_name (parameter _) = "Parameter"
class_name (identifier _) = "Identifier"
class_name (property_selector _) = "PropertySelector"
class_name (map_literal _) = "Map"
class_name (admin_statement _) = "AdminStatement"
class_name (graph_type_ref _) = "GraphTypeRef"
class_name (session_command _) = "SessionCommand"
class_name (transaction_command _) = "TransactionCommand"
class_name (binding_table _) = "BindingTable"
class_name (value_table _) = "ValueTable"
class_name (use_graph _) = "Use"
class_name (placeholder _) = "Placeholder"
class_name (label_expression _ _) = "LabelExpression"
