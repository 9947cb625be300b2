-- ===== src/Planner/Plan.antt =====
-- cypherast/planner/plan.py: the plan of a query. `render` is the text of an expression
-- (`AstNode.cypher`).
use Prim.Native.String.{◌++◌}
use cypherast.Prelude.{
  String, refl, ◌≡◌, Bool, true, false, ◌||◌, List, [], ◌∷◌, Option, none, some, if◌then◌else◌, inl,
  inr, ◌⊎◌, Bool-cases,
}
use cypherast.Prelude.Text.{lower_member}
use package.text.Mathlib.Text.{◌==◌}
use package.text.Mathlib.TextEquality.{eq_iff}
use cypherast.Ast.{
  ◌+++◌, AstNode, AstNodes, OptNode, Entries, nil, cons, absent, present, end, entry, identifier,
  star, alias, property, function_call, map_literal, label_expression, node_pattern,
  relationship_pattern, path_pattern, pattern, match_clause, where_clause, with_clause,
  return_clause, unwind, create, merge, set_clause, delete, query, cypher,
}
use cypherast.Ast.Kind.{class_name}
use cypherast.Planner.PhysicalOps.{
  PhysicalOp, PhysicalOps, operator, only, name_of, join, once, produce, scan_all,
  scan_all_by_label, scan_all_by_label_properties, filter_op, expand, expand_variable, aggregate,
  order_by, skip_op, limit_op, empty_result,
}
pub mod Root

-- The text that the renderer gives an expression: a parameter of the model.
pub record Texts : Type 0 where
  pub render : AstNode → String

-- isinstance(x, Identifier) and its name
abbrev pub identifier_name : OptNode → Option String
identifier_name (present (identifier x)) = some x
identifier_name _ = none

abbrev pub label_names : OptNode → List String
label_names (present (label_expression labels _)) = labels
label_names _ = []

abbrev keys_of : Entries → List String
keys_of end = []
keys_of (entry k v es) = k ∷ keys_of es

abbrev pub property_keys : OptNode → List String
property_keys (present (map_literal es)) = keys_of es
property_keys _ = []

abbrev pub elements_of : AstNode → AstNodes
elements_of (path_pattern _ es) = es
elements_of _ = nil

abbrev pub paths_of : AstNode → AstNodes
paths_of (pattern ps) = ps
paths_of _ = nil

abbrev named : Option String → String
named none = "anon"
named (some x) = x

-- The scan that a node pattern starts, fed by `child`.
unfoldable pub scan_of : Option String → List String → List String → PhysicalOp → PhysicalOp
unfolding scan_all scan_all_by_label scan_all_by_label_properties
scan_of var [] props child = scan_all (named var) (only child)
scan_of var (label ∷ _) [] child = scan_all_by_label (named var) label (only child)
scan_of var (label ∷ _) (p ∷ ps) child =
    scan_all_by_label_properties (named var) label (p ∷ ps) (only child)

-- The first node pattern of a path, and of the paths.
abbrev first_node : AstNodes → Option AstNode
first_node nil = none
first_node (cons (node_pattern v l p w) es) = some (node_pattern v l p w)
first_node (cons _ es) = first_node es

abbrev or_else {ℓ} : {A : Type ℓ} → Option A → Option A → Option A
or_else (some a) _ = some a
or_else none o = o

abbrev pub first_of_paths : AstNodes → Option AstNode
first_of_paths nil = none
first_of_paths (cons p ps) = or_else (first_node (elements_of p)) (first_of_paths ps)

abbrev pub start_scan : Option AstNode → PhysicalOp → PhysicalOp
start_scan (some (node_pattern v l p w)) child =
    scan_of (identifier_name v) (label_names l) (property_keys p) child
start_scan _ child = child

abbrev pub type_detail : List String → String
type_detail [] = ""
type_detail (t ∷ ts) = ":" ++ join "|" (t ∷ ts)

-- An expansion along one element, if it is a relationship; `detail` is the text of its types.
abbrev pub expand_along : (List String → String) → AstNode → PhysicalOp → PhysicalOp
expand_along detail (relationship_pattern _ types _ _ _ _ variable_length _ _ _ _) chain =
    if variable_length
    then expand_variable (detail types) (only chain)
    else expand (detail types) (only chain)
expand_along detail _ chain = chain

-- Every second element of a path, from the second on.
abbrev pub expand_path : (List String → String) → AstNodes → PhysicalOp → PhysicalOp
expand_path detail nil chain = chain
expand_path detail (cons first nil) chain = chain
expand_path detail (cons first (cons rel rest)) chain =
    expand_path detail rest (expand_along detail rel chain)

abbrev pub expand_paths : (List String → String) → AstNodes → PhysicalOp → PhysicalOp
expand_paths detail nil chain = chain
expand_paths detail (cons p ps) chain =
    expand_paths detail ps (expand_path detail (elements_of p) chain)

module _ (texts : Texts) where
  open texts use {render}

  abbrev pub filtered : OptNode → PhysicalOp → PhysicalOp
  filtered (present (where_clause pred)) chain = filter_op (render pred) (only chain)
  filtered _ chain = chain

  -- `_plan_match`
  unfoldable pub plan_match : AstNode → OptNode → PhysicalOp → PhysicalOp
  unfolding scan_of expand expand_variable filter_op
  plan_match pat condition child =
      filtered condition
        (expand_paths type_detail (paths_of pat) (start_scan (first_of_paths (paths_of pat)) child))

  abbrev pub given : OptNode → Bool
  given absent = false
  given (present _) = true

  -- `_plan_projection`
  unfoldable pub plan_projection : (condition order_of : OptNode) → PhysicalOp → PhysicalOp
  unfolding filter_op order_by
  plan_projection condition order_of child =
      let chain = if given condition then filter_op "" (only child) else child in
      if given order_of then order_by (only chain) else chain

  -- `_sym`
  unfoldable pub symbol : AstNode → String
  unfolding class_name
  symbol (alias e (identifier x)) = x
  symbol (identifier x) = x
  symbol (property e name) = name
  symbol star = "*"
  symbol n = class_name n

  abbrev symbols : AstNodes → List String
  symbols nil = []
  symbols (cons e es) = symbol e ∷ symbols es

  -- `_is_agg`
  unfoldable pub is_agg : AstNode → Bool
  unfolding lower_member
  is_agg (function_call name args distinct) =
      lower_member name ("count" ∷ "sum" ∷ "avg" ∷ "min" ∷ "max" ∷ "collect" ∷ [])
  is_agg (alias (function_call name args distinct) _) =
      lower_member name ("count" ∷ "sum" ∷ "avg" ∷ "min" ∷ "max" ∷ "collect" ∷ [])
  is_agg _ = false

  abbrev any_agg : AstNodes → Bool
  any_agg nil = false
  any_agg (cons e es) = is_agg e || any_agg es

  abbrev pub wrap : Bool → (PhysicalOps → PhysicalOp) → PhysicalOp → PhysicalOp
  wrap true op chain = op (only chain)
  wrap false op chain = chain

  abbrev alias_detail : AstNode → String
  alias_detail (identifier x) = x
  alias_detail _ = ""

  -- One clause of the query on top of the chain of operators.
  unfoldable pub plan_clause : AstNode → PhysicalOp → PhysicalOp
  unfolding plan_match plan_projection symbol is_agg aggregate order_by skip_op limit_op produce
      class_name
  plan_clause (match_clause pat optional condition hints search_of) chain =
      plan_match pat condition chain
  plan_clause (with_clause es distinct condition order_of skip_of limit_of group_by_of) chain =
      plan_projection condition order_of chain
  plan_clause (unwind e x) chain = operator "Unwind" (alias_detail x) (only chain) 0
  plan_clause (create p) chain = operator "CreateNode" "" (only chain) 0
  plan_clause (merge p actions) chain = operator "Merge" "" (only chain) 0
  plan_clause (set_clause items) chain = operator "SetProperty" "" (only chain) 0
  plan_clause (delete es detach) chain = operator "Delete" "" (only chain) 0
  plan_clause (return_clause es distinct order_of skip_of limit_of group_by_of) chain =
      produce (symbols es) (
        only (
          wrap (given limit_of) limit_op (
            wrap (given skip_of) skip_op (
              wrap (given order_of) order_by (
                wrap distinct (λ ops. operator "Distinct" "" ops 0)
                  (wrap (any_agg es) aggregate chain))))))
  plan_clause clause chain = operator (class_name clause) "" (only chain) 0

  abbrev pub plan_clauses : AstNodes → PhysicalOp → PhysicalOp
  plan_clauses nil chain = chain
  plan_clauses (cons c cs) chain = plan_clauses cs (plan_clause c chain)

  -- `_plan_query`: a query that does not end in RETURN produces nothing
  unfoldable pub plan_query : AstNodes → PhysicalOp
  unfolding plan_clause empty_result once
  plan_query clauses =
      let chain = plan_clauses clauses once in
      if name_of chain == "Produce" then chain else empty_result (only chain)

  -- `build_naive_plan`, before its cost is estimated
  unfoldable pub naive_plan : AstNode → PhysicalOp
  unfolding plan_query once
  naive_plan (cypher (query clauses) version) = plan_query clauses
  naive_plan (query clauses) = plan_query clauses
  naive_plan _ = once

  plan_clauses-append :
      (cs : AstNodes) (c : AstNode) (chain : PhysicalOp)
      → plan_clauses (cs +++ cons c nil) chain ≡ plan_clause c (plan_clauses cs chain)
  plan_clauses-append nil c chain = refl
  plan_clauses-append (cons d ds) c chain = plan_clauses-append ds c (plan_clause d chain)

  -- A query that ends in RETURN, whatever clauses stand before it, has a plan that ends in
  -- `Produce`.
  pub plan_query-return :
      (cs es : AstNodes) (distinct : Bool) (order_of skip_of limit_of group_by_of : OptNode)
      → name_of (
          plan_query
            (cs +++ cons (return_clause es distinct order_of skip_of limit_of group_by_of) nil))
        ≡ "Produce"
  unfolding plan_query plan_clause produce
  plan_query-return cs es distinct order_of skip_of limit_of group_by_of = rw (
      plan_clauses-append cs (return_clause es distinct order_of skip_of limit_of group_by_of) once)
