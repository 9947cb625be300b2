-- ===== src/Planner/Plan/Root.antt =====
-- The root of the plan that `_plan_query` of cypherast/planner/plan.py makes.
use cypherast.Prelude.{String, ◌≡◌, refl, Bool, true, false, List, [], ◌∷◌, Option, some}
use package.text.Mathlib.Text.{◌==◌}
use cypherast.Ast.{
  AstNode, AstNodes, OptNode, nil, cons, absent, present, relationship_pattern, node_pattern,
  match_clause, where_clause, with_clause, return_clause, binary, BinaryOp, add, sub, mul, div,
  modulo, pow, eq, neq, lt, lte, gt, gte, and, or, xor, is_in, starts_with, ends_with, contains,
  regex_match,
}
use cypherast.Ast.Kind.{class_name, op_name}
use cypherast.Planner.PhysicalOps.{
  PhysicalOp, only, name_of, once, empty_result, expand, expand_variable, filter_op, order_by,
}
use cypherast.Planner.Plan.{
  Texts, identifier_name, label_names, property_keys, elements_of, paths_of, type_detail, scan_of,
  start_scan, first_of_paths, expand_along, expand_path, expand_paths, filtered, plan_match,
  plan_projection, plan_clause, plan_clauses, plan_query,
}

-- Some clause is a RETURN.
abbrev pub has_return : AstNodes → Bool
has_return nil = false
has_return (cons (return_clause _ _ _ _ _ _) cs) = true
has_return (cons _ cs) = has_return cs

abbrev is_produce : PhysicalOp → Bool
is_produce op = name_of op == "Produce"

op_name-Produce : (op : BinaryOp) → (op_name op == "Produce") ≡ false
op_name-Produce add = refl
op_name-Produce sub = refl
op_name-Produce mul = refl
op_name-Produce div = refl
op_name-Produce modulo = refl
op_name-Produce pow = refl
op_name-Produce eq = refl
op_name-Produce neq = refl
op_name-Produce lt = refl
op_name-Produce lte = refl
op_name-Produce gt = refl
op_name-Produce gte = refl
op_name-Produce and = refl
op_name-Produce or = refl
op_name-Produce xor = refl
op_name-Produce is_in = refl
op_name-Produce starts_with = refl
op_name-Produce ends_with = refl
op_name-Produce contains = refl
op_name-Produce regex_match = refl

scan_of-other :
    (var : Option String) (labels props : List String) (child : PhysicalOp)
    → is_produce (scan_of var labels props child) ≡ false
unfolding scan_of
scan_of-other var [] props child = refl
scan_of-other var (l ∷ ls) [] child = refl
scan_of-other var (l ∷ ls) (p ∷ ps) child = refl

start_scan-other :
    (o : Option AstNode) (child : PhysicalOp)
    → is_produce child ≡ false
    → is_produce (start_scan o child) ≡ false
start_scan-other (some (node_pattern v l p w)) child h =
    scan_of-other (identifier_name v) (label_names l) (property_keys p) child
start_scan-other _ child h = h

module _ (detail : List String → String) where
  expand_along-other :
      (n : AstNode) (chain : PhysicalOp)
      → is_produce chain ≡ false
      → is_produce (expand_along detail n chain) ≡ false
  unfolding expand expand_variable
  expand_along-other (relationship_pattern v t p d low high true c q w z) chain h = refl
  expand_along-other (relationship_pattern v t p d low high false c q w z) chain h = refl
  expand_along-other _ chain h = h

  expand_path-other :
      (ns : AstNodes) (chain : PhysicalOp)
      → is_produce chain ≡ false
      → is_produce (expand_path detail ns chain) ≡ false
  expand_path-other nil chain h = h
  expand_path-other (cons first nil) chain h = h
  expand_path-other (cons first (cons rel rest)) chain h =
      expand_path-other rest (expand_along detail rel chain) (expand_along-other rel chain h)

  expand_paths-other :
      (ps : AstNodes) (chain : PhysicalOp)
      → is_produce chain ≡ false
      → is_produce (expand_paths detail ps chain) ≡ false
  expand_paths-other nil chain h = h
  expand_paths-other (cons p ps) chain h =
      expand_paths-other ps (expand_path detail (elements_of p) chain)
        (expand_path-other (elements_of p) chain h)

module _ (texts : Texts) where
  filtered-other :
      (condition : OptNode) (chain : PhysicalOp)
      → is_produce chain ≡ false
      → is_produce (filtered texts condition chain) ≡ false
  unfolding filter_op
  filtered-other (present (where_clause p)) chain h = refl
  filtered-other _ chain h = h

  plan_projection-other :
      (condition order_of : OptNode) (chain : PhysicalOp)
      → is_produce chain ≡ false
      → is_produce (plan_projection texts condition order_of chain) ≡ false
  unfolding plan_projection filter_op order_by
  plan_projection-other absent absent chain h = h
  plan_projection-other (present c) absent chain h = refl
  plan_projection-other c (present o) chain h = refl

  -- No clause but RETURN puts a `Produce` on a chain that has none at its root.
  plan_clause-other :
      (c : AstNode) (cs : AstNodes) (chain : PhysicalOp)
      → has_return (cons c cs) ≡ false
      → is_produce chain ≡ false
      → is_produce (plan_clause texts c chain) ≡ false
  unfolding plan_clause class_name plan_match
  plan_clause-other (match_clause pat optional condition hints search_of) cs chain r h =
      filtered-other condition
        (expand_paths type_detail (paths_of pat) (start_scan (first_of_paths (paths_of pat)) chain))
        (expand_paths-other type_detail (paths_of pat)
          (start_scan (first_of_paths (paths_of pat)) chain)
          (start_scan-other (first_of_paths (paths_of pat)) chain h))
  plan_clause-other (with_clause es distinct condition o s l g) cs chain r h =
      plan_projection-other condition o chain h
  plan_clause-other (return_clause es distinct o s l g) cs chain r h = cc
  plan_clause-other (binary op l x) cs chain r h = op_name-Produce op
  plan_clause-other _ cs chain r h = refl

  rest_has_return :
      (c : AstNode) (cs : AstNodes) → has_return (cons c cs) ≡ false → has_return cs ≡ false
  rest_has_return (return_clause es distinct o s l g) cs r = cc
  rest_has_return _ cs r = r

  plan_clauses-other :
      (cs : AstNodes) (chain : PhysicalOp)
      → has_return cs ≡ false
      → is_produce chain ≡ false
      → is_produce (plan_clauses texts cs chain) ≡ false
  plan_clauses-other nil chain r h = h
  plan_clauses-other (cons c cs) chain r h =
      plan_clauses-other cs (plan_clause texts c chain) (rest_has_return c cs r)
        (plan_clause-other c cs chain r h)

  -- A query without RETURN, whatever its clauses, has a plan that produces nothing: `EmptyResult` on
  -- top of the chain of its clauses.
  pub plan_query-update :
      (clauses : AstNodes)
      → has_return clauses ≡ false
      → plan_query texts clauses ≡ empty_result (only (plan_clauses texts clauses once))
  unfolding plan_query once
  plan_query-update clauses r = rw (plan_clauses-other clauses once r refl)
