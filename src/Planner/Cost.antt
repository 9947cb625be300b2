-- ===== src/Planner/Cost.antt =====
-- cypherast/planner/cost.py: the coefficients of the operators, and the cost of a plan.
use Prim.Native.Nat.{ℕ, ◌+◌}
use cypherast.Prelude.{String, ◌≡◌, refl, List, [], ◌∷◌, ◌++◌, arith, if◌then◌else◌}
use package.text.Mathlib.Text.{◌==◌}
use cypherast.Planner.PhysicalOps.{
  PhysicalOp, PhysicalOps, operator, no_op, op_then, name_of, flatten, flatten_all,
}

-- COEFF.get(name, 5.0)
unfoldable pub coefficient : String → ℕ
coefficient name =
    if name == "Once"
    then 0
    else if name == "ScanAll"
    then 100
    else if name == "ScanAllByLabel"
    then 20
    else if name == "ScanAllByLabelProperties"
    then 5
    else if name == "ScanAllById"
    then 1
    else if name == "Expand"
    then 10
    else if name == "ExpandVariable"
    then 50
    else if name == "Filter"
    then 2
    else if name == "Aggregate"
    then 15
    else if name == "OrderBy"
    then 20
    else if name == "Distinct"
    then 10
    else if name == "Unwind"
    then 5
    else if name == "Produce"
    then 1
    else if name == "CreateNode"
    then 5
    else if name == "CreateExpand"
    then 8
    else if name == "Merge"
    then 12
    else if name == "Delete"
    then 5
    else if name == "SetProperty"
    then 2
    else if name == "EmptyResult"
    then 0
    else if name == "Skip"
    then 1
    else if name == "Limit"
    then 1
    else 5

-- The number returned by `estimate_cost`.
unfoldable mutual
  unfolding coefficient

  pub estimate : PhysicalOp → ℕ
  estimate (operator name detail children cost) = coefficient name + estimate_all children

  pub estimate_all : PhysicalOps → ℕ
  estimate_all no_op = 0
  estimate_all (op_then op ops) = estimate op + estimate_all ops

-- The operator with the costs that `estimate_cost` sets on it and below it.
unfoldable mutual
  unfolding estimate

  pub estimate_cost : PhysicalOp → PhysicalOp
  estimate_cost (operator name detail children cost) =
      operator name detail (estimate_costs children) (coefficient name + estimate_all children)

  pub estimate_costs : PhysicalOps → PhysicalOps
  estimate_costs no_op = no_op
  estimate_costs (op_then op ops) = op_then (estimate_cost op) (estimate_costs ops)

-- The coefficients of a list of operators, added up.
abbrev pub total : List PhysicalOp → ℕ
total [] = 0
total (op ∷ ops) = coefficient (name_of op) + total ops

total-append : (xs ys : List PhysicalOp) → total (xs ++ ys) ≡ total xs + total ys
total-append [] ys = omega arith
total-append (x ∷ xs) ys = omega (arith, total-append xs ys)

mutual
  unfolding estimate flatten

  estimate-flatten : (op : PhysicalOp) → estimate op ≡ total (flatten op)
  estimate-flatten (operator name detail children cost) = omega (
    arith,
    total-append (flatten_all children) (operator name detail children cost ∷ []),
    estimate_all-flatten children,
  )

  estimate_all-flatten : (ops : PhysicalOps) → estimate_all ops ≡ total (flatten_all ops)
  estimate_all-flatten no_op = refl
  estimate_all-flatten (op_then op ops) = omega (
    arith,
    total-append (flatten op) (flatten_all ops),
    estimate-flatten op,
    estimate_all-flatten ops,
  )

-- The cost of a plan is the sum of the coefficients of the operators that the printed plan lists,
-- each counted once.
pub estimate-eq-total : (op : PhysicalOp) → estimate op ≡ total (flatten op)
estimate-eq-total op = estimate-flatten op
