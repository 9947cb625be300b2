-- ===== src/Planner/PhysicalOps.antt =====
-- cypherast/planner/physical_ops.py: operators with the operators that feed them. An operator's
-- cost is set by `estimate_cost`. Every cost in the program is an integer-valued float below 2^53,
-- here a natural number. The field `rows_estimate` is never read, and is left out.
use Prim.Native.Nat.{ℕ}
use Prim.Native.String.{◌++◌}
use cypherast.Prelude.{String, List, [], ◌∷◌}
use mathlib.Core.List.{◌++◌ as append}

mutual
  pub data PhysicalOp : Type 0 where
    operator : (name detail : String) → (children : PhysicalOps) → (cost : ℕ) → PhysicalOp

  pub data PhysicalOps : Type 0 where
    no_op : PhysicalOps
    op_then : PhysicalOp → PhysicalOps → PhysicalOps

abbrev pub only : PhysicalOp → PhysicalOps
only op = op_then op no_op

abbrev pub name_of : PhysicalOp → String
name_of (operator name _ _ _) = name

abbrev pub children_of : PhysicalOp → PhysicalOps
children_of (operator _ _ children _) = children

abbrev pub cost_of : PhysicalOp → ℕ
cost_of (operator _ _ _ cost) = cost

-- sep.join(parts)
abbrev pub join : String → List String → String
join sep [] = ""
join sep (s ∷ []) = s
join sep (s ∷ t ∷ ts) = s ++ (sep ++ join sep (t ∷ ts))

unfoldable pub once : PhysicalOp
once = operator "Once" "" no_op 0

unfoldable pub produce : List String → PhysicalOps → PhysicalOp
produce symbols children = operator "Produce" ("{" ++ (join ", " symbols ++ "}")) children 0

unfoldable pub scan_all : String → PhysicalOps → PhysicalOp
scan_all var children = operator "ScanAll" ("(" ++ (var ++ ")")) children 0

unfoldable pub scan_all_by_label : String → String → PhysicalOps → PhysicalOp
scan_all_by_label var label children =
    operator "ScanAllByLabel" ("(" ++ (var ++ (" :" ++ (label ++ ")")))) children 0

unfoldable pub scan_all_by_label_properties :
    String → String → List String → PhysicalOps → PhysicalOp
scan_all_by_label_properties var label props children =
    operator "ScanAllByLabelProperties"
      ("(" ++ (var ++ (" :" ++ (label ++ (" {" ++ (join ", " props ++ "})")))))) children 0

unfoldable pub filter_op : String → PhysicalOps → PhysicalOp
filter_op detail children = operator "Filter" detail children 0

unfoldable pub expand : String → PhysicalOps → PhysicalOp
expand detail children = operator "Expand" detail children 0

unfoldable pub expand_variable : String → PhysicalOps → PhysicalOp
expand_variable detail children = operator "ExpandVariable" detail children 0

unfoldable pub aggregate : PhysicalOps → PhysicalOp
aggregate children = operator "Aggregate" "" children 0

unfoldable pub order_by : PhysicalOps → PhysicalOp
order_by children = operator "OrderBy" "" children 0

unfoldable pub skip_op : PhysicalOps → PhysicalOp
skip_op children = operator "Skip" "" children 0

unfoldable pub limit_op : PhysicalOps → PhysicalOp
limit_op children = operator "Limit" "" children 0

unfoldable pub empty_result : PhysicalOps → PhysicalOp
empty_result children = operator "EmptyResult" "" children 0

-- `_flatten`: the operators below, then the operator
unfoldable mutual
  pub flatten : PhysicalOp → List PhysicalOp
  flatten (operator name detail children cost) =
      append (flatten_all children) (operator name detail children cost ∷ [])

  pub flatten_all : PhysicalOps → List PhysicalOp
  flatten_all no_op = []
  flatten_all (op_then op ops) = append (flatten op) (flatten_all ops)
