-- ===== src/Planner/Enumeration.antt =====
-- cypherast/planner/enumeration.py and `build_cost_plan`: the candidate plans of a query, and the one
-- that is chosen. With a schema, the candidates are sorted by a cost that its statistics scale (a
-- product of doubles, whose arithmetic is a parameter), and the text of an expansion names the
-- endpoints of its type.
use Prim.Native.Nat.{ℕ, suc}
use Prim.Native.String.{◌++◌ as str_append}
use cypherast.Prelude.{
  String, Bool, true, false, List, [], ◌∷◌, ◌++◌, Option, none, some, if◌then◌else◌, leb,
}
use package.text.Mathlib.Text.{◌==◌, starts_with, find?}
use cypherast.Prelude.Dict.{lookup, string_eq}
use cypherast.Prelude.Int.{pos}
use cypherast.Executor.Python.{Floats}
use cypherast.Ast.{
  AstNode, AstNodes, OptNode, nil, cons, absent, present, node_pattern, match_clause, query, cypher,
}
use cypherast.Planner.PhysicalOps.{
  PhysicalOp, operator, only, once, scan_all_by_label, scan_all_by_label_properties,
}
use cypherast.Planner.Cost.{estimate}
use cypherast.Planner.Plan.{
  Texts, identifier_name, label_names, property_keys, elements_of, paths_of, type_detail,
  expand_paths, filtered, plan_query, naive_plan,
}
pub mod Cheapest

-- What the planner reads of a `GraphSchema`: the endpoints of each relationship type, and the
-- statistics, whose values are doubles.
pub record Schema : Type 0 where
  pub endpoints : List (String × List (String × String))
  pub stats : List (String × ℕ)

abbrev detail_of : PhysicalOp → String
detail_of (operator _ detail _ _) = detail

abbrev without_first : ℕ → String → String
without_first ℕ.zero s = s
without_first (suc n) String.[] = String.[]
without_first (suc n) (String.◌∷◌ c s) = without_first n s

-- name.split(":", 1)[1] if name.startswith("label:") else ""
abbrev stat_label : String → String
stat_label name = if starts_with name "label:" then without_first 6 name else ""

-- label and label in detail
abbrev label_in : String → String → Bool
label_in label detail =
    if label == "" then false else elim (find? detail label) [ none ↦ false | some _ ↦ true ]

-- `_orient_expand`
unfoldable pub orient_expand :
    String → List String → List (String × List (String × String)) → String
unfolding lookup
orient_expand detail [] rel_types = detail
orient_expand detail (t ∷ ts) rel_types = elim (lookup t rel_types) [
  | some ((start, stop) ∷ _) ↦
      str_append detail
        (str_append " /*" (str_append start (str_append "->" (str_append stop "*/"))))
  | some [] ↦ orient_expand detail ts rel_types
  | none ↦ orient_expand detail ts rel_types
]

abbrev expand_detail : Option Schema → List String → String
expand_detail none types = type_detail types
expand_detail (some schema) types = orient_expand (type_detail types) types schema.endpoints

module _ (floats : Floats) where
  -- max(0.1, min(1.0, card / 1000.0))
  abbrev scale : ℕ → ℕ
  scale card =
      let share = floats.over card 0x408f400000000000 in
      let low = if floats.lt share 0x3ff0000000000000 then share else 0x3ff0000000000000 in
      if floats.lt 0x3fb999999999999a low then low else 0x3fb999999999999a

  abbrev scaled : String → ℕ → List (String × ℕ) → ℕ
  scaled detail cost [] = cost
  scaled detail cost ((name, card) ∷ stats) =
      scaled detail
        (if label_in (stat_label name) detail then floats.times cost (scale card) else cost) stats

  -- `_schema_adjusted_cost`, a double
  unfoldable pub schema_adjusted_cost : PhysicalOp → Schema → ℕ
  unfolding estimate
  schema_adjusted_cost plan schema =
      scaled (detail_of plan) (floats.of_int (pos (estimate plan))) schema.stats

  -- Whether a plan stays before another that comes later, as the key of the sort has it.
  unfoldable pub stays_before : Option Schema → PhysicalOp → PhysicalOp → Bool
  unfolding estimate schema_adjusted_cost
  stays_before none p q = leb (estimate p) (estimate q)
  stays_before (some schema) p q =
      floats.le (schema_adjusted_cost p schema) (schema_adjusted_cost q schema)

pub record Anchor : Type 0 where
  pub var : String
  pub label : String
  pub props : List String

abbrev anchor_of : Option String → List String → List String → List Anchor
anchor_of (some x) (l ∷ ls) props = record { var = x; label = l; props = props } ∷ []
anchor_of _ _ props = []

abbrev labeled_in : AstNodes → List Anchor
labeled_in nil = []
labeled_in (cons (node_pattern v l p w) es) =
    anchor_of (identifier_name v) (label_names l) (property_keys p) ++ labeled_in es
labeled_in (cons _ es) = labeled_in es

-- `_labeled_nodes`
unfoldable pub labeled_nodes : AstNodes → List Anchor
labeled_nodes nil = []
labeled_nodes (cons p ps) = labeled_in (elements_of p) ++ labeled_nodes ps

abbrev anchor_scan : String → String → List String → PhysicalOp
anchor_scan var label [] = scan_all_by_label var label (only once)
anchor_scan var label (p ∷ ps) = scan_all_by_label_properties var label (p ∷ ps) (only once)

-- candidates.sort(key=...), a stable sort
abbrev pub insert_plan :
    (PhysicalOp → PhysicalOp → Bool) → PhysicalOp → List PhysicalOp → List PhysicalOp
insert_plan before p [] = p ∷ []
insert_plan before p (q ∷ qs) = if before p q then p ∷ q ∷ qs else q ∷ insert_plan before p qs

abbrev pub sort_plans : (PhysicalOp → PhysicalOp → Bool) → List PhysicalOp → List PhysicalOp
sort_plans before [] = []
sort_plans before (p ∷ ps) = insert_plan before p (sort_plans before ps)

abbrev pub take : ℕ → List PhysicalOp → List PhysicalOp
take ℕ.zero ps = []
take (suc n) [] = []
take (suc n) (p ∷ ps) = p ∷ take n ps

-- min(candidates, key=lambda p: p.cost): the first of the cheapest
abbrev pub cheapest : PhysicalOp → List PhysicalOp → PhysicalOp
cheapest p [] = p
cheapest p (q ∷ qs) = cheapest (if leb (estimate p) (estimate q) then p else q) qs

abbrev pub best : PhysicalOp → List PhysicalOp → PhysicalOp
best otherwise [] = otherwise
best otherwise (p ∷ ps) = cheapest p ps

module _ (floats : Floats) (texts : Texts) (schema : Option Schema) where
  -- `_plan_match_from_anchor`, on `Once`
  unfoldable pub plan_match_from_anchor : AstNode → OptNode → Anchor → PhysicalOp
  unfolding scan_all_by_label scan_all_by_label_properties once orient_expand
  plan_match_from_anchor pat condition a =
      filtered texts condition
        (expand_paths (expand_detail schema) (paths_of pat) (anchor_scan a.var a.label a.props))

  abbrev from_anchors : AstNode → OptNode → List Anchor → List PhysicalOp
  from_anchors pat condition [] = []
  from_anchors pat condition (a ∷ as') =
      plan_match_from_anchor pat condition a ∷ from_anchors pat condition as'

  -- Alternatives are tried only where there are at least two anchors.
  abbrev alternatives : AstNode → OptNode → List Anchor → List PhysicalOp
  alternatives pat condition (a ∷ b ∷ as') = from_anchors pat condition (a ∷ b ∷ as')
  alternatives pat condition _ = []

  abbrev of_clause : AstNode → List PhysicalOp
  of_clause (match_clause pat optional condition hints search_of) =
      alternatives pat condition (labeled_nodes (paths_of pat))
  of_clause _ = []

  unfoldable pub of_clauses : AstNodes → List PhysicalOp
  unfolding plan_match_from_anchor labeled_nodes
  of_clauses nil = []
  of_clauses (cons c cs) = of_clause c ++ of_clauses cs

  -- All the candidates of a query, before they are sorted and cut to eight.
  unfoldable pub candidates : AstNodes → List PhysicalOp
  unfolding plan_query of_clauses
  candidates clauses = plan_query texts clauses ∷ of_clauses clauses

  -- `enumerate_plans`
  unfoldable pub enumerate_plans : AstNodes → List PhysicalOp
  unfolding candidates stays_before
  enumerate_plans clauses = take 8 (sort_plans (stays_before floats schema) (candidates clauses))

  -- `build_cost_plan`
  unfoldable pub cost_plan : AstNode → PhysicalOp
  unfolding enumerate_plans naive_plan estimate
  cost_plan (cypher (query clauses) version) =
      best (naive_plan texts (cypher (query clauses) version)) (enumerate_plans clauses)
  cost_plan (query clauses) = best (naive_plan texts (query clauses)) (enumerate_plans clauses)
  cost_plan tree = naive_plan texts tree
