-- ===== src/Executor/Engine/Match/Paths.antt =====
-- The rows of a path, a pattern and a MATCH: `_expand`, `_match_path`, `_match_pattern` and `_match`
-- of cypherast/executor/engine.py.
use cypherast.Prelude.{
  ℕ, String, Bool, true, false, ◌&&◌, List, [], ◌∷◌, ◌++◌, Option, none, some, if◌then◌else◌, ◌==◌,
  leb, ◌+◌,
}
use cypherast.Prelude.Dict.{lookup, insert, remove, nat_eq, string_eq}
use cypherast.Prelude.Result.{Result, ok, err, execute_error, attribute_error, ◌>>=◌}
use cypherast.Ast.{
  AstNode, AstNodes, OptNode, nil, cons, absent, present, node_pattern, relationship_pattern,
  path_pattern, pattern, shortest_path, where_clause,
}
use cypherast.Ast.Walk.{walk, below}
use cypherast.Executor.Value.{Value, nothing, items, node_ref, rel_ref, Values, empty, item}
use cypherast.Executor.Graph.{Graph}
use cypherast.Executor.Python.{is_null}
use cypherast.Executor.Env.{Env, Builtins}
use cypherast.Executor.Eval.{holds}
use cypherast.Executor.Engine.Row.{
  Row, updated, env_of, variable_of, flat_map_result, filter_result,
}
use cypherast.Executor.Engine.Match.{
  path_acc, push, list_in, bind_name, node_matches, candidate_nodes, candidate_rels,
}

-- acc.append(rel); acc.append(other), where a path is tracked
abbrev tracked : Bool → Value → ℕ → Row → Row
tracked track v n row = elim (track && is_some (lookup path_acc row)) [
  | false ↦ row
  | true ↦ insert path_acc (items (push (push (list_in (lookup path_acc row)) v) (node_ref n))) row
]
  where
    is_some : Option Value → Bool
    is_some none = false
    is_some (some _) = true

abbrev is_given : OptNode → Bool
is_given absent = false
is_given (present _) = true

-- The path's variable is bound to the elements that were gathered.
abbrev closed : Option String → Row → Row
closed none row = row
closed (some x) row = insert x (items (list_in (lookup path_acc row))) (remove path_acc row)

abbrev or_node : OptNode → OptNode → OptNode
or_node absent o = o
or_node (present n) o = present n

abbrev rels_among : Values → ℕ
rels_among empty = 0
rels_among (item (rel_ref r) vs) = 1 + rels_among vs
rels_among (item _ vs) = rels_among vs

abbrev bound_rels : AstNodes → Row → ℕ
bound_rels nil row = 0
bound_rels (cons (relationship_pattern v t p d low high l c q w z) es) row =
    elim (variable_of v) [
      | none ↦ 0
      | some x ↦ elim (lookup x row) [ none ↦ 0 | some u ↦ if is_null u then 0 else 1 ]
    ]
    + bound_rels es row
bound_rels (cons _ es) row = bound_rels es row

-- `_hop_count`
unfoldable pub hop_count : OptNode → AstNodes → Row → ℕ
unfolding lookup is_null
hop_count variable es row =
    let pieces = bound_rels es row in
    elim (variable_of variable) [
      | none ↦ pieces
      | some x ↦ elim (lookup x row) [ some (items vs) ↦ rels_among vs | _ ↦ pieces ]
    ]

abbrev least : ℕ → List ℕ → ℕ
least m [] = m
least m (h ∷ hs) = least (if leb m h then m else h) hs

abbrev hop_counts : (Row → ℕ) → List Row → List ℕ
hop_counts f [] = []
hop_counts f (r ∷ rs) = f r ∷ hop_counts f rs

abbrev with_hops : (Row → ℕ) → ℕ → List Row → List Row
with_hops f h [] = []
with_hops f h (r ∷ rs) = if f r == h then r ∷ with_hops f h rs else with_hops f h rs

-- The rows with the fewest hops.
unfoldable pub shortest : (Row → ℕ) → List Row → List Row
shortest f [] = []
shortest f (r ∷ rs) = with_hops f (least (f r) (hop_counts f rs)) (r ∷ rs)

module _ (py : Builtins) (ev : AstNode → Env → Result Value) (params : Row) (g : Graph) where
  -- One step to another node: the pattern of that node, then the two names.
  unfoldable pub step_rows :
      (track : Bool) (rel_variable variable labels properties : OptNode)
      → Row
      → Value × ℕ
      → Result (List Row)
  unfolding node_matches bind_name lookup insert
  step_rows track rel_variable variable labels properties row (v, n) =
      node_matches py ev params g labels properties n row >>= λ b. ok (
        if b
        then elim (bind_name (variable_of rel_variable) v row) [
          | none ↦ []
          | some r1 ↦ elim (bind_name (variable_of variable) (node_ref n) r1) [
            | none ↦ []
            | some r2 ↦ tracked track v n r2 ∷ []
          ]
        ]
        else [])

  -- `_expand`
  unfoldable pub expand : (track : Bool) → AstNodes → Row → (current : ℕ) → Result (List Row)
  unfolding candidate_rels step_rows
  expand track nil row current = ok (row ∷ [])
  expand track (cons last nil) row current = ok (row ∷ [])
  expand track
        (cons
          (relationship_pattern rv types rp d low high l c q w z)
          (cons (node_pattern v labels p nc) rest))
        row current =
      candidate_rels py ev params g types rp d low high l current >>= λ steps.
      flat_map_result
        (λ s. step_rows track rv v labels p row s >>= λ rows.
          flat_map_result (λ r. expand track rest r s.1) rows)
        steps
  expand track (cons _ (cons _ rest)) row current = err (execute_error "CG1702")

  abbrev from_node :
      (path_variable : OptNode) → (variable : OptNode) → AstNodes → Row → ℕ → Result (List Row)
  from_node path_variable variable rest row n =
      elim (bind_name (variable_of variable) (node_ref n) row) [
        | none ↦ ok []
        | some r0 ↦
            let track = is_given path_variable in
            let r1 = if track then insert path_acc (items (item (node_ref n) empty)) r0 else r0 in
            expand track rest r1 n >>= λ rows. ok (close_all rows)
      ]
    where
      close_all : List Row → List Row
      close_all [] = []
      close_all (r ∷ rs) = closed (variable_of path_variable) r ∷ close_all rs

  -- `_match_path`
  unfoldable pub match_path : (variable : OptNode) → AstNodes → Row → Result (List Row)
  unfolding candidate_nodes expand shortest hop_count bind_name insert lookup remove
  match_path variable nil row = ok (row ∷ [])
  match_path variable (cons (shortest_path (path_pattern inner es) all_) nil) row =
      match_path (or_node variable inner) es row >>= λ rows. ok (shortest (hop_count inner es) rows)
  match_path variable (cons (node_pattern v labels properties c) rest) row =
      candidate_nodes py ev params g v labels properties row >>= λ ns.
      flat_map_result (from_node variable v rest row) ns
  match_path variable (cons _ rest) row = err (execute_error "CG1702")

  abbrev match_paths : AstNodes → List Row → Result (List Row)
  match_paths nil rows = ok rows
  match_paths (cons (path_pattern v es) ps) rows =
      flat_map_result (match_path v es) rows >>= match_paths ps
  match_paths (cons _ ps) [] = match_paths ps []
  match_paths (cons _ ps) (r ∷ rs) = err attribute_error

  -- `_match_pattern`
  unfoldable pub match_pattern : AstNode → Row → Result (List Row)
  unfolding match_path
  match_pattern (pattern paths) row = match_paths paths (row ∷ [])
  match_pattern _ row = err attribute_error

  abbrev named : OptNode → List String
  named v = elim (variable_of v) [ none ↦ [] | some x ↦ x ∷ [] ]

  -- `_pattern_vars`
  abbrev pattern_name : AstNode → List String
  pattern_name (node_pattern v l p c) = named v
  pattern_name (relationship_pattern v t p d low high l c q w z) = named v
  pattern_name (path_pattern v es) = named v
  pattern_name _ = []

  abbrev pattern_names : List AstNode → List String
  pattern_names [] = []
  pattern_names (n ∷ ns) = pattern_name n ++ pattern_names ns

  abbrev with_nulls : List String → Row → Row
  with_nulls [] row = row
  with_nulls (x ∷ xs) row =
      with_nulls xs (elim (lookup x row) [ none ↦ insert x nothing row | some _ ↦ row ])

  -- The predicate of a WHERE on a row.
  unfoldable pub passes : OptNode → Row → Result Bool
  unfolding updated
  passes absent row = ok true
  passes (present (where_clause e)) row = ev e (env_of params g row) >>= λ v. ok (holds v)
  passes (present _) row = err attribute_error

  abbrev pub merged_all : Row → List Row → List Row
  merged_all row [] = []
  merged_all row (m ∷ ms) = updated row m ∷ merged_all row ms

  abbrev pub or_nulls : Bool → AstNode → Row → List Row → List Row
  or_nulls optional pat row (m ∷ ms) = m ∷ ms
  or_nulls true pat row [] = with_nulls (pattern_names (walk pat)) row ∷ []
  or_nulls false pat row [] = []

  -- One row of `_match`.
  unfoldable pub match_row : AstNode → (optional : Bool) → OptNode → Row → Result (List Row)
  unfolding match_pattern passes updated below lookup insert
  match_row pat optional condition row = match_pattern pat row >>= λ ms.
      filter_result (passes condition) (merged_all row ms) >>= λ survivors.
      ok (or_nulls optional pat row survivors)

  -- `_match`
  unfoldable pub match_rows : AstNode → (optional : Bool) → OptNode → List Row → Result (List Row)
  unfolding match_row
  match_rows pat optional condition rows = flat_map_result (match_row pat optional condition) rows
