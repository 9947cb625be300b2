-- ===== src/Executor/Engine/Project/Aggregate.antt =====
-- `_aggregate_return`, `_eval_agg`, `_is_agg` and `_dedupe_preserve` of cypherast/executor/engine.py.
-- A grouping column holds the frozen key, as in the code. `float`, `round` and the square root are
-- Python's (`Builtins`).
use Prim.Native.Nat.{ℕ, zero, suc, ◌-◌}
use cypherast.Prelude.{
  String, Bool, true, false, ◌&&◌, ◌||◌, List, [], ◌∷◌, ◌++◌, if◌then◌else◌, leb, length,
}
use cypherast.Prelude.Int.{ℤ, pos, negsuc, ◌+ℤ◌, int_lt}
use cypherast.Prelude.Text.{lower_eq, lower_member}
use cypherast.Prelude.Dict.{lookup, insert, string_eq}
use cypherast.Prelude.Result.{Result, ok, err, execute_error, index_error, stop_iteration, ◌>>=◌}
use cypherast.Ast.{
  AstNode, AstNodes, OptNode, nil, cons, absent, present, star, identifier, alias, function_call,
}
use cypherast.Executor.Value.{Value, nothing, int, double, items, tuple, Values, empty, item}
use cypherast.Executor.Graph.{Graph}
use cypherast.Executor.Python.{is_null, py_eq, py_lt, py_add, py_sub, py_mul, py_div}
use cypherast.Executor.Env.{Env, Builtins}
use cypherast.Executor.Engine.Row.{Row, updated, env_of}
use cypherast.Executor.Engine.Project.{
  Texts, Projection, freeze, proj_name, project, values_at, plain_return,
}

abbrev unaliased : AstNode → AstNode
unaliased (alias e _) = e
unaliased e = e

abbrev aggregate_names : List String
aggregate_names =
    "count" ∷ "sum" ∷ "avg" ∷ "min" ∷ "max" ∷ "collect" ∷ "stdev" ∷ "stdevp" ∷ "percentilecont"
    ∷ "percentiledisc" ∷ []

abbrev is_aggregate_call : AstNode → Bool
is_aggregate_call (function_call name args distinct) = lower_member name aggregate_names
is_aggregate_call _ = false

-- `_is_agg`
unfoldable pub is_agg : AstNode → Bool
unfolding lower_member
is_agg e = is_aggregate_call (unaliased e)

abbrev pub any_agg : AstNodes → Bool
any_agg nil = false
any_agg (cons e es) = is_agg e || any_agg es

abbrev keys_in : AstNodes → AstNodes
keys_in nil = nil
keys_in (cons e es) = if is_agg e then keys_in es else cons e (keys_in es)

abbrev to_values : List Value → Values
to_values [] = empty
to_values (v ∷ vs) = item v (to_values vs)

abbrev size_of : List Value → Value
size_of vs = int (pos (length vs))

abbrev get_value : ℕ → List Value → Result Value
get_value i [] = err index_error
get_value zero (v ∷ vs) = ok v
get_value (suc i) (v ∷ vs) = get_value i vs

abbrev index_from : ℤ → ℕ
index_from (pos n) = n
index_from (negsuc n) = 0

abbrev lesser : ℕ → ℕ → ℕ
lesser a b = if leb a b then a else b

module _ (py : Builtins) where
  abbrev among : Value → List Value → Bool
  among k [] = false
  among k (j ∷ js) = if py_eq py.floats j k then true else among k js

  -- `_dedupe_preserve`
  unfoldable pub dedupe : (seen : List Value) → List Value → List Value
  unfolding py_eq freeze
  dedupe seen [] = []
  dedupe seen (v ∷ vs) =
      if among (freeze v) seen then dedupe seen vs else v ∷ dedupe (freeze v ∷ seen) vs

  abbrev non_null : List Value → List Value
  non_null [] = []
  non_null (v ∷ vs) = if is_null v then non_null vs else v ∷ non_null vs

  -- sum(vals)
  unfoldable pub sum_values : Value → List Value → Result Value
  unfolding py_add
  sum_values acc [] = ok acc
  sum_values acc (v ∷ vs) = py_add py.floats acc v >>= λ s. sum_values s vs

  unfoldable pub min_value : Value → List Value → Result Value
  unfolding py_lt
  min_value m [] = ok m
  min_value m (v ∷ vs) = py_lt py.floats v m >>= λ b. min_value (if b then v else m) vs

  unfoldable pub max_value : Value → List Value → Result Value
  unfolding py_lt
  max_value m [] = ok m
  max_value m (v ∷ vs) = py_lt py.floats m v >>= λ b. max_value (if b then v else m) vs

  abbrev mean_of : List Value → Result Value
  mean_of vs = sum_values (int (pos 0)) vs >>= λ s. py_div py.floats s (size_of vs)

  abbrev squares : Value → List Value → Result (List Value)
  squares mean [] = ok []
  squares mean (v ∷ vs) = py_sub py.floats v mean >>= λ d.
      py.power d (int (pos 2)) >>= λ s. squares mean vs >>= λ rest. ok (s ∷ rest)

  -- var ** 0.5 with var = sum((x - mean) ** 2 for x in vals) / count
  unfoldable pub deviation : List Value → (count : Value) → Result Value
  unfolding sum_values py_sub py_div
  deviation vs count = mean_of vs >>= λ mean. squares mean vs >>= λ ss.
      sum_values (int (pos 0)) ss >>= λ total.
      py_div py.floats total count >>= λ var. py.power var (double 0x3fe0000000000000)

  abbrev insert_value : Value → List Value → Result (List Value)
  insert_value v [] = ok (v ∷ [])
  insert_value v (w ∷ ws) =
      let rest = insert_value v ws in
      py_lt py.floats w v >>= λ before.
      if before then (rest >>= λ sorted. ok (w ∷ sorted)) else ok (v ∷ w ∷ ws)

  -- sorted(vals)
  unfoldable pub sort_values : List Value → Result (List Value)
  unfolding py_lt
  sort_values [] = ok []
  sort_values (v ∷ vs) = sort_values vs >>= insert_value v

  abbrev last_index : List Value → ℕ
  last_index vs = length vs - 1

  -- sorted_vals[max(0, min(int(round(pct * (n - 1))), n - 1))]
  abbrev discrete : Value → List Value → Result Value
  discrete pct vs = py_mul py.floats pct (int (pos (last_index vs))) >>= λ rank.
      py.library "round" (item rank empty) >>= py.to_int >>= λ i.
      get_value (lesser (index_from i) (last_index vs)) vs

  -- The value between the two neighbours of the rank; a negative index counts from the end.
  abbrev continuous : Value → List Value → Result Value
  continuous pct vs = py_mul py.floats pct (int (pos (last_index vs))) >>= λ rank.
      py.to_int rank >>= λ lo.
      let hi =
        if int_lt (pos (last_index vs)) (lo +ℤ pos 1) then pos (last_index vs) else lo +ℤ pos 1 in
      py_sub py.floats rank (int lo) >>= λ frac. at lo vs >>= λ a. at hi vs >>= λ b.
      py_sub py.floats b a >>= λ gap. py_mul py.floats frac gap >>= λ part. py_add py.floats a part
    where
      at : ℤ → List Value → Result Value
      at (pos i) vs = get_value i vs
      at (negsuc i) vs =
          if leb (suc i) (length vs) then get_value (length vs - suc i) vs else err index_error

  -- The percentile is read from the first argument, as the values are.
  unfoldable pub percentile : (disc : Bool) → Value → List Value → Result Value
  unfolding py_mul py_add py_sub is_null sort_values
  percentile disc pct vs =
      if is_null pct
      then ok nothing
      else py.library "float" (item pct empty) >>= λ p. sort_values vs >>= λ sorted. elim sorted [
        | [] ↦ ok nothing
        | s ∷ ss ↦ if disc then discrete p (s ∷ ss) else continuous p (s ∷ ss)
      ]

  -- `_eval_agg` on the values that are not NULL; `pct` is the first argument at the first row
  unfoldable pub aggregate_of :
      (name : String) → (many_args : Bool) → (pct : Result Value) → List Value → Result Value
  unfolding lower_eq sum_values min_value max_value deviation percentile
  aggregate_of name many pct vs =
      if lower_eq name "count"
      then ok (size_of vs)
      else if lower_eq name "sum"
      then or_nothing vs (sum_values (int (pos 0)) vs)
      else if lower_eq name "avg"
      then or_nothing vs (mean_of vs)
      else if lower_eq name "min"
      then extreme min_value vs
      else if lower_eq name "max"
      then extreme max_value vs
      else if lower_eq name "collect"
      then ok (items (to_values vs))
      else if lower_eq name "stdev" && leb 2 (length vs)
      then deviation vs (int (pos (length vs - 1)))
      else if lower_eq name "stdevp" && leb 1 (length vs)
      then deviation vs (size_of vs)
      else if lower_member name ("percentilecont" ∷ "percentiledisc" ∷ []) && many
      then pct >>= (λ p. percentile (lower_eq name "percentiledisc") p vs)
      else err (execute_error "CG1702")
    where
      or_nothing : List Value → Result Value → Result Value
      or_nothing [] r = ok nothing
      or_nothing (v ∷ vs) r = r

      extreme : (Value → List Value → Result Value) → List Value → Result Value
      extreme f [] = ok nothing
      extreme f (v ∷ vs) = f v vs

module _ (py : Builtins) (texts : Texts) (ev : AstNode → Env → Result Value) (params : Row)
    (g : Graph) where
  abbrev at_rows : AstNode → List Row → Result (List Value)
  at_rows e [] = ok []
  at_rows e (r ∷ rs) = ev e (env_of params g r) >>= λ v. at_rows e rs >>= λ vs. ok (v ∷ vs)

  abbrev at_first : AstNode → List Row → Result Value
  at_first e [] = err index_error
  at_first e (r ∷ rs) = ev e (env_of params g r)

  abbrev is_many : AstNodes → Bool
  is_many (cons _ (cons _ _)) = true
  is_many _ = false

  -- `_eval_agg`
  unfoldable pub eval_agg : AstNode → List Row → Result Value
  unfolding aggregate_of dedupe lower_eq is_null updated
  eval_agg (alias e x) rows = eval_agg e rows
  eval_agg (function_call name nil distinct) [] = aggregate_of py name false (err index_error) []
  eval_agg (function_call name nil distinct) (r ∷ rs) = err index_error
  eval_agg (function_call name (cons e es) distinct) rows =
      if lower_eq name "count" && is_star e
      then ok (int (pos (length rows)))
      else at_rows e rows >>= λ vs.
          let kept = non_null py vs in
          aggregate_of py name (is_many es) (at_first e rows)
            (if distinct then dedupe py [] kept else kept)
    where
      is_star : AstNode → Bool
      is_star star = true
      is_star _ = false
  eval_agg _ rows = err (execute_error "CG1702")

  abbrev pub key_values : AstNodes → Env → Result Values
  key_values nil env = ok empty
  key_values (cons k ks) env = ev k env >>= λ v. key_values ks env >>= λ vs. ok (item (freeze v) vs)

  -- groups.setdefault(key, []).append(row)
  unfoldable pub group_in : Values → Row → List (Values × List Row) → List (Values × List Row)
  unfolding py_eq
  group_in key row [] = (key, row ∷ []) ∷ []
  group_in key row ((k, rows) ∷ groups) =
      if py_eq py.floats (tuple k) (tuple key)
      then (k, rows ++ (row ∷ [])) ∷ groups
      else (k, rows) ∷ group_in key row groups

  -- The rows by their keys, in the order in which the keys appear.
  unfoldable pub grouped :
      AstNodes → List Row → List (Values × List Row) → Result (List (Values × List Row))
  unfolding group_in freeze updated
  grouped keys [] groups = ok groups
  grouped keys (row ∷ rows) groups =
      key_values keys (env_of params g row) >>= λ key. grouped keys rows (group_in key row groups)

  -- The columns of a group: the aggregates, and the components of the key.
  unfoldable pub group_row : AstNodes → Values → List Row → Result Values
  unfolding is_agg eval_agg
  group_row nil key rows = ok empty
  group_row (cons e es) key rows =
      if is_agg e
      then eval_agg e rows >>= (λ v. group_row es key rows >>= λ vs. ok (item v vs))
      else next_key key (λ vs. group_row es vs rows)
    where
      next_key : Values → (Values → Result Values) → Result Values
      next_key empty rest = err stop_iteration
      next_key (item k ks) rest = rest ks >>= λ vs. ok (item k vs)

  abbrev group_rows : AstNodes → List (Values × List Row) → Result (List Values)
  group_rows es [] = ok []
  group_rows es ((key, rows) ∷ groups) =
      group_row es key rows >>= λ vs. group_rows es groups >>= λ rest. ok (vs ∷ rest)

  abbrev column_names : AstNodes → List String
  column_names nil = []
  column_names (cons e es) = proj_name py texts e ∷ column_names es

  -- dict(zip(cols, r))
  abbrev zipped : List String → Values → Row → Row
  zipped (c ∷ cs) (item v vs) row = zipped cs vs (insert c v row)
  zipped _ _ row = row

  abbrev pub zipped_all : List String → List Values → List Row
  zipped_all cols [] = []
  zipped_all cols (vs ∷ rest) = zipped cols vs [] ∷ zipped_all cols rest

  abbrev identifiers : List String → AstNodes
  identifiers [] = nil
  identifiers (c ∷ cs) = cons (identifier c) (identifiers cs)

  abbrev is_set : OptNode → Bool
  is_set absent = false
  is_set (present _) = true

  abbrev rows_at : List String → List Row → List Values
  rows_at cols [] = []
  rows_at cols (r ∷ rs) = values_at cols r ∷ rows_at cols rs

  -- ORDER BY, SKIP, LIMIT and DISTINCT of the grouped rows.
  abbrev rearranged : Projection → List String → List Values → Result (List Values)
  rearranged c cols rows =
      if c.distinct || (is_set c.order_of || (is_set c.skip_of || is_set c.limit_of))
      then project py texts ev params g
          (record c { expressions = identifiers cols; condition = absent }) false
          (zipped_all cols rows)
        >>= (λ rs. ok (rows_at cols rs))
      else ok rows

  -- `_aggregate_return`
  unfoldable pub aggregate_return : Projection → List Row → Result (List String × List Values)
  unfolding grouped group_row proj_name project insert lookup is_agg
  aggregate_return c rows = grouped (keys_in c.expressions) rows [] >>= λ groups.
      group_rows c.expressions groups >>= λ vs.
      let cols = column_names c.expressions in rearranged c cols vs >>= λ out. ok (cols, out)

  -- `_return`
  unfoldable pub return_rows : Projection → List Row → Result (List String × List Values)
  unfolding aggregate_return plain_return is_agg
  return_rows c rows =
      if any_agg c.expressions
      then aggregate_return c rows
      else plain_return py texts ev params g c rows
