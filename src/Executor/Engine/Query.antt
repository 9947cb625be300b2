-- ===== src/Executor/Engine/Query.antt =====
-- `run_query`, `run_union`, `_call_procedure` and `execute` of cypherast/executor/engine.py, and
-- cypherast/executor/procedures.py. The clauses of a query pass their rows on and change the graph;
-- after a RETURN there are no rows.
pub mod Quiet
use cypherast.Prelude.{
  ℕ, zero, suc, String, Bool, true, false, not, List, [], ◌∷◌, ◌++◌, Option, none, some,
  if◌then◌else◌,
}
use cypherast.Prelude.Dict.{lookup, insert, add, string_eq, nat_eq}
use cypherast.Prelude.Text.{lower_eq}
use cypherast.Prelude.Result.{
  Error, Result, ok, err, execute_error, attribute_error, assertion_error, nontermination,
  ◌>>=◌ as and_then,
}
use cypherast.Ast.{
  AstNode, AstNodes, OptNode, nil, cons, absent, present, star, identifier, alias, match_clause,
  with_clause, return_clause, unwind, create, merge, set_clause, delete, remove_clause, foreach,
  call_subquery, call_procedure, yield, where_clause, query, cypher, union, pattern, path_pattern,
  pattern_comprehension, pattern_predicate,
}
use cypherast.Dialects.Lower.{lower_to_core}
use cypherast.Executor.Value.{Value, nothing, flag, text, items, tuple, Values, empty, item}
use cypherast.Executor.Graph.{Graph, labels_of}
use cypherast.Executor.Python.{py_eq, cypher_true}
use cypherast.Executor.Functions.{sorted}
use cypherast.Executor.Env.{Env, Builtins, seen_in, or_null, bind}
use cypherast.Executor.Eval.{eval, holds}
use cypherast.Executor.Engine.Row.{
  Row, updated, env_of, variable_of, flat_map_result, filter_result,
}
use cypherast.Executor.Engine.Action.{Action, done, raised, reading, each, ◌>>=◌}
use cypherast.Executor.Engine.Match.Paths.{match_rows, match_pattern, passes}
use cypherast.Executor.Engine.Project.{Texts, Projection, project, unwind_rows, freeze}
use cypherast.Executor.Engine.Project.Aggregate.{
  any_agg, is_agg, aggregate_return, return_rows, zipped_all,
}
use cypherast.Executor.Engine.Write.{create_rows, set_items, delete_items, remove_items}
use cypherast.Executor.Engine.Write.Merge.{merge_row, foreach_body}

-- `Result`: the columns, and the rows as lists of values.
abbrev pub Table : Type 0
Table = List String × List Values

abbrev no_table : Table
no_table = ([], [])

abbrev add_all : List String → List String → List String
add_all [] s = s
add_all (l ∷ ls) s = add_all ls (add l s)

abbrev labels_among : List ℕ → Graph → List String → List String
labels_among [] g s = s
labels_among (n ∷ ns) g s = labels_among ns g (add_all (labels_of (lookup n g.node_objects)) s)

abbrev label_rows : List String → List Row
label_rows [] = []
label_rows (l ∷ ls) = (("label", text l) ∷ []) ∷ label_rows ls

-- `_db_labels`
unfoldable pub db_labels : Graph → List Row
unfolding add lookup labels_of
db_labels g = label_rows (sorted (labels_among g.nodes g []))

-- `run_procedure`; the arguments are not read
unfoldable pub run_procedure : String → Graph → List Row
unfolding lower_eq db_labels
run_procedure name g =
    if lower_eq name "db.labels" then db_labels g else (("ok", flag true) ∷ []) ∷ []

abbrev or_one_row : List Row → List Row
or_one_row [] = [] ∷ []
or_one_row (r ∷ rs) = r ∷ rs

abbrev yielded_items : AstNodes → Row → (merged : Row) → Row
yielded_items nil pr row = row
yielded_items (cons (alias (identifier x) (identifier y)) es) pr row =
    yielded_items es pr (insert y (or_null (lookup x pr)) row)
yielded_items (cons (identifier x) es) pr row =
    yielded_items es pr (insert x (or_null (lookup x pr)) row)
yielded_items (cons _ es) pr row = yielded_items es pr row

-- The row with what YIELD names of a procedure's row.
unfoldable pub yielded : OptNode → Row → Row → Row
unfolding updated insert lookup
yielded (present (yield (cons star nil))) pr row = updated row pr
yielded (present (yield es)) pr row = yielded_items es pr row
yielded _ pr row = row

abbrev as_projection :
    AstNodes → Bool → (condition order_of skip_of limit_of : OptNode) → Projection
as_projection es distinct condition order_of skip_of limit_of = record {
  expressions = es;
  distinct = distinct;
  condition = condition;
  order_of = order_of;
  skip_of = skip_of;
  limit_of = limit_of;
}

abbrev cell_keys : Values → Values
cell_keys empty = empty
cell_keys (item v vs) = item (freeze v) (cell_keys vs)

module _ (py : Builtins) where
  abbrev among : Value → List Value → Bool
  among k [] = false
  among k (j ∷ js) = if py_eq py.floats j k then true else among k js

  -- UNION without ALL: the first of the rows with equal frozen values.
  unfoldable pub unique_rows : (seen : List Value) → List Values → List Values
  unfolding py_eq freeze
  unique_rows seen [] = []
  unique_rows seen (r ∷ rs) =
      if among (tuple (cell_keys r)) seen
      then unique_rows seen rs
      else r ∷ unique_rows (tuple (cell_keys r) ∷ seen) rs

  module _ (texts : Texts) (ev : AstNode → Env → Result Value) (params : Row) where
    abbrev eval_args : AstNodes → Env → Result (List Value)
    eval_args nil env = ok []
    eval_args (cons e es) env =
        and_then (ev e env) (λ v. and_then (eval_args es env) (λ vs. ok (v ∷ vs)))

    abbrev yield_all : OptNode → Row → List Row → List Row
    yield_all y row [] = []
    yield_all y row (pr ∷ prs) = yielded y pr row ∷ yield_all y row prs

    abbrev procedure_row :
        String → AstNodes → (yield_of condition : OptNode) → Graph → Row → Result (List Row)
    procedure_row name args y condition g row =
        and_then (eval_args args (env_of params g row)) (λ vs.
          filter_result (passes py ev params g condition)
            (yield_all y row (or_one_row (run_procedure name g))))

    -- `_call_procedure`
    unfoldable pub call_rows :
        String → AstNodes → (yield_of condition : OptNode) → Graph → List Row → Result (List Row)
    unfolding run_procedure yielded passes updated
    call_rows name args y condition g rows =
        and_then (flat_map_result (procedure_row name args y condition g) rows)
          (λ out. ok (or_one_row out))

    -- WITH: with an aggregate the grouped rows, of which WHERE keeps some
    unfoldable pub with_rows : Projection → Graph → List Row → Result (List Row)
    unfolding project aggregate_return is_agg passes insert
    with_rows c g rows =
        if any_agg c.expressions
        then and_then (aggregate_return py texts ev params g (record c { condition = absent }) rows)
            (λ (table : List String × List Values).
              filter_result (passes py ev params g c.condition)
                (zipped_all py texts ev params g table.0 table.1))
        else project py texts ev params g c true rows

    unfoldable passed : Table → Action (List Row) → Action (Table × List Row)
    unfolding ◌>>=◌
    passed t m = m >>= λ rows. done (t, rows)

    unfoldable mutual
      unfolding passed match_rows with_rows unwind_rows create_rows merge_row set_items delete_items
          remove_items foreach_body call_rows return_rows ◌>>=◌ each

      -- One clause: the rows it passes on, and the table of a RETURN.
      pub run_clause : AstNode → Table → List Row → Action (Table × List Row)
      run_clause (match_clause pat optional condition hints search_of) t rows =
          passed t (reading (λ g. match_rows py ev params g pat optional condition rows))
      run_clause (with_clause es distinct condition order_of skip_of limit_of group_by_of) t rows =
          passed t (
            reading (λ g.
              with_rows (as_projection es distinct condition order_of skip_of limit_of) g rows))
      run_clause (unwind e x) t rows =
          passed t (reading (λ g. unwind_rows py texts ev params g e x rows))
      run_clause (create pat) t rows = passed t (create_rows ev params pat rows)
      run_clause (merge pat actions) t rows =
          passed t (each (merge_row py ev params pat actions) rows)
      run_clause (set_clause is) t rows = passed t (each (set_items ev params is) rows)
      run_clause (delete es detach) t rows = passed t (each (delete_items ev params es detach) rows)
      run_clause (remove_clause is) t rows = passed t (each (remove_items ev params is) rows)
      run_clause (foreach x e clauses) t rows =
          passed t (each (foreach_body py ev params (foreach x e clauses)) rows)
      run_clause (call_subquery (query cs) variables optional in_transactions n) t rows =
          run_clauses cs no_table ([] ∷ []) >>= λ inner. done (t, rows)
      run_clause (call_subquery (cypher (query cs) version) variables optional in_transactions n) t
            rows =
          run_clauses cs no_table ([] ∷ []) >>= λ inner. done (t, rows)
      run_clause (call_subquery _ variables optional in_transactions n) t rows = done (t, rows)
      run_clause (call_procedure name args y condition) t rows =
          passed t (reading (λ g. call_rows name args y condition g rows))
      run_clause (return_clause es distinct order_of skip_of limit_of group_by_of) t rows =
          reading (λ g.
            return_rows py texts ev params g
              (as_projection es distinct absent order_of skip_of limit_of) rows)
          >>= λ table. done (table, [])
      run_clause _ t rows = raised (execute_error "CG1702")

      pub run_clauses : AstNodes → Table → List Row → Action Table
      run_clauses nil t rows = done t
      run_clauses (cons c cs) t rows =
          run_clause c t rows >>= λ (next : Table × List Row). run_clauses cs next.0 next.1

    -- `run_query`: one empty row to begin with
    unfoldable pub run_query : AstNodes → Action Table
    unfolding run_clauses
    run_query cs = run_clauses cs no_table ([] ∷ [])

  abbrev as_pattern : AstNode → AstNode
  as_pattern (path_pattern v es) = pattern (cons (path_pattern v es) nil)
  as_pattern p = p

  abbrev predicate_of : AstNode → AstNode
  predicate_of (where_clause e) = e
  predicate_of e = e

  module _ (texts : Texts) (ev : AstNode → Env → Result Value) where
    abbrev projected : OptNode → OptNode → AstNode → Env → List Row → Result Values
    projected variable condition projection env [] = ok empty
    projected variable condition projection env (row ∷ rows) =
        let inner = with_variable (variable_of variable) in
        and_then (kept condition inner) (λ b.
          and_then (if b then and_then (ev projection inner) (λ v. ok (v ∷ [])) else ok []) (λ vs.
            and_then (projected variable condition projection env rows)
              (λ rest. ok (joined vs rest))))
      where
        base : Env
        base = record { graph = env.graph; bindings = updated env.bindings row }

        with_variable : Option String → Env
        with_variable none = base
        with_variable (some x) = bind x (or_null (lookup x row)) base

        kept : OptNode → Env → Result Bool
        kept absent inner = ok true
        kept (present p) inner = and_then (ev (predicate_of p) inner) (λ v. ok (holds v))

        joined : List Value → Values → Values
        joined [] rest = rest
        joined (v ∷ vs) rest = item v (joined vs rest)

    abbrev is_row : List Values → Bool
    is_row [] = false
    is_row (r ∷ rs) = true

    -- EXISTS { query }: ExecuteError is no row, any other exception goes on
    abbrev exists_of : Result Table → Result Bool
    exists_of (ok t) = ok (is_row t.1)
    exists_of (err (execute_error code)) = ok false
    exists_of (err e) = err e

    abbrev exists_pattern : AstNode → Env → Result Bool
    exists_pattern (pattern paths) env =
        and_then (match_pattern py ev [] env.graph (pattern paths) env.bindings)
          (λ rows. ok (found rows))
      where
        found : List Row → Bool
        found [] = false
        found (r ∷ rs) = true
    exists_pattern _ env = err assertion_error

    abbrev exists_in : AstNode → Env → Result Bool
    exists_in (query cs) env = exists_of (run_query texts ev [] cs env.graph).0
    exists_in (cypher (query cs) version) env = exists_of (run_query texts ev [] cs env.graph).0
    exists_in (cypher p version) env = exists_pattern (as_pattern p) env
    exists_in p env = exists_pattern (as_pattern p) env

    -- The two forms of `eval_expr` that run the engine, with no parameters and no outer rows. The
    -- query of an EXISTS only reads: what it changes is not kept here.
    unfoldable pub pattern_form : AstNode → Env → Result Value
    unfolding match_pattern run_query bind lookup updated
    pattern_form (pattern_comprehension variable (pattern paths) condition projection) env =
        and_then (match_pattern py ev [] env.graph (pattern paths) env.bindings) (λ rows.
          and_then (projected variable condition projection env rows) (λ vs. ok (items vs)))
    pattern_form (pattern_comprehension variable (path_pattern v es) condition projection) env =
        and_then (match_pattern py ev [] env.graph (as_pattern (path_pattern v es)) env.bindings)
          (λ rows.
            and_then (projected variable condition projection env rows) (λ vs. ok (items vs)))
    pattern_form (pattern_predicate p not_) env =
        and_then (exists_in p env) (λ b. ok (flag (if not_ then not b else b)))
    pattern_form _ env = err (execute_error "CG1702")

  -- `eval_expr`, with pattern forms nested at most as deep as the fuel, on the graph of `env`.
  unfoldable pub eval_expr : (fuel : ℕ) → Texts → AstNode → Env → Result Value
  unfolding eval pattern_form
  eval_expr zero texts n env = eval (seen_in env.graph py) (λ m e. err nontermination) n env
  eval_expr (suc k) texts n env =
      eval (seen_in env.graph py) (pattern_form texts (eval_expr k texts)) n env

  module _ (texts : Texts) (ev : AstNode → Env → Result Value) (params : Row) where
    -- One side of a union: a query, or what `execute` is called on again.
    unfoldable run_side : (again : AstNode → Action Table) → AstNode → Action Table
    unfolding run_query
    run_side again (query cs) = run_query texts ev params cs
    run_side again n = again (cypher n none)

    -- `run_union`, and the query of `execute`
    unfoldable pub run_core : (again : AstNode → Action Table) → AstNode → Action Table
    unfolding run_side run_query unique_rows ◌>>=◌
    run_core again (union left right distinct) = run_side again left >>= λ (l : Table).
        run_side again right >>= λ (r : Table).
        let rows = l.1 ++ r.1 in done (l.0, if distinct then unique_rows [] rows else rows)
    run_core again (query cs) = run_query texts ev params cs
    run_core again _ = raised (execute_error "CG1702")

  abbrev inside : AstNode → AstNode
  inside (cypher n version) = n
  inside n = n

  -- `execute`, with unions nested at most as deep as the fuel, and `depth` that of `eval_expr`. A
  -- side of a union that is no query is lowered again.
  unfoldable pub execute : (fuel depth : ℕ) → Texts → AstNode → (params : Row) → Action Table
  unfolding lower_to_core eval_expr run_core ◌>>=◌
  execute zero depth texts tree params = raised nontermination
  execute (suc k) depth texts tree params = reading (λ g. lower_to_core tree) >>= λ core.
      run_core texts (eval_expr depth texts) params (λ n. execute k depth texts n params)
        (inside core)
