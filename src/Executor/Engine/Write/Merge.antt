-- ===== src/Executor/Engine/Write/Merge.antt =====
-- MERGE and FOREACH of cypherast/executor/engine.py: `_merge` and `_foreach`, and the clauses that
-- change the graph on all the rows. A value that FOREACH runs through is a list of Python's.
use cypherast.Prelude.{String, List, [], ◌∷◌, none, some, if◌then◌else◌}
use cypherast.Prelude.Dict.{lookup, insert, remove, string_eq}
use cypherast.Prelude.Result.{Result, execute_error}
use cypherast.Ast.{
  AstNode, AstNodes, nil, cons, identifier, create, merge, set_clause, delete, remove_clause,
  foreach, on_create, on_match,
}
use cypherast.Executor.Value.{Value, Values, empty, item}
use cypherast.Executor.Python.{is_null}
use cypherast.Executor.Env.{Env, Builtins, iterate}
use cypherast.Executor.Engine.Row.{Row, env_of}
use cypherast.Executor.Engine.Action.{Action, done, raised, reading, ◌>>=◌}
use cypherast.Executor.Engine.Match.Paths.{match_pattern}
use cypherast.Executor.Engine.Write.{
  create_pattern, create_paths, set_items, delete_items, remove_items,
}

abbrev pub variable_name : AstNode → String
variable_name (identifier x) = x
variable_name _ = "_foreach"

-- {k: v for k, v in current.items() if k != var_name or k in row}
abbrev pub left_by : String → Row → Row → Row
left_by x row current = elim (lookup x row) [ none ↦ remove x current | some v ↦ current ]

-- for item in items: current[x] = item; ...
unfoldable pub in_turn : (Row → Action Row) → String → Values → Row → Action Row
unfolding insert ◌>>=◌
in_turn f x empty row = done row
in_turn f x (item v vs) row = f (insert x v row) >>= in_turn f x vs

module _ (py : Builtins) (ev : AstNode → Env → Result Value) (params : Row) where
  abbrev set_each : AstNodes → Row → Action Row
  set_each nil row = done row
  set_each (cons (set_clause items) ss) row = set_items ev params items row >>= set_each ss
  set_each (cons _ ss) row = set_each ss row

  abbrev matched_actions : AstNodes → Row → Action Row
  matched_actions nil row = done row
  matched_actions (cons (on_match ss) rest) row = set_each ss row >>= matched_actions rest
  matched_actions (cons _ rest) row = matched_actions rest row

  abbrev created_actions : AstNodes → Row → Action Row
  created_actions nil row = done row
  created_actions (cons (on_create ss) rest) row = set_each ss row >>= created_actions rest
  created_actions (cons _ rest) row = created_actions rest row

  -- `_merge` on one row: the first match, or the pattern created
  unfoldable pub merge_row : AstNode → (actions : AstNodes) → Row → Action Row
  unfolding match_pattern create_paths set_items ◌>>=◌
  merge_row pat actions row = reading (λ g. match_pattern py ev params g pat row) >>= merged
    where
      merged : List Row → Action Row
      merged [] = create_pattern ev params pat row >>= created_actions actions
      merged (r ∷ rs) = matched_actions actions r

  -- `_foreach` on one row, `bodies` what runs for each item
  unfoldable pub foreach_row :
      (bodies : Row → Action Row) → (variable expression : AstNode) → Row → Action Row
  unfolding in_turn iterate is_null lookup remove ◌>>=◌
  foreach_row bodies x e row = reading (λ g. ev e (env_of params g row)) >>= λ seq.
      if is_null seq
      then done row
      else reading (λ g. iterate seq) >>= λ vs.
          in_turn bodies (variable_name x) vs row >>= λ current.
          done (left_by (variable_name x) row current)

  -- The clauses in a FOREACH; the value is bound anew for each item.
  unfoldable mutual
    unfolding merge_row create_paths set_items delete_items remove_items foreach_row ◌>>=◌

    pub foreach_body : AstNode → Row → Action Row
    foreach_body (create pat) row = create_pattern ev params pat row
    foreach_body (merge pat actions) row = merge_row pat actions row
    foreach_body (set_clause items) row = set_items ev params items row
    foreach_body (delete es detach) row = delete_items ev params es detach row
    foreach_body (remove_clause is) row = remove_items ev params is row
    foreach_body (foreach x e clauses) row = foreach_row (foreach_bodies clauses) x e row
    foreach_body _ row = raised (execute_error "CG1702")

    pub foreach_bodies : AstNodes → Row → Action Row
    foreach_bodies nil row = done row
    foreach_bodies (cons c cs) row = foreach_body c row >>= foreach_bodies cs
