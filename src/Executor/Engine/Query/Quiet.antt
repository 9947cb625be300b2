-- ===== src/Executor/Engine/Query/Quiet.antt =====
-- A query that creates nothing: its other clauses may change and delete what is there.
use cypherast.Prelude.{String, ◌≡◌, refl, Bool, true, false, ◌&&◌, List, [], ◌∷◌, if◌then◌else◌}
use cypherast.Prelude.Result.{Result, execute_error}
use cypherast.Ast.{
  AstNode, AstNodes, nil, cons, match_clause, with_clause, return_clause, unwind, create, merge,
  set_clause, delete, remove_clause, foreach, call_subquery, call_procedure, query, cypher,
}
use cypherast.Executor.Value.{Value, Values, empty, item}
use cypherast.Executor.Graph.{Graph}
use cypherast.Executor.Python.{is_null}
use cypherast.Executor.Env.{Env, Builtins, iterate}
use cypherast.Executor.Engine.Row.{Row, env_of}
use cypherast.Executor.Engine.Action.{Action, done, reading, ◌>>=◌}
use cypherast.Executor.Engine.Sound.{IsSound}
use cypherast.Executor.Engine.Project.{Texts}
use cypherast.Executor.Engine.Write.Keeps.{
  Keeps, Keeps-done, Keeps-raised, Keeps-reading, Keeps-bind, Keeps-each, set_items-Keeps,
  delete_items-Keeps, remove_items-Keeps,
}
use cypherast.Executor.Engine.Write.Creates.{ended}
use cypherast.Executor.Engine.Write.Merge.{
  foreach_body, foreach_bodies, foreach_row, in_turn, left_by, variable_name,
}
use cypherast.Executor.Engine.Query.{Table, passed, run_clause, run_clauses, run_query, no_table}

-- No CREATE and no MERGE stands in the clause, its FOREACH bodies and its subqueries.
unfoldable mutual
  pub is_quiet : AstNode → Bool
  is_quiet (create _) = false
  is_quiet (merge _ _) = false
  is_quiet (foreach x e cs) = all_quiet cs
  is_quiet (call_subquery q variables optional in_transactions n) = is_quiet_query q
  is_quiet _ = true

  is_quiet_query : AstNode → Bool
  is_quiet_query (query cs) = all_quiet cs
  is_quiet_query (cypher q v) = is_quiet_query q
  is_quiet_query _ = true

  pub all_quiet : AstNodes → Bool
  all_quiet nil = true
  all_quiet (cons c cs) = is_quiet c && all_quiet cs

both_true : (a b : Bool) → (a && b) ≡ true → (a ≡ true) × (b ≡ true)
both_true true b h = (refl, h)
both_true false b h = cc

in_turn-Keeps :
    (f : Row → Action Row)
    → ((r : Row) → Keeps (f r))
    → (x : String) (vs : Values) (row : Row) → Keeps (in_turn f x vs row)
unfolding in_turn
in_turn-Keeps f k x empty row = Keeps-done row
in_turn-Keeps f k x (item v vs) row = Keeps-bind (k _) (λ r. in_turn-Keeps f k x vs r)

module _ (py : Builtins) (ev : AstNode → Env → Result Value) (params : Row) where
  foreach_row-Keeps :
      (f : Row → Action Row)
      → ((r : Row) → Keeps (f r))
      → (x e : AstNode) (row : Row) → Keeps (foreach_row py ev params f x e row)
  unfolding foreach_row
  foreach_row-Keeps f k x e row =
      Keeps-bind (Keeps-reading (λ g. ev e (env_of params g row))) (λ seq. run seq (is_null seq))
    where
      run :
          (seq : Value) (b : Bool)
          → Keeps (
              if b
              then done row
              else (reading (λ g. iterate seq) >>= λ vs.
                  in_turn f (variable_name x) vs row >>= λ current.
                  done (left_by (variable_name x) row current)))
      run seq true = Keeps-done row
      run seq false = Keeps-bind (Keeps-reading (λ g. iterate seq)) (λ vs.
          Keeps-bind (in_turn-Keeps f k (variable_name x) vs row)
            (λ r. Keeps-done (left_by (variable_name x) row r)))

  mutual
    unfolding foreach_body foreach_bodies is_quiet all_quiet

    foreach_body-Keeps :
        (c : AstNode) → is_quiet c ≡ true → (row : Row) → Keeps (foreach_body py ev params c row)
    foreach_body-Keeps (create pat) q row = cc
    foreach_body-Keeps (merge pat actions) q row = cc
    foreach_body-Keeps (set_clause items) q row = set_items-Keeps ev params items row
    foreach_body-Keeps (delete es detach) q row = delete_items-Keeps ev params es detach row
    foreach_body-Keeps (remove_clause is) q row = remove_items-Keeps ev params is row
    foreach_body-Keeps (foreach x e cs) q row =
        foreach_row-Keeps (foreach_bodies py ev params cs) (λ r. foreach_bodies-Keeps cs q r) x e
          row
    foreach_body-Keeps _ q row = Keeps-raised (execute_error "CG1702")

    foreach_bodies-Keeps :
        (cs : AstNodes)
        → all_quiet cs ≡ true
        → (row : Row) → Keeps (foreach_bodies py ev params cs row)
    foreach_bodies-Keeps nil q row = Keeps-done row
    foreach_bodies-Keeps (cons c cs) q row =
        let (here, rest) = both_true (is_quiet c) (all_quiet cs) q in
        Keeps-bind (foreach_body-Keeps c here row) (λ r. foreach_bodies-Keeps cs rest r)

module _ (py : Builtins) (texts : Texts) (ev : AstNode → Env → Result Value) (params : Row) where
  passed-Keeps :
      (t : Table) (m : Action (List Row)) → Keeps m → Keeps (passed py texts ev params t m)
  unfolding passed
  passed-Keeps t m k = Keeps-bind k (λ rows. Keeps-done (t, rows))

  mutual
    unfolding run_clause run_clauses is_quiet is_quiet_query all_quiet passed

    run_clause-Keeps :
        (c : AstNode)
        → is_quiet c ≡ true
        → (t : Table) (rows : List Row) → Keeps (run_clause py texts ev params c t rows)
    run_clause-Keeps (create pat) q t rows = cc
    run_clause-Keeps (merge pat actions) q t rows = cc
    run_clause-Keeps (match_clause pat optional condition hints search_of) q t rows =
        passed-Keeps t _ (Keeps-reading _)
    run_clause-Keeps (with_clause es distinct condition order_of skip_of limit_of group_by_of) q t
          rows =
        passed-Keeps t _ (Keeps-reading _)
    run_clause-Keeps (unwind e x) q t rows = passed-Keeps t _ (Keeps-reading _)
    run_clause-Keeps (set_clause is) q t rows =
        passed-Keeps t _ (Keeps-each _ (λ r. set_items-Keeps ev params is r) rows)
    run_clause-Keeps (delete es detach) q t rows =
        passed-Keeps t _ (Keeps-each _ (λ r. delete_items-Keeps ev params es detach r) rows)
    run_clause-Keeps (remove_clause is) q t rows =
        passed-Keeps t _ (Keeps-each _ (λ r. remove_items-Keeps ev params is r) rows)
    run_clause-Keeps (foreach x e cs) q t rows =
        passed-Keeps t _
          (Keeps-each _ (λ r. foreach_body-Keeps py ev params (foreach x e cs) q r) rows)
    run_clause-Keeps (call_subquery (query cs) variables optional in_transactions n) q t rows =
        Keeps-bind (run_clauses-Keeps cs q _ _) (λ inner. Keeps-done (t, rows))
    run_clause-Keeps
          (call_subquery (cypher (query cs) version) variables optional in_transactions n) q t
          rows =
        Keeps-bind (run_clauses-Keeps cs q _ _) (λ inner. Keeps-done (t, rows))
    run_clause-Keeps (call_subquery _ variables optional in_transactions n) q t rows =
        Keeps-done (t, rows)
    run_clause-Keeps (call_procedure name args y condition) q t rows =
        passed-Keeps t _ (Keeps-reading _)
    run_clause-Keeps (return_clause es distinct order_of skip_of limit_of group_by_of) q t rows =
        Keeps-bind (Keeps-reading _) (λ table. Keeps-done (table, []))
    run_clause-Keeps _ q t rows = Keeps-raised (execute_error "CG1702")

    run_clauses-Keeps :
        (cs : AstNodes)
        → all_quiet cs ≡ true
        → (t : Table) (rows : List Row) → Keeps (run_clauses py texts ev params cs t rows)
    run_clauses-Keeps nil q t rows = Keeps-done t
    run_clauses-Keeps (cons c cs) q t rows =
        let (here, rest) = both_true (is_quiet c) (all_quiet cs) q in
        Keeps-bind (run_clause-Keeps c here t rows)
          (λ next. run_clauses-Keeps cs rest next.0 next.1)

  -- A query without CREATE and MERGE, in its FOREACH bodies and subqueries as well, leaves a sound
  -- graph sound, whether it raises or not.
  pub run_query-keeps :
      (cs : AstNodes) {g : Graph}
      → all_quiet cs ≡ true
      → IsSound g
      → IsSound (run_query py texts ev params cs g).1
  unfolding run_query
  run_query-keeps cs {g} q s =
      ended (λ t. IsSound) (λ t h s. s) (run_clauses py texts ev params cs no_table ([] ∷ []) g)
        ((run_clauses-Keeps cs q no_table ([] ∷ [])).ends g s)
