-- ===== src/Executor/Engine/Match/Rows.antt =====
-- How many rows an OPTIONAL MATCH passes on.
use cypherast.Prelude.{◌≡◌, ap, subst, true, List, [], ◌∷◌, ◌++◌, ◌≤◌, arith, length, length-append}
use cypherast.Prelude.Result.{Result, ok}
use cypherast.Ast.{AstNode, OptNode}
use cypherast.Executor.Value.{Value}
use cypherast.Executor.Graph.{Graph}
use cypherast.Executor.Env.{Env, Builtins}
use cypherast.Executor.Engine.Row.{Row, flat_map_result, filter_result}
use cypherast.Prelude.Result.{bound-ok, ok-injective}
use cypherast.Executor.Engine.Match.Paths.{
  match_rows, match_row, match_pattern, passes, merged_all, or_nulls,
}

module _ {ℓ κ} {A : Type ℓ} {B : Type κ} where
  -- A loop each of whose steps gives something gives at least as much as it took.
  flat_map-length :
      (f : A → Result (List B))
      → ((x : A) (ys : List B) → f x ≡ ok ys → 1 ≤ length ys)
      → (xs : List A) {out : List B} → flat_map_result f xs ≡ ok out
      → length xs ≤ length out
  flat_map-length f h [] e = omega arith
  flat_map-length f h (x ∷ xs) {out} e =
      let (ys, p, e1) = bound-ok (f x) _ e in
      let (zs, q, e2) = bound-ok (flat_map_result f xs) _ e1 in
      let is : ys ++ zs ≡ out = ok-injective e2 in
      omega (arith, h x ys p, flat_map-length f h xs q, length-append ys zs, ap length is)

module _ (py : Builtins) (ev : AstNode → Env → Result Value) (params : Row) (g : Graph) where
  or_nulls-length :
      (pat : AstNode) (row : Row) (ms : List Row)
      → 1 ≤ length (or_nulls py ev params g true pat row ms)
  or_nulls-length pat row [] = omega arith
  or_nulls-length pat row (m ∷ ms) = omega arith

  optional-length :
      (pat : AstNode) (condition : OptNode) (row : Row) (out : List Row)
      → match_row py ev params g pat true condition row ≡ ok out
      → 1 ≤ length out
  unfolding match_row
  optional-length pat condition row out e =
      let (ms, p, e1) = bound-ok (match_pattern py ev params g pat row) _ e in
      let (left, q, e2) =
        bound-ok
          (filter_result (passes py ev params g condition) (merged_all py ev params g row ms)) _
          e1 in
      subst (λ rows. 1 ≤ length rows) (ok-injective e2) (or_nulls-length pat row left)

  -- An OPTIONAL MATCH that does not raise passes on at least one row for each row it takes.
  pub optional_match-keeps_rows :
      (pat : AstNode) (condition : OptNode) (rows : List Row) {out : List Row}
      → match_rows py ev params g pat true condition rows ≡ ok out
      → length rows ≤ length out
  unfolding match_rows
  optional_match-keeps_rows pat condition rows e =
      flat_map-length (match_row py ev params g pat true condition) (optional-length pat condition)
        rows e
