-- ===== src/Optimizer/Simplify/Sound.antt =====
-- The simplified tree has the value of the original one, wherever that has a value.
use cypherast.Prelude.{
  String, ◌≡◌, refl, Bool, Option, none, some, List, [], All, also, All-of_append,
}
use cypherast.Prelude.Result.{Result, ok, err, ◌>>=◌}
use cypherast.Ast.{
  AstNode, AstNodes, OptNode, ProjectionEntries, nil, cons, absent, present, finish, node_entry,
  pair_entry, name_entry, null, star, boolean, integer, float, string, parameter, identifier,
  property, property_selector, label_predicate, label_expression, map_literal, list_literal,
  list_subscript, list_slice, alias, binary, regex_match, not_expr, neg, is_null, function_call,
  case_expr, coalesce, list_comprehension, quantifier, pattern_comprehension, map_projection,
  pattern_predicate, BinaryOp, add, sub, mul, div, modulo, pow, eq, neq, lt, lte, gt, gte, and, or,
  xor, is_in, starts_with, ends_with, contains,
}
use cypherast.Ast.Walk.{below, below_list, below_opt, walk}
use cypherast.Ast.Transform.{transform, transform_list, transform_opt, transform_entries}
use cypherast.Executor.Value.{Value}
use cypherast.Executor.Python.{is_null as null_value, cypher_true}
use cypherast.Executor.Env.{Env, Builtins, binary_value, truth, and3, or3, iterate, bind, props_of}
use cypherast.Executor.Eval.{
  eval, eval_list, eval_coalesce, eval_arms, eval_matching, eval_default, eval_condition,
  eval_all_condition, eval_projected, eval_bound, eval_projection,
}
use cypherast.Optimizer.Simplify.{simplify_node, simplify}
use cypherast.Optimizer.Simplify.Refines.{
  ◌⊑◌, if-⊑, failed, same, ⊑-trans, ⊑-ok, bind-⊑, first-⊑, rest-⊑, comprehend-⊑, quantify-⊑,
}
use cypherast.Optimizer.Simplify.Local.{
  IsTruth, eval-and_node, eval-or_node, not_node-⊑, is_null_node-⊑, add_node-⊑, mul_node-⊑,
  eq_node-⊑,
}

module _ (py : Builtins) (engine : AstNode → Env → Result Value) where
  -- Whatever the expression evaluates to is a truth value.
  abbrev pub IsLogical : AstNode → Type 0
  IsLogical n = (env : Env) (v : Value) → eval py engine n env ≡ ok v → IsTruth v

  -- The entries of a map projection that are nodes are those that the parser makes.
  abbrev pub IsProjection : ProjectionEntries → Type 0
  IsProjection finish = Unit
  IsProjection (node_entry star es) = IsProjection es
  IsProjection (node_entry (property_selector _) es) = IsProjection es
  IsProjection (node_entry _ es) = ⊥
  IsProjection (pair_entry _ _ es) = IsProjection es
  IsProjection (name_entry _ es) = IsProjection es

  abbrev pub IsIdentifier : AstNode → Type 0
  IsIdentifier (identifier _) = Unit
  IsIdentifier _ = ⊥

  abbrev pub IsLabels : AstNode → Type 0
  IsLabels (label_expression _ _) = Unit
  IsLabels _ = ⊥

  -- What the simplifier relies on at one node: the operands of AND and OR are truth values, and the
  -- node has the shape that the parser gives it. Patterns inside an expression are excluded.
  abbrev pub IsPlain : AstNode → Type 0
  IsPlain (binary and l r) = IsLogical l × IsLogical r
  IsPlain (binary or l r) = IsLogical l × IsLogical r
  IsPlain (quantifier _ variable _ _) = IsIdentifier variable
  IsPlain (list_comprehension variable _ _ _) = IsIdentifier variable
  IsPlain (label_predicate _ labels) = IsLabels labels
  IsPlain (map_projection _ es) = IsProjection es
  IsPlain (pattern_comprehension _ _ _ _) = ⊥
  IsPlain (pattern_predicate _ _) = ⊥
  IsPlain _ = Unit

  abbrev s : AstNode → AstNode
  s = simplify_node py.floats

  abbrev Plain : List AstNode → Type 0
  Plain = All IsPlain

  abbrev ev : AstNode → Env → Result Value
  ev = eval py engine

  both :
      (op : BinaryOp) (l r l' r' : AstNode) (env : Env)
      → ev l env ⊑ ev l' env
      → ev r env ⊑ ev r' env
      → (ev l env >>= λ x. ev r env >>= λ y. binary_value py op x y)
        ⊑ (ev l' env >>= λ x. ev r' env >>= λ y. binary_value py op x y)
  both op l r l' r' env h k = bind-⊑ h (λ x. first-⊑ (λ y. binary_value py op x y) k)

  -- A connective, given what its operands evaluate to and that they are truth values.
  connective :
      (op : BinaryOp) (connect : Option Bool → Option Bool → Option Bool) (l r l' r' n : AstNode)
      (env : Env)
      → IsLogical l
      → IsLogical r
      → ((x y : Value)
          → ev l' env ≡ ok x
          → ev r' env ≡ ok y
          → IsTruth x
          → IsTruth y
          → ev n env ≡ ok (truth (connect (cypher_true x) (cypher_true y))))
      → ((x y : Value)
          → binary_value py op x y ≡ ok (truth (connect (cypher_true x) (cypher_true y))))
      → ev l env ⊑ ev l' env
      → ev r env ⊑ ev r' env
      → (ev l env >>= λ x. ev r env >>= λ y. binary_value py op x y) ⊑ ev n env
  connective op connect l r l' r' n env hl hr folded meaning p q =
      by (ev l env) (ev r env) refl refl
    where
      by :
          (a b : Result Value)
          → ev l env ≡ a
          → ev r env ≡ b
          → (a >>= λ x. b >>= λ y. binary_value py op x y) ⊑ ev n env
      by (err e) b ea eb = failed
      by (ok x) (err e) ea eb = failed
      by (ok x) (ok y) ea eb =
          rw (meaning x y, folded x y (⊑-ok p ea) (⊑-ok q eb) (hl env x ea) (hr env y eb)) same

  mutual
    unfolding transform eval simplify_node below

    sound : (n : AstNode) → Plain (walk n) → (env : Env) → ev n env ⊑ ev (transform s n) env
    sound null h env = same
    sound star h env = same
    sound (boolean b) h env = same
    sound (integer i) h env = same
    sound (float d) h env = same
    sound (string x) h env = same
    sound (parameter x) h env = same
    sound (identifier x) h env = same
    sound (property e x) (also p h) env = first-⊑ _ (sound e h env)
    sound (list_literal es) (also p h) env = first-⊑ _ (sound_list es h env)
    sound (map_literal es) (also p h) env = same
    sound (binary and l r) (also p h) env =
        let (hl, hr) = All-of_append (walk l) h in
        let l' = transform s l in
        let r' = transform s r in
        connective and and3 l r l' r' (s (binary and l' r')) env p.0 p.1
          (eval-and_node py engine env l' r') (λ x y. refl) (sound l hl env) (sound r hr env)
    sound (binary or l r) (also p h) env =
        let (hl, hr) = All-of_append (walk l) h in
        let l' = transform s l in
        let r' = transform s r in
        connective or or3 l r l' r' (s (binary or l' r')) env p.0 p.1
          (eval-or_node py engine env l' r') (λ x y. refl) (sound l hl env) (sound r hr env)
    sound (binary add l r) (also p h) env =
        let (hl, hr) = All-of_append (walk l) h in
        ⊑-trans (both add l r (transform s l) (transform s r) env (sound l hl env) (sound r hr env))
          (add_node-⊑ py engine env (transform s l) (transform s r))
    sound (binary mul l r) (also p h) env =
        let (hl, hr) = All-of_append (walk l) h in
        ⊑-trans (both mul l r (transform s l) (transform s r) env (sound l hl env) (sound r hr env))
          (mul_node-⊑ py engine env (transform s l) (transform s r))
    sound (binary eq l r) (also p h) env =
        let (hl, hr) = All-of_append (walk l) h in
        ⊑-trans (both eq l r (transform s l) (transform s r) env (sound l hl env) (sound r hr env))
          (eq_node-⊑ py engine env (transform s l) (transform s r))
    sound (binary regex_match l r) h env = same
    sound (binary sub l r) (also p h) env =
        let (hl, hr) = All-of_append (walk l) h in
        both sub l r (transform s l) (transform s r) env (sound l hl env) (sound r hr env)
    sound (binary div l r) (also p h) env =
        let (hl, hr) = All-of_append (walk l) h in
        both div l r (transform s l) (transform s r) env (sound l hl env) (sound r hr env)
    sound (binary modulo l r) (also p h) env =
        let (hl, hr) = All-of_append (walk l) h in
        both modulo l r (transform s l) (transform s r) env (sound l hl env) (sound r hr env)
    sound (binary pow l r) (also p h) env =
        let (hl, hr) = All-of_append (walk l) h in
        both pow l r (transform s l) (transform s r) env (sound l hl env) (sound r hr env)
    sound (binary neq l r) (also p h) env =
        let (hl, hr) = All-of_append (walk l) h in
        both neq l r (transform s l) (transform s r) env (sound l hl env) (sound r hr env)
    sound (binary lt l r) (also p h) env =
        let (hl, hr) = All-of_append (walk l) h in
        both lt l r (transform s l) (transform s r) env (sound l hl env) (sound r hr env)
    sound (binary lte l r) (also p h) env =
        let (hl, hr) = All-of_append (walk l) h in
        both lte l r (transform s l) (transform s r) env (sound l hl env) (sound r hr env)
    sound (binary gt l r) (also p h) env =
        let (hl, hr) = All-of_append (walk l) h in
        both gt l r (transform s l) (transform s r) env (sound l hl env) (sound r hr env)
    sound (binary gte l r) (also p h) env =
        let (hl, hr) = All-of_append (walk l) h in
        both gte l r (transform s l) (transform s r) env (sound l hl env) (sound r hr env)
    sound (binary xor l r) (also p h) env =
        let (hl, hr) = All-of_append (walk l) h in
        both xor l r (transform s l) (transform s r) env (sound l hl env) (sound r hr env)
    sound (binary is_in l r) (also p h) env =
        let (hl, hr) = All-of_append (walk l) h in
        both is_in l r (transform s l) (transform s r) env (sound l hl env) (sound r hr env)
    sound (binary starts_with l r) (also p h) env =
        let (hl, hr) = All-of_append (walk l) h in
        both starts_with l r (transform s l) (transform s r) env (sound l hl env) (sound r hr env)
    sound (binary ends_with l r) (also p h) env =
        let (hl, hr) = All-of_append (walk l) h in
        both ends_with l r (transform s l) (transform s r) env (sound l hl env) (sound r hr env)
    sound (binary contains l r) (also p h) env =
        let (hl, hr) = All-of_append (walk l) h in
        both contains l r (transform s l) (transform s r) env (sound l hl env) (sound r hr env)
    sound (not_expr e) (also p h) env =
        ⊑-trans (first-⊑ _ (sound e h env)) (not_node-⊑ py engine env (transform s e))
    sound (neg e) (also p h) env = first-⊑ _ (sound e h env)
    sound (is_null e not_) (also p h) env =
        ⊑-trans (first-⊑ _ (sound e h env)) (is_null_node-⊑ py engine env (transform s e) not_)
    sound (case_expr absent arms default) (also p h) env =
        rest-⊑ (eval_arms py engine arms env)
          (elim [ some v ↦ same | none ↦ sound_default default h env ])
    sound (case_expr (present e) arms default) (also p h) env =
        let (he, hd) = All-of_append (walk e) h in
        bind-⊑ (sound e he env) (λ v.
          rest-⊑ (eval_matching py engine v arms env)
            (elim [ some w ↦ same | none ↦ sound_default default hd env ]))
    sound (quantifier name (identifier x) source condition) (also p (also q h)) env =
        let (hs, hc) = All-of_append (walk source) h in
        bind-⊑ (sound source hs env) (λ src. if-⊑ (null_value src) same (
          rest-⊑ (iterate src) (
            quantify-⊑ name (λ v. sound_all_condition condition hc v (bind x v env))
              (λ v. sound_condition condition hc (bind x v env)))))
    sound (quantifier name _ source condition) (also p h) env = absurd p
    sound (function_call name args distinct) (also p h) env = first-⊑ _ (sound_list args h env)
    sound (coalesce es) (also p h) env = sound_coalesce es h env
    sound (list_subscript e index) (also p h) env =
        let (he, hi) = All-of_append (walk e) h in
        bind-⊑ (sound e he env) (λ v. first-⊑ _ (sound index hi env))
    sound (list_slice e start stop) (also p h) env =
        let (he, hr) = All-of_append (walk e) h in
        let (h₁, h₂) = All-of_append (below_opt start) hr in
        bind-⊑ (sound e he env) (λ v.
          if-⊑ (null_value v) same
            (bind-⊑ (sound_bound start h₁ env) (λ from. first-⊑ _ (sound_bound stop h₂ env))))
    sound (label_predicate e (label_expression ls x)) (also p h) env =
        first-⊑ _ (sound e (All-of_append (walk e) h).0 env)
    sound (label_predicate e _) (also p h) env = absurd p
    sound (map_projection e entries) (also p h) env =
        let (he, hs) = All-of_append (walk e) h in
        bind-⊑ (sound e he env) (λ base.
          if-⊑ (null_value base) same
            (first-⊑ _ (sound_projection entries p (props_of env.graph base) [] env)))
    sound (list_comprehension (identifier x) source condition projection) (also p (also q h)) env =
        let (hs, hr) = All-of_append (walk source) h in
        let (hc, hp) = All-of_append (below_opt condition) hr in
        bind-⊑ (sound source hs env) (λ src. if-⊑ (null_value src) same (
          rest-⊑ (iterate src) (λ vs. first-⊑ _ (
            comprehend-⊑ (λ v. sound_condition condition hc (bind x v env))
              (λ v. sound_projected projection hp v (bind x v env)) vs))))
    sound (list_comprehension _ source condition projection) (also p h) env = absurd p
    sound (pattern_comprehension _ _ _ _) (also p h) env = absurd p
    sound (pattern_predicate _ _) (also p h) env = absurd p
    sound (alias e name) (also p h) env = sound e (All-of_append (walk e) h).0 env
    sound _ h env = failed

    sound_list :
        (es : AstNodes)
        → Plain (below_list es)
        → (env : Env) → eval_list py engine es env ⊑ eval_list py engine (transform_list s es) env
    sound_list nil h env = same
    sound_list (cons e es) h env =
        let (he, hs) = All-of_append (walk e) h in
        bind-⊑ (sound e he env) (λ v. first-⊑ _ (sound_list es hs env))

    sound_coalesce :
        (es : AstNodes)
        → Plain (below_list es)
        → (env : Env)
        → eval_coalesce py engine es env ⊑ eval_coalesce py engine (transform_list s es) env
    sound_coalesce nil h env = same
    sound_coalesce (cons e es) h env =
        let (he, hs) = All-of_append (walk e) h in
        bind-⊑ (sound e he env) (λ v. if-⊑ (null_value v) (sound_coalesce es hs env) same)

    sound_default :
        (o : OptNode)
        → Plain (below_opt o)
        → (env : Env)
        → eval_default py engine o env ⊑ eval_default py engine (transform_opt s o) env
    sound_default absent h env = same
    sound_default (present e) h env = sound e h env

    sound_condition :
        (o : OptNode)
        → Plain (below_opt o)
        → (env : Env)
        → eval_condition py engine o env ⊑ eval_condition py engine (transform_opt s o) env
    sound_condition absent h env = same
    sound_condition (present e) h env = first-⊑ _ (sound e h env)

    sound_all_condition :
        (o : OptNode)
        → Plain (below_opt o)
        → (v : Value) (env : Env)
        → eval_all_condition py engine o v env
          ⊑ eval_all_condition py engine (transform_opt s o) v env
    sound_all_condition absent h v env = same
    sound_all_condition (present e) h v env = first-⊑ _ (sound e h env)

    sound_projected :
        (o : OptNode)
        → Plain (below_opt o)
        → (v : Value) (env : Env)
        → eval_projected py engine o v env ⊑ eval_projected py engine (transform_opt s o) v env
    sound_projected absent h v env = same
    sound_projected (present e) h v env = sound e h env

    sound_bound :
        (o : OptNode)
        → Plain (below_opt o)
        → (env : Env) → eval_bound py engine o env ⊑ eval_bound py engine (transform_opt s o) env
    sound_bound absent h env = same
    sound_bound (present e) h env = first-⊑ _ (sound e h env)

    sound_projection :
        (es : ProjectionEntries)
        → IsProjection es
        → (base : Option (List (String × Value))) (m : List (String × Value)) (env : Env)
        → eval_projection py engine es base m env
          ⊑ eval_projection py engine (transform_entries s es) base m env
    sound_projection finish p base m env = same
    sound_projection (node_entry star es) p base m env = sound_projection es p base _ env
    sound_projection (node_entry (property_selector x) es) p base m env =
        sound_projection es p base _ env
    sound_projection (node_entry _ es) p base m env = absurd p
    sound_projection (pair_entry k e es) p base m env =
        rest-⊑ (ev e env) (λ v. sound_projection es p base _ env)
    sound_projection (name_entry x es) p base m env = sound_projection es p base m env

-- Simplification changes no value: where the original expression evaluates to a value, the
-- simplified one evaluates to the same value. It needs that the operands of AND and OR, wherever
-- they have a value, are truth values or NULL, and that the expression holds no pattern.
pub simplify_sound :
    (py : Builtins) (engine : AstNode → Env → Result Value) (n : AstNode) (env : Env) (v : Value)
    → All (IsPlain py engine) (walk n)
    → eval py engine n env ≡ ok v
    → eval py engine (simplify py.floats n) env ≡ ok v
unfolding simplify
simplify_sound py engine n env v h p = ⊑-ok (sound py engine n h env) p
