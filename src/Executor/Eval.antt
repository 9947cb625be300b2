-- ===== src/Executor/Eval.antt =====
-- `eval_expr` of cypherast/executor/env.py. The two forms that run a pattern (`PatternComprehension`
-- and `PatternPredicate`) call the engine, which is the argument `engine` here. A clause, or any
-- other node that is no expression, raises ExecuteError CG1702.
use cypherast.Prelude.{
  String, Bool, true, false, not, ◌&&◌, ◌||◌, List, [], ◌∷◌, Option, none, some, if◌then◌else◌,
}
use cypherast.Prelude.Int.{ℤ, pos}
use cypherast.Prelude.Text.{lower_eq}
use cypherast.Prelude.Dict.{lookup, insert, string_eq}
use cypherast.Prelude.Result.{
  Result, ok, err, execute_error, type_error, index_error, key_error, ◌>>=◌,
}
use cypherast.Ast.{
  AstNode, AstNodes, nil, cons, OptNode, absent, present, Entries, end, entry, Arms, no_arm, arm,
  ProjectionEntries, finish, node_entry, pair_entry, name_entry, null, star, boolean, integer,
  float, string, parameter, identifier, property, property_selector, label_predicate, map_literal,
  list_literal, list_subscript, list_slice, alias, binary, regex_match, not_expr, neg, is_null,
  function_call, case_expr, coalesce, list_comprehension, quantifier, pattern_comprehension,
  map_projection, pattern_predicate,
}
use cypherast.Executor.Value.{
  Value, nothing, flag, int, double, text, items, dict, Values, empty, item,
}
use cypherast.Executor.Python.{is_null as null_value, truthy, cypher_true, py_neg, py_eq}
use cypherast.Executor.Env.{
  Env, bind, bound, Builtins, get_property, truth, not3, binary_value, iterate, subscript, slice,
  has_labels, labels_in, name_of, or_null, fields, props_of,
}
use cypherast.Executor.Functions.{call}

-- cypher_true(v) is True
abbrev pub is_true : Option Bool → Bool
is_true (some true) = true
is_true _ = false

-- bool(cypher_true(v))
abbrev pub holds : Value → Bool
holds v = is_true (cypher_true v)

-- The items that pass the filter, each projected, in order.
unfoldable pub comprehend : (Value → Result Bool) → (Value → Result Value) → Values → Result Values
comprehend keep project empty = ok empty
comprehend keep project (item v vs) = keep v >>= elim [
  | true ↦ project v >>= λ w. comprehend keep project vs >>= λ ws. ok (item w ws)
  | false ↦ comprehend keep project vs
]

-- all(...) stops at the first item that fails
unfoldable pub for_all : (Value → Result Bool) → Values → Result Bool
for_all test empty = ok true
for_all test (item v vs) = test v >>= elim [ true ↦ for_all test vs | false ↦ ok false ]

-- any(...) stops at the first item that passes
unfoldable pub for_any : (Value → Result Bool) → Values → Result Bool
for_any test empty = ok false
for_any test (item v vs) = test v >>= elim [ true ↦ ok true | false ↦ for_any test vs ]

-- single(...): the item found, NULL if there is none, and NULL at the second
unfoldable pub for_single : (Value → Result Bool) → (found : Option Value) → Values → Result Value
for_single test found empty = ok (or_null found)
for_single test none (item v vs) =
    test v >>= elim [ true ↦ for_single test (some v) vs | false ↦ for_single test none vs ]
for_single test (some w) (item v vs) =
    test v >>= elim [ true ↦ ok nothing | false ↦ for_single test (some w) vs ]

-- `_eval_quantifier`, with the test of an item and the one used by `all` without a predicate
unfoldable pub quantify : String → (all_test test : Value → Result Bool) → Values → Result Value
unfolding lower_eq for_all for_any for_single
quantify name all_test test vs =
    if lower_eq name "all"
    then for_all all_test vs >>= (λ b. ok (flag b))
    else if lower_eq name "any"
    then for_any test vs >>= (λ b. ok (flag b))
    else if lower_eq name "none"
    then for_any test vs >>= (λ b. ok (flag (not b)))
    else if lower_eq name "single"
    then for_single test none vs
    else err (execute_error "CG1701")

-- The entries of `Star` in a map projection, and of a property selector.
abbrev all_props : Option (List (String × Value)) → List (String × Value)
all_props none = []
all_props (some m) = m

abbrev one_prop : String → Option (List (String × Value)) → Value
one_prop key none = nothing
one_prop key (some m) = or_null (lookup key m)

abbrev update : List (String × Value) → List (String × Value) → List (String × Value)
update [] m = m
update ((k, v) ∷ new) m = update new (insert k v m)

-- An entry of a map projection that is a node: `Star`, a property selector; any other is passed over.
unfoldable pub project_node :
    AstNode → Option (List (String × Value)) → List (String × Value) → List (String × Value)
unfolding insert lookup
project_node star base m = update (all_props base) m
project_node (property_selector key) base m = insert key (one_prop key base) m
project_node _ base m = m

-- except (IndexError, TypeError, KeyError): raise ExecuteError
abbrev pub caught {ℓ} : {A : Type ℓ} → Result A → Result A
caught (ok a) = ok a
caught (err type_error) = err (execute_error "CG1701")
caught (err index_error) = err (execute_error "CG1701")
caught (err (key_error k)) = err (execute_error "CG1701")
caught (err e) = err e

module _ (py : Builtins) (engine : AstNode → Env → Result Value) where
  unfoldable mutual
    unfolding null_value cypher_true binary_value get_property insert lookup truthy comprehend
        quantify project_node call bind py_eq py_neg has_labels slice subscript iterate

    pub eval : AstNode → Env → Result Value
    eval null env = ok nothing
    eval (boolean b) env = ok (flag b)
    eval (integer i) env = ok (int i)
    eval (float d) env = ok (double d)
    eval (string s) env = ok (text s)
    eval (parameter x) env = bound (execute_error "CG1704") (lookup x env.bindings)
    eval (identifier x) env = bound (execute_error "CG1702") (lookup x env.bindings)
    eval (property e name) env = do v ← eval e env; get_property env.graph name v
    eval (list_literal es) env = do vs ← eval_list es env; ok (items vs)
    eval (map_literal es) env = do m ← eval_entries es [] env; ok (dict (fields m))
    eval (binary regex_match l r) env = err (execute_error "CG1702")
    eval (binary op l r) env = do x ← eval l env; y ← eval r env; binary_value py op x y
    eval (neg e) env = do v ← eval e env; if null_value v then ok nothing else py_neg py.floats v
    eval (not_expr e) env = do v ← eval e env; ok (truth (not3 (cypher_true v)))
    eval (case_expr absent arms default) env = do
      chosen ← eval_arms arms env
      elim chosen [ some v ↦ ok v | none ↦ eval_default default env ]
    eval (case_expr (present e) arms default) env = do
      v ← eval e env
      chosen ← eval_matching v arms env
      elim chosen [ some w ↦ ok w | none ↦ eval_default default env ]
    eval (is_null e not_) env = do
      v ← eval e env
      ok (flag (if not_ then not (null_value v) else null_value v))
    eval (quantifier name variable source condition) env = do
      src ← eval source env
      let each = (λ (v : Value). do x ← name_of variable; ok (bind x v env))
      let test = (λ (v : Value). do inner ← each v; eval_condition condition inner)
      let all_test = (λ (v : Value). do inner ← each v; eval_all_condition condition v inner)
      if null_value src then ok nothing else do vs ← iterate src; quantify name all_test test vs
    eval (function_call name args distinct) env = do
      vs ← eval_list args env
      call py env.graph name vs
    eval (coalesce es) env = eval_coalesce es env
    eval (list_subscript e index) env = do
      seq ← eval e env
      i ← eval index env
      if null_value seq || null_value i then ok nothing else do n ← py.to_int i; subscript seq n
    eval (list_slice e start stop) env = do
      seq ← eval e env
      let first = eval_bound start env
      let last = eval_bound stop env
      if null_value seq then ok nothing else do
        from ← first
        until ← last
        slice seq (elim from [ none ↦ pos 0 | some i ↦ i ]) until
    eval (label_predicate e labels) env = do
      v ← eval e env
      ok (has_labels env.graph (labels_in labels) v)
    eval (map_projection e entries) env = do
      base ← eval e env
      let body = eval_projection entries (props_of env.graph base) [] env
      if null_value base then ok nothing else do m ← body; ok (dict (fields m))
    eval (list_comprehension variable source condition projection) env = do
      src ← eval source env
      let each = (λ (v : Value). do x ← name_of variable; ok (bind x v env))
      let keep = (λ (v : Value). do inner ← each v; eval_condition condition inner)
      let project = (λ (v : Value). do inner ← each v; eval_projected projection v inner)
      if null_value src
          then ok nothing
          else do vs ← iterate src; ws ← comprehend keep project vs; ok (items ws)
    eval (pattern_comprehension variable pat condition projection) env =
        engine (pattern_comprehension variable pat condition projection) env
    eval (pattern_predicate pat not_) env = engine (pattern_predicate pat not_) env
    eval (alias e name) env = eval e env
    eval star env = ok (dict (fields env.bindings))
    eval _ env = err (execute_error "CG1702")

    pub eval_list : AstNodes → Env → Result Values
    eval_list nil env = ok empty
    eval_list (cons e es) env = do v ← eval e env; vs ← eval_list es env; ok (item v vs)

    pub eval_coalesce : AstNodes → Env → Result Value
    eval_coalesce nil env = ok nothing
    eval_coalesce (cons e es) env = do
      v ← eval e env
      if null_value v then eval_coalesce es env else ok v

    -- A later pair with the same key overrides an earlier one.
    pub eval_entries : Entries → List (String × Value) → Env → Result (List (String × Value))
    eval_entries end m env = ok m
    eval_entries (entry k e es) m env = do v ← eval e env; eval_entries es (insert k v m) env

    -- CASE WHEN: the first condition that is true
    pub eval_arms : Arms → Env → Result (Option Value)
    eval_arms no_arm env = ok none
    eval_arms (arm condition result arms) env = do
      c ← eval condition env
      elim (holds c) [ true ↦ do v ← eval result env; ok (some v) | false ↦ eval_arms arms env ]

    -- CASE v WHEN: the first value that equals v; NULL equals nothing, and the search goes on
    pub eval_matching : Value → Arms → Env → Result (Option Value)
    eval_matching v no_arm env = ok none
    eval_matching v (arm condition result arms) env = do
      c ← eval condition env
      elim (not (null_value v || null_value c) && py_eq py.floats v c) [
        | true ↦ do w ← eval result env; ok (some w)
        | false ↦ eval_matching v arms env
      ]

    pub eval_default : OptNode → Env → Result Value
    eval_default absent env = ok nothing
    eval_default (present e) env = eval e env

    -- No predicate lets every item pass.
    pub eval_condition : OptNode → Env → Result Bool
    eval_condition absent env = ok true
    eval_condition (present e) env = do v ← eval e env; ok (holds v)

    -- `all` without a predicate tests the item itself.
    pub eval_all_condition : OptNode → Value → Env → Result Bool
    eval_all_condition absent item_value env = ok (truthy item_value)
    eval_all_condition (present e) item_value env = do v ← eval e env; ok (holds v)

    pub eval_projected : OptNode → Value → Env → Result Value
    eval_projected absent item_value env = ok item_value
    eval_projected (present e) item_value env = eval e env

    pub eval_bound : OptNode → Env → Result (Option ℤ)
    eval_bound absent env = ok none
    eval_bound (present e) env = do v ← eval e env; i ← py.to_int v; ok (some i)

    -- The pairs of a map projection, in order; a bare name is passed over.
    pub eval_projection :
        ProjectionEntries
        → Option (List (String × Value))
        → List (String × Value)
        → Env
        → Result (List (String × Value))
    eval_projection finish base m env = ok m
    eval_projection (node_entry e es) base m env =
        eval_projection es base (project_node e base m) env
    eval_projection (pair_entry k e es) base m env = do
      v ← eval e env
      eval_projection es base (insert k v m) env
    eval_projection (name_entry x es) base m env = eval_projection es base m env
