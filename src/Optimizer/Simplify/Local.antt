-- ===== src/Optimizer/Simplify/Local.antt =====
-- The rewrite of one node keeps its value.
use Prim.Native.Nat.{ℕ}
use cypherast.Prelude.{◌≡◌, refl, Bool, true, false, ◌||◌, Option, none, some, if◌then◌else◌, arith}
use cypherast.Prelude.{Bool-cases, inl, inr}
use cypherast.Prelude.Int.{ℤ}
use cypherast.Prelude.Result.{Result, ok, err, ◌>>=◌}
use cypherast.Ast.{
  AstNode, null, boolean, integer, float, string, binary, add, mul, eq, and, or, not_expr, is_null,
}
use cypherast.Executor.Value.{Value, nothing, flag, int, double}
use cypherast.Executor.Python.{
  Number, whole, real, no_number, py_add, py_eq, cypher_true, is_null as null_value,
}
use cypherast.Executor.Env.{Env, Builtins, binary_value, strict, truth, and3, or3}
use cypherast.Executor.Eval.{eval}
use cypherast.Optimizer.Simplify.{
  simplify_node, as_bool, as_num, is_null_literal, and_with, or_with, sum_of, product_of,
  unfolded_add, literal_or, eq_of, is_list,
}
use cypherast.Optimizer.Simplify.Refines.{◌⊑◌, failed, same}

-- A value of three-valued logic.
abbrev pub IsTruth : Value → Type 0
IsTruth nothing = Unit
IsTruth (flag b) = Unit
IsTruth _ = ⊥

module _ (py : Builtins) (engine : AstNode → Env → Result Value) (env : Env) where
  abbrev ev : AstNode → Result Value
  ev n = eval py engine n env

  eval-as_bool : (n : AstNode) (b : Bool) → as_bool n ≡ some b → ev n ≡ ok (flag b)
  unfolding as_bool eval
  eval-as_bool (boolean a) b h = ground arith
  eval-as_bool _ b h = cc

  eval-null_literal : (n : AstNode) → is_null_literal n ≡ true → ev n ≡ ok nothing
  unfolding is_null_literal eval
  eval-null_literal null h = refl
  eval-null_literal _ h = cc

  -- What is known of the operands of a connective: their values, and that these are truth values.
  module _ (l r : AstNode) (x y : Value) (p : ev l ≡ ok x) (q : ev r ≡ ok y) where
    -- Neither operand is a Boolean literal: the node is folded only where both are NULL.
    and_with-nulls : ev (and_with none none l r) ≡ ok (truth (and3 (cypher_true x) (cypher_true y)))
    unfolding eval cypher_true
    and_with-nulls = elim (Bool-cases (is_null_literal l)) [
      | inr f ↦ rw (f, p, q)
      | inl t ↦ elim (Bool-cases (is_null_literal r)) [
        | inr f ↦ rw (t, f, p, q)
        | inl u ↦ ground (arith, eval-null_literal l t, eval-null_literal r u)
      ]
    ]

    and_with-by :
        (a b : Option Bool)
        → as_bool l ≡ a
        → as_bool r ≡ b
        → IsTruth x
        → IsTruth y
        → ev (and_with a b l r) ≡ ok (truth (and3 (cypher_true x) (cypher_true y)))
    unfolding eval cypher_true
    and_with-by (some false) b ha hb hx hy = ground (arith, eval-as_bool l false ha)
    and_with-by none (some false) ha hb hx hy = ground (arith, eval-as_bool r false hb)
    and_with-by (some true) (some false) ha hb hx hy = ground (arith, eval-as_bool r false hb)
    and_with-by (some true) (some true) ha hb hx hy =
        ground (arith, eval-as_bool l true ha, eval-as_bool r true hb)
    and_with-by (some true) none ha hb hx hy = ground (arith, eval-as_bool l true ha)
    and_with-by none (some true) ha hb hx hy = ground (arith, eval-as_bool r true hb)
    and_with-by none none ha hb hx hy = and_with-nulls

    or_with-by :
        (a b : Option Bool)
        → as_bool l ≡ a
        → as_bool r ≡ b
        → IsTruth x
        → IsTruth y
        → ev (or_with a b l r) ≡ ok (truth (or3 (cypher_true x) (cypher_true y)))
    unfolding eval cypher_true
    or_with-by (some true) b ha hb hx hy = ground (arith, eval-as_bool l true ha)
    or_with-by none (some true) ha hb hx hy = ground (arith, eval-as_bool r true hb)
    or_with-by (some false) (some true) ha hb hx hy = ground (arith, eval-as_bool r true hb)
    or_with-by (some false) (some false) ha hb hx hy =
        ground (arith, eval-as_bool l false ha, eval-as_bool r false hb)
    or_with-by (some false) none ha hb hx hy = ground (arith, eval-as_bool l false ha)
    or_with-by none (some false) ha hb hx hy = ground (arith, eval-as_bool r false hb)
    or_with-by none none ha hb hx hy = rw (p, q)

    pub eval-and_node :
        IsTruth x
        → IsTruth y
        → ev (simplify_node py.floats (binary and l r))
          ≡ ok (truth (and3 (cypher_true x) (cypher_true y)))
    unfolding simplify_node
    eval-and_node = and_with-by (as_bool l) (as_bool r) refl refl

    pub eval-or_node :
        IsTruth x
        → IsTruth y
        → ev (simplify_node py.floats (binary or l r))
          ≡ ok (truth (or3 (cypher_true x) (cypher_true y)))
    unfolding simplify_node
    eval-or_node = or_with-by (as_bool l) (as_bool r) refl refl

  pub not_node-⊑ : (e : AstNode) → ev (not_expr e) ⊑ ev (simplify_node py.floats (not_expr e))
  unfolding simplify_node eval cypher_true
  not_node-⊑ (boolean b) = same
  not_node-⊑ null = same
  not_node-⊑ _ = same

  pub is_null_node-⊑ :
      (e : AstNode) (not_ : Bool)
      → ev (is_null e not_) ⊑ ev (simplify_node py.floats (is_null e not_))
  unfolding simplify_node eval
  is_null_node-⊑ null true = same
  is_null_node-⊑ null false = same
  is_null_node-⊑ (integer i) true = same
  is_null_node-⊑ (integer i) false = same
  is_null_node-⊑ (float i) true = same
  is_null_node-⊑ (float i) false = same
  is_null_node-⊑ (string i) true = same
  is_null_node-⊑ (string i) false = same
  is_null_node-⊑ (boolean i) true = same
  is_null_node-⊑ (boolean i) false = same
  is_null_node-⊑ _ _ = same

  -- An operation that is NULL at a NULL operand, with a NULL literal for one.
  strict-null_left :
      (op : Value → Value → Result Value) (r : Result Value)
      → (r >>= strict op nothing) ⊑ ok nothing
  unfolding strict
  strict-null_left op (ok v) = same
  strict-null_left op (err e) = failed

  strict-null_right :
      (op : Value → Value → Result Value) (r : Result Value)
      → (r >>= λ x. strict op x nothing) ⊑ ok nothing
  unfolding strict null_value
  strict-null_right op (ok nothing) = same
  strict-null_right op (ok v) = same
  strict-null_right op (err e) = failed

  as_num-whole : (n : AstNode) (i : ℤ) → as_num n ≡ whole i → ev n ≡ ok (int i)
  unfolding as_num eval
  as_num-whole (integer j) i h = ground arith
  as_num-whole _ i h = cc

  as_num-real : (n : AstNode) (d : ℕ) → as_num n ≡ real d → ev n ≡ ok (double d)
  unfolding as_num eval
  as_num-real (float j) i h = ground arith
  as_num-real _ i h = cc

  -- A NULL literal beside an operator that is NULL at NULL.
  null_operand-⊑ :
      (op : Value → Value → Result Value) (l r n : AstNode)
      → (ev l >>= λ x. ev r >>= λ y. strict op x y) ⊑ ev n
      → (ev l >>= λ x. ev r >>= λ y. strict op x y)
        ⊑ ev (if is_null_literal l || is_null_literal r then null else n)
  unfolding eval
  null_operand-⊑ op l r n h = elim (Bool-cases (is_null_literal l)) [
    | inl t ↦ rw (t, eval-null_literal l t) (strict-null_left op (ev r))
    | inr f ↦ elim (Bool-cases (is_null_literal r)) [
      | inl u ↦ rw (f, u, eval-null_literal r u) (strict-null_right op (ev l))
      | inr g ↦ rw (f, g) h
    ]
  ]

  unfolded_add-⊑ : (l r : AstNode) → ev (binary add l r) ⊑ ev (unfolded_add l r)
  unfolding eval binary_value
  unfolded_add-⊑ l r = elim (Bool-cases (is_list l || is_list r)) [
    | inl t ↦ rw t same
    | inr f ↦ rw f (null_operand-⊑ (py_add py.floats) l r (binary add l r) same)
  ]

  module _ (l r : AstNode) where
    add-by :
        (a b : Number)
        → as_num l ≡ a
        → as_num r ≡ b
        → ev (binary add l r) ⊑ ev (literal_or (sum_of py.floats a b) (unfolded_add l r))
    unfolding eval binary_value
    add-by (whole i) (whole j) p q = rw (as_num-whole l i p, as_num-whole r j q) same
    add-by (whole i) (real j) p q = rw (as_num-whole l i p, as_num-real r j q) same
    add-by (real i) (whole j) p q = rw (as_num-real l i p, as_num-whole r j q) same
    add-by (real i) (real j) p q = rw (as_num-real l i p, as_num-real r j q) same
    add-by (whole i) no_number p q = unfolded_add-⊑ l r
    add-by (real i) no_number p q = unfolded_add-⊑ l r
    add-by no_number b p q = unfolded_add-⊑ l r

    mul-by :
        (a b : Number)
        → as_num l ≡ a
        → as_num r ≡ b
        → ev (binary mul l r) ⊑ ev (literal_or (product_of py.floats a b) (binary mul l r))
    unfolding eval binary_value
    mul-by (whole i) (whole j) p q = rw (as_num-whole l i p, as_num-whole r j q) same
    mul-by (whole i) (real j) p q = rw (as_num-whole l i p, as_num-real r j q) same
    mul-by (real i) (whole j) p q = rw (as_num-real l i p, as_num-whole r j q) same
    mul-by (real i) (real j) p q = rw (as_num-real l i p, as_num-real r j q) same
    mul-by (whole i) no_number p q = same
    mul-by (real i) no_number p q = same
    mul-by no_number b p q = same

    pub add_node-⊑ : ev (binary add l r) ⊑ ev (simplify_node py.floats (binary add l r))
    unfolding simplify_node
    add_node-⊑ = add-by (as_num l) (as_num r) refl refl

    pub mul_node-⊑ : ev (binary mul l r) ⊑ ev (simplify_node py.floats (binary mul l r))
    unfolding simplify_node
    mul_node-⊑ = mul-by (as_num l) (as_num r) refl refl

  eq_of-⊑ : (l r : AstNode) → ev (binary eq l r) ⊑ ev (eq_of l r)
  unfolding eval binary_value
  eq_of-⊑ (integer a) (integer b) = same
  eq_of-⊑ (integer a) _ = same
  eq_of-⊑ _ r = same

  pub eq_node-⊑ :
      (l r : AstNode) → ev (binary eq l r) ⊑ ev (simplify_node py.floats (binary eq l r))
  unfolding simplify_node eval binary_value
  eq_node-⊑ l r =
      null_operand-⊑ (λ a b. ok (flag (py_eq py.floats a b))) l r (eq_of l r) (eq_of-⊑ l r)
