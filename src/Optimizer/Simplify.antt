-- ===== src/Optimizer/Simplify.antt =====
-- cypherast/optimizer/simplify.py: constant folding and Boolean simplification, bottom-up. Number
-- literals are folded with Python's arithmetic, as the executor has it.
pub mod Refines
pub mod Local
pub mod Sound
pub mod Once
mod Examples
use Prim.Native.Nat.{ℕ}
use cypherast.Prelude.{
  String, Bool, true, false, not, ◌&&◌, ◌||◌, Option, none, some, if◌then◌else◌,
}
use cypherast.Prelude.Int.{ℤ, ◌+ℤ◌, ◌*ℤ◌, int_eq}
use cypherast.Ast.{
  AstNode, null, boolean, integer, float, string, list_literal, list_comprehension, binary, add,
  mul, eq, and, or, not_expr, is_null,
}
use cypherast.Ast.Transform.{transform}
use cypherast.Executor.Python.{Floats, Number, whole, real, no_number}

-- _is_null
unfoldable pub is_null_literal : AstNode → Bool
is_null_literal null = true
is_null_literal _ = false

-- _as_bool
unfoldable pub as_bool : AstNode → Option Bool
as_bool (boolean b) = some b
as_bool _ = none

-- _as_num
unfoldable pub as_num : AstNode → Number
as_num (integer i) = whole i
as_num (float d) = real d
as_num _ = no_number

abbrev pub is_list : AstNode → Bool
is_list (list_literal _) = true
is_list (list_comprehension _ _ _ _) = true
is_list _ = false

-- isinstance(node, (Integer, Float, String, Boolean))
abbrev pub is_scalar : AstNode → Bool
is_scalar (integer _) = true
is_scalar (float _) = true
is_scalar (string _) = true
is_scalar (boolean _) = true
is_scalar _ = false

unfoldable pub fold_not : AstNode → AstNode
fold_not (boolean b) = boolean (not b)
fold_not null = null
fold_not e = not_expr e

abbrev pub and_with : Option Bool → Option Bool → AstNode → AstNode → AstNode
and_with (some false) _ l r = boolean false
and_with _ (some false) l r = boolean false
and_with (some true) _ l r = r
and_with _ (some true) l r = l
and_with none none l r = if is_null_literal l && is_null_literal r then null else binary and l r

abbrev pub or_with : Option Bool → Option Bool → AstNode → AstNode → AstNode
or_with (some true) _ l r = boolean true
or_with _ (some true) l r = boolean true
or_with (some false) _ l r = r
or_with _ (some false) l r = l
or_with none none l r = binary or l r

abbrev pub unfolded_add : AstNode → AstNode → AstNode
unfolded_add l r =
    if is_list l || is_list r
    then binary add l r
    else if is_null_literal l || is_null_literal r
    then null
    else binary add l r

abbrev pub eq_of : AstNode → AstNode → AstNode
eq_of (integer a) (integer b) = boolean (int_eq a b)
eq_of l r = binary eq l r

unfoldable pub fold_eq : AstNode → AstNode → AstNode
unfolding is_null_literal
fold_eq l r = if is_null_literal l || is_null_literal r then null else eq_of l r

unfoldable pub fold_is_null : AstNode → Bool → AstNode
unfolding is_null_literal
fold_is_null e not_ =
    if is_null_literal e
    then boolean (not not_)
    else if is_scalar e
    then boolean not_
    else is_null e not_

-- The folded literal, if there is one.
abbrev pub literal_or : Option AstNode → AstNode → AstNode
literal_or (some n) m = n
literal_or none m = m

module _ (fl : Floats) where
  abbrev pub sum_of : Number → Number → Option AstNode
  sum_of (whole a) (whole b) = some (integer (a +ℤ b))
  sum_of (whole a) (real b) = some (float (fl.plus (fl.of_int a) b))
  sum_of (real a) (whole b) = some (float (fl.plus a (fl.of_int b)))
  sum_of (real a) (real b) = some (float (fl.plus a b))
  sum_of _ _ = none

  abbrev pub product_of : Number → Number → Option AstNode
  product_of (whole a) (whole b) = some (integer (a *ℤ b))
  product_of (whole a) (real b) = some (float (fl.times (fl.of_int a) b))
  product_of (real a) (whole b) = some (float (fl.times a (fl.of_int b)))
  product_of (real a) (real b) = some (float (fl.times a b))
  product_of _ _ = none

  unfoldable pub fold_add : AstNode → AstNode → AstNode
  unfolding is_null_literal as_num
  fold_add l r = literal_or (sum_of (as_num l) (as_num r)) (unfolded_add l r)

  unfoldable pub fold_mul : AstNode → AstNode → AstNode
  unfolding as_num
  fold_mul l r = literal_or (product_of (as_num l) (as_num r)) (binary mul l r)

  -- `_fix`
  unfoldable pub simplify_node : AstNode → AstNode
  unfolding fold_not fold_add fold_mul fold_eq fold_is_null as_bool is_null_literal
  simplify_node (not_expr e) = fold_not e
  simplify_node (binary and l r) = and_with (as_bool l) (as_bool r) l r
  simplify_node (binary or l r) = or_with (as_bool l) (as_bool r) l r
  simplify_node (binary add l r) = fold_add l r
  simplify_node (binary mul l r) = fold_mul l r
  simplify_node (binary eq l r) = fold_eq l r
  simplify_node (is_null e not_) = fold_is_null e not_
  simplify_node n = n

  unfoldable pub simplify : AstNode → AstNode
  unfolding simplify_node transform
  simplify n = transform simplify_node n
