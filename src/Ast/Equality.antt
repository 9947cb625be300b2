-- ===== src/Ast/Equality.antt =====
-- `AstNode.__eq__`: two nodes are equal when they are of one class and their arguments are.
use cypherast.Prelude.{◌≡◌, String, ℕ_discrete, Bool, true, false}
use cypherast.Prelude.Int.{ℤ_discrete}
use cypherast.Ast.{AstNode}
use text.Mathlib.Text.{◌==◌}
use text.Mathlib.TextEquality.{eq_iff}

unfoldable pub String-discrete : Discrete String
String-discrete a b = decide (a == b) (eq_iff a b).0 (eq_iff a b).1
  where
    decide : (t : Bool) → (t ≡ true → a ≡ b) → (a ≡ b → t ≡ true) → Dec (a ≡ b)
    decide true f g = yes (f (λ i. true))
    decide false f g = no (λ e. cc (g e))

pub AstNode-discrete : Discrete AstNode
AstNode-discrete = hlevel (ℤ_discrete, ℕ_discrete, String-discrete)
