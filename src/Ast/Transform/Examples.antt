-- ===== src/Ast/Transform/Examples.antt =====
-- Rewrites of a small tree: one that folds a negated truth value.
use cypherast.Prelude.{◌≡◌, refl, true, not, All, also, none_left}
use cypherast.Ast.{AstNode, boolean, null, not_expr, binary, and}
use cypherast.Ast.Walk.{walk, below}
use cypherast.Ast.Transform.{transform}
use cypherast.Ast.Transform.Everywhere.{All-walk-transform}
use cypherast.Ast.Transform.Idempotent.{IsFixed, transform_idem}

abbrev negated : AstNode → AstNode
negated (not_expr (boolean b)) = boolean (not b)
negated n = n

-- NOT NOT true AND null
abbrev twice : AstNode
twice = binary and (not_expr (not_expr (boolean true))) null

negated-IsFixed :
    (n : AstNode) → All (IsFixed negated) (below n) → All (IsFixed negated) (walk (negated n))
unfolding below
negated-IsFixed (not_expr (boolean b)) h = also refl none_left
negated-IsFixed (not_expr n) h = also refl h
negated-IsFixed n h = also refl h

All-walk-transform_example : All (IsFixed negated) (walk (transform negated twice))
All-walk-transform_example = All-walk-transform negated negated-IsFixed twice

transform_idem_example : transform negated (transform negated twice) ≡ transform negated twice
transform_idem_example = transform_idem negated negated-IsFixed twice

twice-negated : transform negated twice ≡ binary and (boolean true) null
unfolding transform
twice-negated = refl
