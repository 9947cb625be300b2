-- ===== src/Optimizer/Canonical.antt =====
-- cypherast/optimizer/canonicalize_patterns.py: a path of one incoming relationship is turned round.
use cypherast.Prelude.{
  ◌≡◌, refl, [], ◌++◌, All, also, none_left, All-append, All-of_append, All-tail,
}
use cypherast.Ast.{AstNode, nil, cons, path_pattern, relationship_pattern, incoming, outgoing}
use cypherast.Ast.Walk.{walk, below, below_list, below_opt}
use cypherast.Ast.Transform.{transform}
use cypherast.Ast.Transform.Idempotent.{IsFixed, transform_idem}

-- `_fix`
unfoldable pub canonical_node : AstNode → AstNode
canonical_node
      (path_pattern v
        (cons x (cons (relationship_pattern rv t p incoming low high l c q w z) (cons y nil)))) =
    path_pattern v
      (cons y (cons (relationship_pattern rv t p outgoing low high l c q w z) (cons x nil)))
canonical_node n = n

unfoldable pub canonicalize_patterns : AstNode → AstNode
unfolding canonical_node transform
canonicalize_patterns n = transform canonical_node n

keeps :
    (n : AstNode)
    → All (IsFixed canonical_node) (below n)
    → All (IsFixed canonical_node) (walk (canonical_node n))
unfolding canonical_node below below_list below_opt
keeps
      (path_pattern v
        (cons x (cons (relationship_pattern rv t p incoming low high l c q w z) (cons y nil))))
      h =
    let (hv, h1) = All-of_append (below_opt v) h in
    let (hx, h2) =
      All-of_append (walk x)
        {ys = walk (relationship_pattern rv t p incoming low high l c q w z) ++ (walk y ++ [])}
        h1 in
    let (hr, h3) =
      All-of_append (walk (relationship_pattern rv t p incoming low high l c q w z))
        {ys = walk y ++ []} h2 in
    let hy = (All-of_append (walk y) h3).0 in
    also refl (
      All-append hv
        (All-append hy (All-append (also refl (All-tail hr)) (All-append hx none_left))))
keeps n h = also refl h

-- Patterns that have been made canonical stay as they are.
pub canonicalize_patterns_idem :
    (n : AstNode) → canonicalize_patterns (canonicalize_patterns n) ≡ canonicalize_patterns n
unfolding canonicalize_patterns
canonicalize_patterns_idem n = transform_idem canonical_node keeps n
