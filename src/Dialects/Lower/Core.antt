-- ===== src/Dialects/Lower/Core.antt =====
-- The form of a tree that cypherast/dialects/lower.py has lowered.
use cypherast.Prelude.{
  String, ◌≡◌, refl, subst, Bool, true, false, ◌||◌, List, any, arith, Option, none, if◌then◌else◌,
  All, also, none_left, All-append, All-of_append,
}
use Prim.Native.Nat.{ℕ}
use cypherast.Prelude.Result.{ok, err, ◌>>=◌, bound-ok, ok-injective}
use cypherast.Ast.{
  AstNode, AstNodes, OptNode, Direction, absent, present, query, for_clause, let_clause,
  filter_clause, with_clause, return_clause, match_clause, pattern_comprehension, call_subquery,
  node_pattern, relationship_pattern,
}
use cypherast.Ast.Walk.{walk, below, below_list, below_opt}
use cypherast.Ast.Transform.Raising.{transform_result}
use cypherast.Ast.Transform.Settled.{All-walk-transform_result}
use cypherast.Dialects.Lower.{
  unsupported, is_present, is_text, is_rejected, is_left, expand_let, filter_predicates,
  group_by_matches, keys_of, lower_projection, lower_node, lower_to_core,
}
use cypherast.Dialects.Lower.Form.{
  IsLow, LowTree, where_of-IsLow, stripped-IsLow, hoisted-IsLow, expand_let-IsLow,
  filter_predicates-IsLow,
}

lower_projection-IsLow :
    (es : AstNodes) (g : OptNode) (clause cleared m : AstNode)
    → (g ≡ absent → LowTree clause)
    → LowTree cleared
    → lower_projection es g clause cleared ≡ ok m
    → LowTree m
unfolding lower_projection
lower_projection-IsLow es absent clause cleared m h k e = subst LowTree (ok-injective e) (h refl)
lower_projection-IsLow es (present g) clause cleared m h k e =
    pick (group_by_matches es (keys_of g)) e
  where
    pick : (b : Bool) → (if b then ok cleared else err unsupported) ≡ ok m → LowTree m
    pick true e = subst LowTree (ok-injective e) k
    pick false e = cc

-- Without a GROUP BY, nothing of the children is left out.
with-IsLow :
    (es : AstNodes) (d : Bool) (c o s l g : OptNode)
    → All IsLow (below (with_clause es d c o s l g))
    → (g ≡ absent → LowTree (with_clause es d c o s l g))
      × LowTree (with_clause es d c o s l absent)
unfolding below
with-IsLow es d c o s l g h =
    let (a, h1) = All-of_append (below_list es) h in
    let (b, h2) = All-of_append (below_opt c) h1 in
    let (e, h3) = All-of_append (below_opt o) h2 in
    let (k, h4) = All-of_append (below_opt s) h3 in
    let t = All-append a (
      All-append b
        (All-append e (All-append k (All-append (All-of_append (below_opt l) h4).0 none_left)))) in
    (λ i. also (rw i) h, also refl t)

return-IsLow :
    (es : AstNodes) (d : Bool) (o s l g : OptNode)
    → All IsLow (below (return_clause es d o s l g))
    → (g ≡ absent → LowTree (return_clause es d o s l g))
      × LowTree (return_clause es d o s l absent)
unfolding below
return-IsLow es d o s l g h =
    let (a, h1) = All-of_append (below_list es) h in
    let (b, h2) = All-of_append (below_opt o) h1 in
    let (e, h3) = All-of_append (below_opt s) h2 in
    let t =
      All-append a
        (All-append b (All-append e (All-append (All-of_append (below_opt l) h3).0 none_left))) in
    (λ i. also (rw i) h, also refl t)

relationship-IsLow :
    (v : OptNode) (t : List String) (p : OptNode) (d : Direction) (low high : Option ℕ)
    (var_len : Bool) (c : OptNode) (q : Option String) (w z : OptNode) (m : AstNode)
    → All IsLow (below (relationship_pattern v t p d low high var_len c q w z))
    → lower_node (relationship_pattern v t p d low high var_len c q w z) ≡ ok m
    → LowTree m
unfolding below lower_node
relationship-IsLow v t p d low high var_len c q w z m h e = pick (is_text "bfs" q) refl e
  where
    fewer : LowTree (relationship_pattern v t p d low high var_len c none absent absent)
    fewer =
        let (a, h1) = All-of_append (below_opt v) h in
        let (b, h2) = All-of_append (below_opt p) h1 in
        also refl
          (All-append a (All-append b (All-append (All-of_append (below_opt c) h2).0 none_left)))

    pick :
        (b : Bool)
        → is_text "bfs" q ≡ b
        → (if b
            then ok (relationship_pattern v t p d low high var_len c none absent absent)
            else ok (relationship_pattern v t p d low high var_len c q w z))
          ≡ ok m
        → LowTree m
    pick true i e = subst LowTree (ok-injective e) fewer
    pick false i e = subst LowTree (ok-injective e) (also i h)

lower_node-IsLow : (n m : AstNode) → All IsLow (below n) → lower_node n ≡ ok m → LowTree m
unfolding lower_node below
lower_node-IsLow (for_clause x y) m h e = subst LowTree (ok-injective e) (also refl h)
lower_node-IsLow (query cs) m h e =
    let (ds, p, e1) = bound-ok (expand_let cs) _ e in
    subst LowTree (ok-injective e1) (also refl (expand_let-IsLow cs ds h p))
lower_node-IsLow (filter_clause es) m h e =
    let (ps, p, e1) = bound-ok (filter_predicates es) _ e in
    subst LowTree (ok-injective e1) (
      also refl
        (also refl (All-append (where_of-IsLow ps (filter_predicates-IsLow es ps h p)) none_left)))
lower_node-IsLow (match_clause pat optional condition hints search_of) m h e =
    let (a, h1) = All-of_append (walk pat) h in
    let (b, k) = All-of_append (below_opt condition) h1 in
    subst LowTree (ok-injective e) (
      also refl
        (All-append (stripped-IsLow pat a) (All-append (hoisted-IsLow pat condition a b) k)))
lower_node-IsLow (pattern_comprehension v pat condition projection) m h e =
    let (x, h0) = All-of_append (below_opt v) h in
    let (a, h1) = All-of_append (walk pat) h0 in
    let (b, k) = All-of_append (below_opt condition) h1 in
    subst LowTree (ok-injective e) (
      also refl (
        All-append x
          (All-append (stripped-IsLow pat a) (All-append (hoisted-IsLow pat condition a b) k))))
lower_node-IsLow (relationship_pattern v t p d low high var_len c q w z) m h e =
    relationship-IsLow v t p d low high var_len c q w z m h e
lower_node-IsLow (call_subquery inner vs optional in_tx rows) m h e =
    let (a, h1) = All-of_append (walk inner) h in
    subst LowTree (ok-injective e)
      (also refl (All-append a (All-append (All-of_append (below_list vs) h1).0 none_left)))
lower_node-IsLow (with_clause es d c o s l g) m h e =
    let (a, b) = with-IsLow es d c o s l g h in
    lower_projection-IsLow es g (with_clause es d c o s l g) (with_clause es d c o s l absent) m a b
      e
lower_node-IsLow (return_clause es d o s l g) m h e =
    let (a, b) = return-IsLow es d o s l g h in
    lower_projection-IsLow es g (return_clause es d o s l g) (return_clause es d o s l absent) m a b
      e
lower_node-IsLow n m h e = subst LowTree (ok-injective e) (also refl h)

-- A form that core Cypher does not have: FOR, FILTER, LET, a predicate inside a node or relationship
-- pattern, the quantifier `bfs`, a subquery in transactions, GROUP BY.
abbrev pub is_surface : AstNode → Bool
is_surface (for_clause _ _) = true
is_surface (filter_clause _) = true
is_surface (let_clause _) = true
is_surface (node_pattern _ _ _ condition) = is_present condition
is_surface (relationship_pattern _ _ _ _ _ _ _ condition quantifier _ _) =
    is_present condition || is_text "bfs" quantifier
is_surface (call_subquery _ _ _ in_transactions rows) = in_transactions || is_present rows
is_surface (with_clause _ _ _ _ _ _ group_by_of) = is_present group_by_of
is_surface (return_clause _ _ _ _ _ group_by_of) = is_present group_by_of
is_surface _ = false

surface-none : (n : AstNode) → IsLow n → is_left n ≡ false → is_surface n ≡ false
surface-none (for_clause _ _) h k = cc
surface-none (filter_clause _) h k = cc
surface-none (let_clause _) h k = cc
surface-none (node_pattern v l p c) h k = k
surface-none (relationship_pattern v t p d low high var_len c q w z) h k = rw (k, h)
surface-none (call_subquery _ _ _ in_tx rows) h k = h
surface-none (with_clause _ _ _ _ _ _ g) h k = h
surface-none (return_clause _ _ _ _ _ g) h k = h
surface-none _ h k = refl

All-surface-none :
    {ns : List AstNode} → All IsLow ns → any is_left ns ≡ false → All (λ n. is_surface n ≡ false) ns
All-surface-none none_left k = none_left
All-surface-none (also {x = n} h hs) k =
    also (surface-none n h (ground arith)) (All-surface-none hs (ground arith))

-- If a tree lowers, no node of the core that `walk` reaches has a form that core Cypher does not
-- have: no FOR, FILTER or LET, no predicate inside a node or relationship pattern, no quantifier
-- `bfs`, no subquery in transactions and no GROUP BY.
pub lower_to_core_lowers :
    (tree core : AstNode)
    → lower_to_core tree ≡ ok core
    → All (λ n. is_surface n ≡ false) (walk core)
unfolding lower_to_core
lower_to_core_lowers tree core h = accepted (any is_rejected (walk tree)) h
  where
    checked :
        (t : AstNode)
        → All IsLow (walk t)
        → (b : Bool) → any is_left (walk t) ≡ b
        → (if b then err unsupported else ok t) ≡ ok core
        → All (λ n. is_surface n ≡ false) (walk core)
    checked t a true i e = cc
    checked t a false i e =
        subst (λ n. All (λ k. is_surface k ≡ false) (walk n)) (ok-injective e)
          (All-surface-none a i)

    accepted :
        (b : Bool)
        → (if b
            then err unsupported
            else transform_result lower_node tree
              >>= (λ t. if any is_left (walk t) then err unsupported else ok t))
          ≡ ok core
        → All (λ n. is_surface n ≡ false) (walk core)
    accepted true e = cc
    accepted false e =
        let (t, p, e1) = bound-ok (transform_result lower_node tree) _ e in
        checked t (All-walk-transform_result lower_node lower_node-IsLow tree t p)
          (any is_left (walk t)) refl e1
