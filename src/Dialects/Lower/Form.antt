-- ===== src/Dialects/Lower/Form.antt =====
-- The surface forms that lowering takes away, node by node.
use cypherast.Prelude.{
  ◌≡◌, refl, subst, Bool, true, false, ◌||◌, List, [], ◌∷◌, if◌then◌else◌, All, also, none_left,
  All-append, All-of_append, All-head, All-tail,
}
use cypherast.Prelude.Result.{ok, err, bound-ok, ok-injective}
use cypherast.Ast.{
  AstNode, AstNodes, OptNode, nil, cons, absent, present, ◌+++◌, binary, and, for_clause,
  let_clause, filter_clause, filter_item, with_clause, return_clause, where_clause, call_subquery,
  node_pattern, relationship_pattern, path_pattern, pattern,
}
use cypherast.Ast.Walk.{walk, below, below_list, below_opt}
use cypherast.Dialects.Lower.{
  unsupported, is_present, is_text, where_pred, conjunction, where_of, inline_of, inline_list,
  inline_opt, stripped, stripped_list, stripped_opt, hoisted, let_items, let_expanded, expand_let,
  referenced, item_predicate, filter_predicates,
}

-- A form that the rewrite of one node takes away.
abbrev pub is_unlowered : AstNode → Bool
is_unlowered (for_clause _ _) = true
is_unlowered (filter_clause _) = true
is_unlowered (relationship_pattern _ _ _ _ _ _ _ _ quantifier _ _) = is_text "bfs" quantifier
is_unlowered (call_subquery _ _ _ in_transactions rows) = in_transactions || is_present rows
is_unlowered (with_clause _ _ _ _ _ _ group_by_of) = is_present group_by_of
is_unlowered (return_clause _ _ _ _ _ group_by_of) = is_present group_by_of
is_unlowered _ = false

abbrev pub IsLow : AstNode → Type 0
IsLow n = is_unlowered n ≡ false

-- A tree without such a form.
abbrev pub LowTree : AstNode → Type 0
LowTree n = All IsLow (walk n)

conjunction-IsLow :
    (p : AstNode) (ps : List AstNode) → LowTree p → All LowTree ps → LowTree (conjunction p ps)
unfolding below
conjunction-IsLow p [] h k = h
conjunction-IsLow p (q ∷ qs) h k =
    conjunction-IsLow (binary and p q) qs (also refl (All-append h (All-head k))) (All-tail k)

pub where_of-IsLow : (ps : List AstNode) → All LowTree ps → All IsLow (below_opt (where_of ps))
unfolding below
where_of-IsLow [] h = none_left
where_of-IsLow (p ∷ ps) h = also refl (conjunction-IsLow p ps (All-head h) (All-tail h))

where_pred-IsLow : (o : OptNode) → All IsLow (below_opt o) → All LowTree (where_pred o)
unfolding below
where_pred-IsLow absent h = none_left
where_pred-IsLow (present (where_clause p)) h = also (All-tail h) none_left
where_pred-IsLow (present n) h = also h none_left

mutual
  unfolding below stripped

  pub stripped-IsLow : (n : AstNode) → LowTree n → LowTree (stripped n)
  stripped-IsLow (node_pattern v l p c) h =
      let (a, b) = All-of_append (below_opt v) (All-tail h) in
      let (d, e) = All-of_append (below_opt l) b in
      also refl
        (All-append a (All-append d (All-append (All-of_append (below_opt p) e).0 none_left)))
  stripped-IsLow (relationship_pattern v t p d low high var_len c q w z) h =
      let (a, b) = All-of_append (below_opt v) (All-tail h) in
      let (e, k) = All-of_append (below_opt p) b in
      also (All-head h) (All-append a (All-append e (All-of_append (below_opt c) k).1))
  stripped-IsLow (path_pattern v es) h =
      let (a, b) = All-of_append (below_opt v) (All-tail h) in
      also refl (All-append (stripped_opt-IsLow v a) (stripped_list-IsLow es b))
  stripped-IsLow (pattern ps) h = also refl (stripped_list-IsLow ps (All-tail h))
  stripped-IsLow _ h = h

  stripped_list-IsLow :
      (ns : AstNodes) → All IsLow (below_list ns) → All IsLow (below_list (stripped_list ns))
  stripped_list-IsLow nil h = none_left
  stripped_list-IsLow (cons n ns) h =
      let (a, b) = All-of_append (walk n) h in
      All-append (stripped-IsLow n a) (stripped_list-IsLow ns b)

  stripped_opt-IsLow :
      (o : OptNode) → All IsLow (below_opt o) → All IsLow (below_opt (stripped_opt o))
  stripped_opt-IsLow absent h = none_left
  stripped_opt-IsLow (present n) h = stripped-IsLow n h

mutual
  unfolding below inline_of

  inline_of-IsLow : (n : AstNode) → LowTree n → All LowTree (inline_of n)
  inline_of-IsLow (node_pattern v l p c) h =
      let b = (All-of_append (below_opt v) (All-tail h)).1 in
      let e = (All-of_append (below_opt l) b).1 in
      where_pred-IsLow c (All-of_append (below_opt p) e).1
  inline_of-IsLow (relationship_pattern v t p d low high var_len c q w z) h =
      let b = (All-of_append (below_opt v) (All-tail h)).1 in
      let k = (All-of_append (below_opt p) b).1 in
      where_pred-IsLow c (All-of_append (below_opt c) k).0
  inline_of-IsLow (path_pattern v es) h =
      let (a, b) = All-of_append (below_opt v) (All-tail h) in
      All-append (inline_opt-IsLow v a) (inline_list-IsLow es b)
  inline_of-IsLow (pattern ps) h = inline_list-IsLow ps (All-tail h)
  inline_of-IsLow _ h = none_left

  inline_list-IsLow : (ns : AstNodes) → All IsLow (below_list ns) → All LowTree (inline_list ns)
  inline_list-IsLow nil h = none_left
  inline_list-IsLow (cons n ns) h =
      let (a, b) = All-of_append (walk n) h in
      All-append (inline_of-IsLow n a) (inline_list-IsLow ns b)

  inline_opt-IsLow : (o : OptNode) → All IsLow (below_opt o) → All LowTree (inline_opt o)
  inline_opt-IsLow absent h = none_left
  inline_opt-IsLow (present n) h = inline_of-IsLow n h

pub hoisted-IsLow :
    (pat : AstNode) (condition : OptNode)
    → LowTree pat
    → All IsLow (below_opt condition)
    → All IsLow (below_opt (where_of (hoisted pat condition)))
unfolding hoisted
hoisted-IsLow pat condition h k =
    where_of-IsLow (hoisted pat condition)
      (All-append (where_pred-IsLow condition k) (inline_of-IsLow pat h))

append-IsLow :
    (as' bs : AstNodes)
    → All IsLow (below_list as')
    → All IsLow (below_list bs)
    → All IsLow (below_list (as' +++ bs))
unfolding below
append-IsLow nil bs h k = k
append-IsLow (cons n ns) bs h k =
    let (a, b) = All-of_append (walk n) h in All-append a (append-IsLow ns bs b k)

let_items-IsLow :
    (ns : AstNodes) → All IsLow (below_list ns) → All IsLow (below_list (let_items ns))
unfolding below
let_items-IsLow nil h = none_left
let_items-IsLow (cons n ns) h =
    let (a, b) = All-of_append (walk n) h in
    also refl (
      All-append (also refl (All-append (All-append a none_left) none_left)) (let_items-IsLow ns b))

let_expanded-IsLow :
    (n : AstNode) (here : AstNodes)
    → LowTree n
    → let_expanded n ≡ ok here
    → All IsLow (below_list here)
unfolding below
let_expanded-IsLow (let_clause nil) here h e = cc
let_expanded-IsLow (let_clause (cons n ns)) here h e =
    subst (λ l. All IsLow (below_list l)) (ok-injective e)
      (let_items-IsLow (cons n ns) (All-tail h))
let_expanded-IsLow n here h e =
    subst (λ l. All IsLow (below_list l)) (ok-injective e) (All-append h none_left)

pub expand_let-IsLow :
    (ns ms : AstNodes)
    → All IsLow (below_list ns)
    → expand_let ns ≡ ok ms
    → All IsLow (below_list ms)
unfolding below expand_let
expand_let-IsLow nil ms h e = subst (λ l. All IsLow (below_list l)) (ok-injective e) none_left
expand_let-IsLow (cons n ns) ms h e =
    let (a, b) = All-of_append (walk n) h in
    let (here, p, e1) = bound-ok (let_expanded n) _ e in
    let (rest, q, e2) = bound-ok (expand_let ns) _ e1 in
    subst (λ l. All IsLow (below_list l)) (ok-injective e2)
      (append-IsLow here rest (let_expanded-IsLow n here a p) (expand_let-IsLow ns rest b q))

item_predicate-IsLow :
    (n : AstNode) (ps : List AstNode) → LowTree n → item_predicate n ≡ ok ps → All LowTree ps
unfolding below
item_predicate-IsLow (filter_item variable absent) ps h e =
    subst (All LowTree) (ok-injective e) none_left
item_predicate-IsLow (filter_item variable (present p)) ps h e =
    pick (referenced variable p) (All-of_append (walk variable) (All-tail h)).1 e
  where
    pick :
        (b : Bool)
        → LowTree p
        → (if b then ok (p ∷ []) else err unsupported) ≡ ok ps
        → All LowTree ps
    pick true k e = subst (All LowTree) (ok-injective e) (also k none_left)
    pick false k e = cc
item_predicate-IsLow _ ps h e = cc

pub filter_predicates-IsLow :
    (ns : AstNodes) (ps : List AstNode)
    → All IsLow (below_list ns)
    → filter_predicates ns ≡ ok ps
    → All LowTree ps
unfolding below filter_predicates
filter_predicates-IsLow nil ps h e = subst (All LowTree) (ok-injective e) none_left
filter_predicates-IsLow (cons n ns) ps h e =
    let (a, b) = All-of_append (walk n) h in
    let (here, p, e1) = bound-ok (item_predicate n) _ e in
    let (rest, q, e2) = bound-ok (filter_predicates ns) _ e1 in
    subst (All LowTree) (ok-injective e2)
      (All-append (item_predicate-IsLow n here a p) (filter_predicates-IsLow ns rest b q))
