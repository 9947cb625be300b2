-- ===== src/Dialects/Lower/Hoist.antt =====
-- The predicates that stand inside the patterns of a MATCH, and the WHERE that they move to.
use cypherast.Prelude.{
  String, ◌≡◌, refl, ◌↔◌, Bool, true, false, List, [], ◌∷◌, ◌++◌, Option, none, some, All, also,
  none_left, All-head, All-tail, All-append, All-of_append,
}
use cypherast.Prelude.Result.{Result, ok, err, ◌>>=◌}
use cypherast.Ast.{
  AstNode, AstNodes, OptNode, nil, cons, absent, present, binary, and, match_clause, node_pattern,
  relationship_pattern, path_pattern, pattern,
}
use cypherast.Executor.Value.{Value, flag}
use cypherast.Executor.Python.{cypher_true}
use cypherast.Executor.Env.{Env, Builtins, binary_value, and3, truth}
use cypherast.Executor.Eval.{eval}
use cypherast.Dialects.Lower.{
  where_pred, conjunction, where_of, inline_of, inline_list, inline_opt, stripped, stripped_list,
  stripped_opt, hoisted, lower_node,
}
use cypherast.Dialects.Lower.Inside.{
  IsPredicate, of_where, Inside, where_pred-In, inline_of-In, All-In, All-of_In,
}

mutual
  unfolding stripped inline_of

  inline_of-stripped : (n : AstNode) → inline_of (stripped n) ≡ []
  inline_of-stripped (node_pattern v l p c) = refl
  inline_of-stripped (relationship_pattern v t p d low high var_len c q w total) = refl
  inline_of-stripped (path_pattern v es) = rw (inline_opt-stripped v, inline_list-stripped es)
  inline_of-stripped (pattern ps) = inline_list-stripped ps
  inline_of-stripped _ = refl

  inline_list-stripped : (ns : AstNodes) → inline_list (stripped_list ns) ≡ []
  inline_list-stripped nil = refl
  inline_list-stripped (cons n ns) = rw (inline_of-stripped n, inline_list-stripped ns)

  inline_opt-stripped : (o : OptNode) → inline_opt (stripped_opt o) ≡ []
  inline_opt-stripped absent = refl
  inline_opt-stripped (present n) = inline_of-stripped n

mutual
  unfolding stripped

  stripped-stripped : (n : AstNode) → stripped (stripped n) ≡ stripped n
  stripped-stripped (node_pattern v l p c) = refl
  stripped-stripped (relationship_pattern v t p d low high var_len c q w total) = refl
  stripped-stripped (path_pattern v es) = rw (stripped_opt-stripped v, stripped_list-stripped es)
  stripped-stripped (pattern ps) = rw (stripped_list-stripped ps)
  stripped-stripped _ = refl

  stripped_list-stripped : (ns : AstNodes) → stripped_list (stripped_list ns) ≡ stripped_list ns
  stripped_list-stripped nil = refl
  stripped_list-stripped (cons n ns) = rw (stripped-stripped n, stripped_list-stripped ns)

  stripped_opt-stripped : (o : OptNode) → stripped_opt (stripped_opt o) ≡ stripped_opt o
  stripped_opt-stripped absent = refl
  stripped_opt-stripped (present n) = rw (stripped-stripped n)

where_pred-where_of : (ps : List AstNode) → where_of (where_pred (where_of ps) ++ []) ≡ where_of ps
where_pred-where_of [] = refl
where_pred-where_of (p ∷ ps) = refl

-- Lowering a MATCH takes every inline predicate off its own pattern, so that a second lowering
-- changes nothing.
pub lower_node-match :
    (pat : AstNode) (optional : Bool) (condition : OptNode) (hints : List String)
    (search_of : OptNode)
    → (inline_of (stripped pat) ≡ [])
      × ((lower_node (match_clause pat optional condition hints search_of) >>= lower_node)
          ≡ lower_node (match_clause pat optional condition hints search_of))
unfolding lower_node hoisted
lower_node-match pat optional condition hints search_of = (
  inline_of-stripped pat,
  rw (inline_of-stripped pat, stripped-stripped pat, where_pred-where_of (hoisted pat condition)),
)

and3-true :
    (a b : Option Bool)
    → cypher_true (truth (and3 a b)) ≡ some true
    → (a ≡ some true) × (b ≡ some true)
unfolding cypher_true
and3-true (some true) (some true) h = (refl, refl)
and3-true (some true) (some false) h = cc
and3-true (some true) none h = cc
and3-true (some false) b h = cc
and3-true none (some true) h = cc
and3-true none (some false) h = cc
and3-true none none h = cc

truth-eq : {v w : Value} → ok w ≡ ok v → cypher_true v ≡ some true → cypher_true w ≡ some true
truth-eq e t = cc

module _ (py : Builtins) (engine : AstNode → Env → Result Value) (env : Env) where
  -- A row passes WHERE when the predicate evaluates to something that is true.
  abbrev pub Holds : AstNode → Type 0
  Holds n = (v : Value) × (eval py engine n env ≡ ok v) × (cypher_true v ≡ some true)

  abbrev IsTrue : Result Value → Type 0
  IsTrue r = (v : Value) × (r ≡ ok v) × (cypher_true v ≡ some true)

  both :
      (l r : Result Value)
      → IsTrue (l >>= λ x. r >>= λ y. binary_value py and x y)
      → IsTrue l × IsTrue r
  unfolding binary_value
  both (ok x) (ok y) (v, e, t) =
      let k = and3-true (cypher_true x) (cypher_true y) (truth-eq e t) in
      ((x, refl, k.0), (y, refl, k.1))
  both (ok x) (err f) (v, e, t) = cc
  both (err f) r (v, e, t) = cc

  from_both :
      (l r : Result Value)
      → IsTrue l
      → IsTrue r
      → IsTrue (l >>= λ x. r >>= λ y. binary_value py and x y)
  unfolding binary_value cypher_true
  from_both l r (x, p, t) (y, q, u) = (flag true, rw (p, q, t, u), refl)

  conjunction-Holds :
      (p : AstNode) (ps : List AstNode) → Holds (conjunction p ps) ↔ All Holds (p ∷ ps)
  unfolding eval
  conjunction-Holds p [] = (λ h. also h none_left, λ h. All-head h)
  conjunction-Holds p (q ∷ qs) =
      let l = eval py engine p env in
      let r = eval py engine q env in
      let (to, from) = conjunction-Holds (binary and p q) qs in
      (
        λ h. let k = to h in let (hp, hq) = both l r (All-head k) in also hp (also hq (All-tail k)),
        λ h.
            from
              (also (from_both l r (All-head h) (All-head (All-tail h))) (All-tail (All-tail h))),
      )

  -- Every row that passes an optional WHERE passes its predicate; without one, all rows pass.
  abbrev pub Passes : OptNode → Type 0
  Passes condition = (p : AstNode) → IsPredicate p condition → Holds p

  All-Holds-Passes : (o : OptNode) → Passes o → All Holds (where_pred o)
  All-Holds-Passes o h = All-of_In (where_pred o) (λ p i. h p ((where_pred-In o p).0 i))

  Passes-where_of : (ps : List AstNode) → Passes (where_of ps) ↔ All Holds ps
  Passes-where_of [] = (λ h. none_left, λ h p i. elim i [ ])
  Passes-where_of (p ∷ ps) =
      let (to, from) = conjunction-Holds p ps in
      (
        λ h. to (h (conjunction p ps) of_where),
        λ h q i. All-In {P = Holds} (also (from h) none_left) ((where_pred-In _ q).1 i),
      )

  hoisted-All :
      (pat : AstNode) (condition : OptNode)
      → All Holds (hoisted pat condition)
        ↔ (Passes condition × ((p : AstNode) → Inside p pat → Holds p))
  unfolding hoisted
  hoisted-All pat condition = (
    λ h.
        let (own, inner) = All-of_append (where_pred condition) h in
        (
          λ p i. All-In own ((where_pred-In condition p).1 i),
          λ p i. All-In inner ((inline_of-In pat p).1 i),
        ),
    λ k.
        All-append (All-Holds-Passes condition k.0)
          (All-of_In (inline_of pat) (λ p i. k.1 p ((inline_of-In pat p).0 i))),
  )

  -- Lowering a MATCH succeeds. A row passes the WHERE that it gets exactly if it passes the MATCH's
  -- own predicate, where there is one, and every predicate that stands at a node or relationship of
  -- the pattern itself or of its paths; those in a shortest path or a quantified path are not among
  -- them.
  pub hoisted-Holds :
      (pat : AstNode) (optional : Bool) (condition : OptNode) (hints : List String)
      (search_of : OptNode)
      → (after : OptNode) × (lower_node (match_clause pat optional condition hints search_of)
          ≡ ok (match_clause (stripped pat) optional after hints search_of))
        × (Passes after ↔ (Passes condition × ((p : AstNode) → Inside p pat → Holds p)))
  unfolding lower_node
  hoisted-Holds pat optional condition hints search_of =
      let (to, from) = Passes-where_of (hoisted pat condition) in
      let (parts, whole) = hoisted-All pat condition in
      (where_of (hoisted pat condition), refl, (λ h. parts (to h), λ k. from (whole k)))
