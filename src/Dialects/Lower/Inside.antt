-- ===== src/Dialects/Lower/Inside.antt =====
-- Where a predicate stands in a pattern, described apart from the code of
-- cypherast/dialects/lower.py that collects it.
use Prim.Native.Nat.{ℕ}
use cypherast.Prelude.{
  String, ◌≡◌, refl, sym, subst, ◌↔◌, Bool, true, false, List, [], ◌∷◌, Option, All, also,
  none_left, In, here, there, In-append, In-of_append, inl, inr,
}
use cypherast.Ast.{
  AstNode, AstNodes, OptNode, Direction, nil, cons, absent, present, where_clause, node_pattern,
  relationship_pattern, path_pattern, pattern,
}
use cypherast.Dialects.Lower.{where_pred, inline_of, inline_list, inline_opt}

abbrev is_where : AstNode → Bool
is_where (where_clause _) = true
is_where _ = false

-- The predicate of an optional WHERE.
pub data IsPredicate (p : AstNode) : OptNode → Type 0 where
  of_where : IsPredicate p (present (where_clause p))
  by_itself : is_where p ≡ false → IsPredicate p (present p)

-- The predicate stands at a node or relationship of the pattern itself or of its paths.
mutual
  pub data Inside (p : AstNode) : AstNode → Type 0 where
    at_node :
        {variable labels properties condition : OptNode}
        → IsPredicate p condition
        → Inside p (node_pattern variable labels properties condition)
    at_relationship :
        {variable properties condition weight total : OptNode} {types : List String}
        {direction : Direction} {low high : Option ℕ} {variable_length : Bool}
        {quantifier : Option String}
        → IsPredicate p condition
        → Inside p (
            relationship_pattern variable types properties direction low high variable_length
              condition quantifier weight total)
    at_variable :
        {n : AstNode} {elements : AstNodes}
        → Inside p n
        → Inside p (path_pattern (present n) elements)
    on_path :
        {variable : OptNode} {elements : AstNodes}
        → InsideOne p elements
        → Inside p (path_pattern variable elements)
    in_pattern : {paths : AstNodes} → InsideOne p paths → Inside p (pattern paths)

  pub data InsideOne (p : AstNode) : AstNodes → Type 0 where
    in_first : {n : AstNode} {ns : AstNodes} → Inside p n → InsideOne p (cons n ns)
    in_later : {n : AstNode} {ns : AstNodes} → InsideOne p ns → InsideOne p (cons n ns)

single : {p q : AstNode} → In p (q ∷ []) → p ≡ q
single here = refl
single (there i) = elim i [ ]

where_pred-bare : (p : AstNode) → is_where p ≡ false → where_pred (present p) ≡ p ∷ []
where_pred-bare (where_clause q) h = cc
where_pred-bare _ h = refl

IsPredicate-In : {o : OptNode} {p : AstNode} → IsPredicate p o → In p (where_pred o)
IsPredicate-In of_where = here
IsPredicate-In {p} (by_itself h) = subst (In p) (sym (where_pred-bare p h)) here

In-IsPredicate : (o : OptNode) (p : AstNode) → In p (where_pred o) → IsPredicate p o
In-IsPredicate absent p i = elim i [ ]
In-IsPredicate (present (where_clause q)) p i =
    subst (λ n. IsPredicate n (present (where_clause q))) (sym (single i)) of_where
In-IsPredicate (present n) p i =
    subst (λ m. IsPredicate m (present n)) (sym (single i)) (by_itself refl)

pub where_pred-In : (o : OptNode) (p : AstNode) → In p (where_pred o) ↔ IsPredicate p o
where_pred-In o p = (In-IsPredicate o p, IsPredicate-In)

mutual
  unfolding inline_of

  inline_of-Inside : (n p : AstNode) → In p (inline_of n) → Inside p n
  inline_of-Inside (node_pattern v l ps c) p i = at_node ((where_pred-In c p).0 i)
  inline_of-Inside (relationship_pattern v t ps d low high var_len c q w total) p i =
      at_relationship ((where_pred-In c p).0 i)
  inline_of-Inside (path_pattern absent es) p i = on_path (inline_list-Inside es p i)
  inline_of-Inside (path_pattern (present n) es) p i = elim (In-of_append (inline_of n) i) [
    | inl j ↦ at_variable (inline_of-Inside n p j)
    | inr j ↦ on_path (inline_list-Inside es p j)
  ]
  inline_of-Inside (pattern ps) p i = in_pattern (inline_list-Inside ps p i)
  inline_of-Inside _ p i = elim i [ ]

  inline_list-Inside : (ns : AstNodes) (p : AstNode) → In p (inline_list ns) → InsideOne p ns
  inline_list-Inside nil p i = elim i [ ]
  inline_list-Inside (cons n ns) p i = elim (In-of_append (inline_of n) i) [
    | inl j ↦ in_first (inline_of-Inside n p j)
    | inr j ↦ in_later (inline_list-Inside ns p j)
  ]

mutual
  unfolding inline_of

  Inside-inline_of : (n p : AstNode) → Inside p n → In p (inline_of n)
  Inside-inline_of _ p (at_node {condition} i) = (where_pred-In condition p).1 i
  Inside-inline_of _ p (at_relationship {condition} i) = (where_pred-In condition p).1 i
  Inside-inline_of _ p (at_variable {n} i) = In-append (inline_of n) (inl (Inside-inline_of n p i))
  Inside-inline_of _ p (on_path {variable} {elements} i) =
      In-append (inline_opt variable) (inr (InsideOne-inline_list elements p i))
  Inside-inline_of _ p (in_pattern {paths} i) = InsideOne-inline_list paths p i

  InsideOne-inline_list : (ns : AstNodes) (p : AstNode) → InsideOne p ns → In p (inline_list ns)
  InsideOne-inline_list _ p (in_first {n} i) =
      In-append (inline_of n) (inl (Inside-inline_of n p i))
  InsideOne-inline_list _ p (in_later {n} {ns} i) =
      In-append (inline_of n) (inr (InsideOne-inline_list ns p i))

pub inline_of-In : (n p : AstNode) → In p (inline_of n) ↔ Inside p n
inline_of-In n p = (inline_of-Inside n p, Inside-inline_of n p)

module _ {P : AstNode → Type 0} where
  pub All-In : {x : AstNode} {xs : List AstNode} → All P xs → In x xs → P x
  All-In none_left i = elim i [ ]
  All-In (also p ps) here = p
  All-In (also p ps) (there i) = All-In ps i

  pub All-of_In : (xs : List AstNode) → ((x : AstNode) → In x xs → P x) → All P xs
  All-of_In [] h = none_left
  All-of_In (x ∷ xs) h = also (h x here) (All-of_In xs (λ y i. h y (there i)))
