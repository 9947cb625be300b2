-- ===== src/Optimizer/Chains.antt =====
-- cypherast/optimizer/merge_match_chains.py: two MATCHes that follow each other become one, where the
-- second path goes on from the last node of the first. The parser puts a `Pattern` in a MATCH.
use cypherast.Prelude.{
  ◌≡◌, refl, ap, sym, String, Bool, true, false, ◌||◌, List, [], ◌∷◌, ◌++◌, Option, none, some,
  if◌then◌else◌,
}
use package.text.Mathlib.Text.{◌==◌}
use cypherast.Prelude.Dict.{has, string_eq}
use cypherast.Ast.{
  AstNode, AstNodes, OptNode, nil, cons, absent, present, ◌+++◌, match_clause, pattern,
  path_pattern, node_pattern, relationship_pattern, identifier, query,
}
use cypherast.Ast.Walk.{walk, below}
use cypherast.Ast.Transform.{transform}

abbrev name_of : OptNode → List String
name_of (present (identifier x)) = x ∷ []
name_of _ = []

abbrev element_name : AstNode → List String
element_name (node_pattern v labels properties condition) = name_of v
element_name (relationship_pattern v t p d low high l c q w z) = name_of v
element_name _ = []

abbrev names_among : List AstNode → List String
names_among [] = []
names_among (n ∷ ns) = element_name n ++ names_among ns

abbrev any_in : List String → List String → Bool
any_in [] ys = false
any_in (x ∷ xs) ys = has x ys || any_in xs ys

-- `_shares_var`
unfoldable pub shares_var : AstNode → AstNode → Bool
unfolding has below
shares_var p q = any_in (names_among (walk p)) (names_among (walk q))

abbrev paths_among : AstNodes → List (OptNode × AstNodes)
paths_among nil = []
paths_among (cons (path_pattern v es) ps) = (v, es) ∷ paths_among ps
paths_among (cons _ ps) = paths_among ps

abbrev only_path : AstNode → Option (OptNode × AstNodes)
only_path (pattern ps) = elim (paths_among ps) [
  | [] ↦ none
  | p ∷ qs ↦ elim qs [ [] ↦ some p | q ∷ rs ↦ none ]
]
only_path _ = none

-- `_node_var`
abbrev node_var : AstNode → Option String
node_var (node_pattern (present (identifier x)) labels properties condition) = some x
node_var _ = none

abbrev last_var : AstNodes → Option String
last_var nil = none
last_var (cons e nil) = node_var e
last_var (cons e es) = last_var es

abbrev same_var : Option String → Option String → Bool
same_var (some x) (some y) = x == y
same_var _ _ = false

abbrev stitched : OptNode × AstNodes → AstNodes → Option AstNode
stitched (v, left) nil = none
stitched (v, left) (cons e right) =
    if same_var (last_var left) (node_var e)
    then some (pattern (cons (path_pattern v (left +++ right)) nil))
    else none

-- `_stitch_patterns`
unfoldable pub stitch_patterns : AstNode → AstNode → Option AstNode
stitch_patterns p q = elim (only_path p) [
  | none ↦ none
  | some left ↦ elim (only_path q) [ none ↦ none | some right ↦ stitched left right.1 ]
]

-- The MATCH that two clauses make, without the hints of the first and of the second.
unfoldable pub chained : AstNode → AstNode → Option AstNode
unfolding shares_var stitch_patterns
chained (match_clause p false absent hints search_of)
      (match_clause q false absent hints2 search_of2) =
    if shares_var p q
    then elim (stitch_patterns p q) [
      | none ↦ none
      | some pat ↦ some (match_clause pat false absent [] absent)
    ]
    else none
chained _ _ = none

unfoldable mutual
  unfolding chained

  -- The clauses of a query, two at a time.
  pub merge_clauses : AstNodes → AstNodes
  merge_clauses nil = nil
  merge_clauses (cons c cs) = merge_from c cs

  pub merge_from : AstNode → AstNodes → AstNodes
  merge_from c nil = cons c nil
  merge_from c (cons d cs) =
      let after_both = merge_clauses cs in
      let after_one = merge_from d cs in
      elim (chained c d) [ some m ↦ cons m after_both | none ↦ cons c after_one ]

-- `_fix`
unfoldable pub merge_node : AstNode → AstNode
unfolding merge_clauses
merge_node (query cs) = query (merge_clauses cs)
merge_node n = n

unfoldable pub merge_match_chains : AstNode → AstNode
unfolding merge_node transform
merge_match_chains n = transform merge_node n

abbrev pub is_match : AstNode → Bool
is_match (match_clause _ _ _ _ _) = true
is_match _ = false

-- The clauses that are no MATCH.
abbrev pub others : AstNodes → AstNodes
others nil = nil
others (cons c cs) = if is_match c then others cs else cons c (others cs)

chained-match :
    (c d m : AstNode)
    → chained c d ≡ some m
    → (is_match c ≡ true) × (is_match d ≡ true) × (is_match m ≡ true)
unfolding chained
chained-match (match_clause p false absent h s) (match_clause q false absent h2 s2) m e =
    pick (shares_var p q) (stitch_patterns p q) e
  where
    pick :
        (b : Bool) (o : Option AstNode)
        → (if b
            then elim o [ none ↦ none | some pat ↦ some (match_clause pat false absent [] absent) ]
            else none)
          ≡ some m
        → (true ≡ true) × (true ≡ true) × (is_match m ≡ true)
    pick true (some pat) e =
        let i : match_clause pat false absent [] absent ≡ m = cc in
        (refl, refl, ap is_match (sym i))
    pick true none e = cc
    pick false o e = cc
chained-match _ _ m e = cc

mutual
  unfolding merge_clauses merge_from

  same_others : (cs : AstNodes) → others (merge_clauses cs) ≡ others cs
  same_others nil = refl
  same_others (cons c cs) = same_others_from c cs

  same_others_from : (c : AstNode) (cs : AstNodes) → others (merge_from c cs) ≡ others (cons c cs)
  same_others_from c nil = refl
  same_others_from c (cons d cs) = pick (chained c d) refl (same_others cs) (same_others_from d cs)
    where
      pick :
          (o : Option AstNode)
          → chained c d ≡ o
          → others (merge_clauses cs) ≡ others cs
          → others (merge_from d cs) ≡ others (cons d cs)
          → others (elim o [ some m ↦ cons m (merge_clauses cs) | none ↦ cons c (merge_from d cs) ])
            ≡ others (cons c (cons d cs))
      pick none e p q = ap (λ t. if is_match c then t else cons c t) q
      pick (some m) e p q = let (a, b, k) = chained-match c d m e in rw (a, b, k) p

-- Merging changes MATCHes alone: the other clauses of the query stay, in their order.
pub others-merge_clauses : (cs : AstNodes) → others (merge_clauses cs) ≡ others cs
others-merge_clauses cs = same_others cs
