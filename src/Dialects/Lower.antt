-- ===== src/Dialects/Lower.antt =====
-- cypherast/dialects/lower.py: the core form of a surface tree. The tree is rewritten by the
-- `transform` that may raise. `WITH * WHERE` and `WITH *, item` are built by the constructor, whose
-- arguments that are not given are absent.
pub mod Core
pub mod Inside
pub mod Form
pub mod Hoist
mod Examples
use cypherast.Prelude.{
  String, Bool, true, false, not, ◌&&◌, ◌||◌, List, [], ◌∷◌, ◌++◌, Option, none, some,
  if◌then◌else◌, any,
}
use package.text.Mathlib.Text.{◌==◌}
use cypherast.Prelude.Text.{lower_member}
use cypherast.Prelude.Result.{Result, Error, ok, err, execute_error, attribute_error, ◌>>=◌}
use cypherast.Ast.{
  AstNode, AstNodes, OptNode, nil, cons, absent, present, ◌+++◌, star, identifier, alias,
  function_call, binary, and, query, for_clause, unwind, let_clause, filter_clause, filter_item,
  with_clause, return_clause, match_clause, where_clause, pattern_comprehension, call_subquery,
  group_by, node_pattern, relationship_pattern, path_pattern, pattern, search_clause, load_csv,
  admin_statement, when_query,
}
use cypherast.Ast.Walk.{walk, below}
use cypherast.Ast.Transform.Raising.{transform_result}
use cypherast.Ast.Equality.{AstNode-discrete}

abbrev pub unsupported : Error
unsupported = execute_error "CG1702"

abbrev given {ℓ} : {A : Type ℓ} → Option A → Bool
given none = false
given (some _) = true

abbrev pub is_present : OptNode → Bool
is_present absent = false
is_present (present _) = true

abbrev is_text : String → Option String → Bool
is_text s none = false
is_text s (some t) = t == s

-- What `_reject_unsupported_surface` refuses.
abbrev pub is_rejected : AstNode → Bool
is_rejected (search_clause _ _ _ _ _) = true
is_rejected (load_csv _ _ _ _) = true
is_rejected (admin_statement _) = true
is_rejected (when_query _ _) = true
is_rejected (relationship_pattern _ _ _ _ low high variable_length condition quantifier _ _) =
    is_text "wShortest" quantifier
    || (is_present condition
        && (variable_length || (given low || (given high || given quantifier))))
is_rejected _ = false

-- The final check: inline predicates that no clause took, and LET outside a query.
abbrev pub is_left : AstNode → Bool
is_left (node_pattern _ _ _ condition) = is_present condition
is_left (relationship_pattern _ _ _ _ _ _ _ condition _ _ _) = is_present condition
is_left (let_clause _) = true
is_left _ = false

abbrev pub where_pred : OptNode → List AstNode
where_pred absent = []
where_pred (present (where_clause p)) = p ∷ []
where_pred (present n) = n ∷ []

abbrev pub conjunction : AstNode → List AstNode → AstNode
conjunction p [] = p
conjunction p (q ∷ qs) = conjunction (binary and p q) qs

abbrev pub where_of : List AstNode → OptNode
where_of [] = absent
where_of (p ∷ ps) = present (where_clause (conjunction p ps))

-- The inline predicates of a pattern's own elements, in order (`_pattern_elements`), and the
-- pattern that is left when they are taken off.
unfoldable mutual
  pub inline_of : AstNode → List AstNode
  inline_of (node_pattern _ _ _ condition) = where_pred condition
  inline_of (relationship_pattern _ _ _ _ _ _ _ condition _ _ _) = where_pred condition
  inline_of (path_pattern variable elements) = inline_opt variable ++ inline_list elements
  inline_of (pattern paths) = inline_list paths
  inline_of _ = []

  pub inline_list : AstNodes → List AstNode
  inline_list nil = []
  inline_list (cons n ns) = inline_of n ++ inline_list ns

  pub inline_opt : OptNode → List AstNode
  inline_opt absent = []
  inline_opt (present n) = inline_of n

unfoldable mutual
  pub stripped : AstNode → AstNode
  stripped (node_pattern v l p _) = node_pattern v l p absent
  stripped (relationship_pattern v t p d low high var_len _ q w total) =
      relationship_pattern v t p d low high var_len absent q w total
  stripped (path_pattern variable elements) =
      path_pattern (stripped_opt variable) (stripped_list elements)
  stripped (pattern paths) = pattern (stripped_list paths)
  stripped n = n

  pub stripped_list : AstNodes → AstNodes
  stripped_list nil = nil
  stripped_list (cons n ns) = cons (stripped n) (stripped_list ns)

  pub stripped_opt : OptNode → OptNode
  stripped_opt absent = absent
  stripped_opt (present n) = present (stripped n)

-- `_hoisted_predicates`
unfoldable pub hoisted : AstNode → OptNode → List AstNode
unfolding inline_of
hoisted pat condition = where_pred condition ++ inline_of pat

-- WITH *, item
abbrev one_let : AstNode → AstNode
one_let n = with_clause (cons star (cons n nil)) false absent absent absent absent absent

abbrev let_items : AstNodes → AstNodes
let_items nil = nil
let_items (cons n ns) = cons (one_let n) (let_items ns)

abbrev let_expanded : AstNode → Result AstNodes
let_expanded (let_clause nil) = err unsupported
let_expanded (let_clause (cons n ns)) = ok (let_items (cons n ns))
let_expanded n = ok (cons n nil)

-- `_expand_let_clauses`
unfoldable pub expand_let : AstNodes → Result AstNodes
expand_let nil = ok nil
expand_let (cons n ns) = let_expanded n >>= (λ here. expand_let ns >>= (λ rest. ok (here +++ rest)))

-- name in _referenced_names(expr)
abbrev is_reference : String → AstNode → Bool
is_reference x (identifier y) = not (y == "") && y == x
is_reference x _ = false

abbrev referenced : AstNode → AstNode → Bool
referenced (identifier x) e = any (is_reference x) (walk e)
referenced _ e = false

abbrev item_predicate : AstNode → Result (List AstNode)
item_predicate (filter_item variable absent) = ok []
item_predicate (filter_item variable (present p)) =
    if referenced variable p then ok (p ∷ []) else err unsupported
item_predicate _ = err attribute_error

-- `_filter_predicates`
unfoldable pub filter_predicates : AstNodes → Result (List AstNode)
unfolding below
filter_predicates nil = ok []
filter_predicates (cons n ns) =
    item_predicate n >>= (λ here. filter_predicates ns >>= (λ rest. ok (here ++ rest)))

abbrev is_star : AstNode → Bool
is_star star = true
is_star _ = false

abbrev unaliased : AstNode → AstNode
unaliased (alias e _) = e
unaliased e = e

abbrev is_aggregate_call : AstNode → Bool
is_aggregate_call (function_call name _ _) = lower_member name (
    "count" ∷ "sum" ∷ "avg" ∷ "min" ∷ "max" ∷ "collect" ∷ "stdev" ∷ "stdevp" ∷ "percentilecont"
    ∷ "percentiledisc" ∷ [])
is_aggregate_call _ = false

-- `_is_aggregate`
unfoldable pub is_aggregate : AstNode → Bool
unfolding lower_member
is_aggregate e = is_aggregate_call (unaliased e)

abbrev same : AstNode → AstNode → Bool
same a b = elim (AstNode-discrete a b) [ yes _ ↦ true | no _ ↦ false ]

abbrev any_node : (AstNode → Bool) → AstNodes → Bool
any_node p nil = false
any_node p (cons n ns) = p n || any_node p ns

-- (core, alias) of a projection that is no aggregate
abbrev grouped : AstNode → AstNode × OptNode
grouped (alias e x) = (e, present x)
grouped e = (e, absent)

abbrev grouping_of : AstNodes → List (AstNode × OptNode)
grouping_of nil = []
grouping_of (cons e es) = if is_aggregate e then grouping_of es else grouped e ∷ grouping_of es

abbrev matches_key : AstNode → AstNode × OptNode → Bool
matches_key key (e, absent) = same key e
matches_key key (e, present x) = same key e || same key x

abbrev keep_first :
    AstNode × OptNode → Option (List (AstNode × OptNode)) → Option (List (AstNode × OptNode))
keep_first g none = none
keep_first g (some gs) = some (g ∷ gs)

abbrev pop_key : AstNode → List (AstNode × OptNode) → Option (List (AstNode × OptNode))
pop_key key [] = none
pop_key key (g ∷ gs) =
    let rest = pop_key key gs in if matches_key key g then some gs else keep_first g rest

abbrev all_popped : AstNodes → Option (List (AstNode × OptNode)) → Bool
all_popped _ none = false
all_popped nil (some []) = true
all_popped nil (some (g ∷ gs)) = false
all_popped (cons k ks) (some gs) = all_popped ks (pop_key k gs)

-- `_group_by_matches_projection`
unfoldable pub group_by_matches : AstNodes → AstNodes → Bool
unfolding is_aggregate
group_by_matches projections keys =
    if any_node is_star projections
    then false
    else if any_node is_aggregate projections
    then all_popped keys (some (grouping_of projections))
    else false

abbrev keys_of : AstNode → AstNodes
keys_of (group_by es) = es
keys_of n = cons n nil

-- `_lower_projection`, of the clause with its GROUP BY and of the clause without
unfoldable pub lower_projection : AstNodes → OptNode → (clause cleared : AstNode) → Result AstNode
unfolding group_by_matches
lower_projection es absent clause cleared = ok clause
lower_projection es (present g) clause cleared =
    if group_by_matches es (keys_of g) then ok cleared else err unsupported

-- `_lower_node`
unfoldable pub lower_node : AstNode → Result AstNode
unfolding expand_let filter_predicates hoisted stripped lower_projection
lower_node (for_clause e x) = ok (unwind e x)
lower_node (query clauses) = expand_let clauses >>= (λ cs. ok (query cs))
lower_node (filter_clause es) =
    filter_predicates es
    >>= (λ ps. ok (with_clause (cons star nil) false (where_of ps) absent absent absent absent))
lower_node (match_clause pat optional condition hints search_of) =
    ok (match_clause (stripped pat) optional (where_of (hoisted pat condition)) hints search_of)
lower_node (pattern_comprehension variable pat condition projection) =
    ok (pattern_comprehension variable (stripped pat) (where_of (hoisted pat condition)) projection)
lower_node (relationship_pattern v t p d low high var_len condition quantifier weight total) =
    if is_text "bfs" quantifier
    then ok (relationship_pattern v t p d low high var_len condition none absent absent)
    else ok (relationship_pattern v t p d low high var_len condition quantifier weight total)
lower_node (call_subquery inner variables optional in_transactions rows) =
    ok (call_subquery inner variables optional false absent)
lower_node (with_clause es distinct condition order_of skip_of limit_of group_by_of) =
    lower_projection es group_by_of
      (with_clause es distinct condition order_of skip_of limit_of group_by_of)
      (with_clause es distinct condition order_of skip_of limit_of absent)
lower_node (return_clause es distinct order_of skip_of limit_of group_by_of) =
    lower_projection es group_by_of
      (return_clause es distinct order_of skip_of limit_of group_by_of)
      (return_clause es distinct order_of skip_of limit_of absent)
lower_node n = ok n

unfoldable pub lower_to_core : AstNode → Result AstNode
unfolding transform_result lower_node below
lower_to_core tree =
    if any is_rejected (walk tree)
    then err unsupported
    else transform_result lower_node tree
      >>= (λ core. if any is_left (walk core) then err unsupported else ok core)
