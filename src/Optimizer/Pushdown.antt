-- ===== src/Optimizer/Pushdown.antt =====
-- cypherast/optimizer/pushdown_predicates.py: an equation of a property with a literal in a MATCH's
-- WHERE becomes an entry of the pattern's property map. The parser puts a `Where` in the condition
-- and paths in a pattern; anything else there raises AttributeError.
pub mod Kept
pub mod Conjuncts
use cypherast.Prelude.{
  String, Bool, true, false, ◌||◌, List, [], ◌∷◌, Option, none, some, if◌then◌else◌,
}
use package.text.Mathlib.Text.{◌==◌}
use cypherast.Prelude.Result.{Result, ok, err, attribute_error, ◌>>=◌}
use cypherast.Ast.{
  AstNode, AstNodes, OptNode, Entries, nil, cons, absent, present, end, entry, match_clause,
  where_clause, pattern, path_pattern, node_pattern, identifier, property, binary, and, eq, integer,
  float, string, boolean, map_literal,
}
use cypherast.Ast.Transform.Raising.{transform_result}

-- What an element, or the elements of a path, have to do with an entry: nothing, it stands there
-- already, or it has been put in.
pub data Injection {ℓ} (A : Type ℓ) : Type ℓ where
  elsewhere blocked : Injection A
  injected : A → Injection A

abbrev pub entries_of : OptNode → Entries
entries_of (present (map_literal es)) = es
entries_of _ = end

abbrev has_key : String → Entries → Bool
has_key k end = false
has_key k (entry j e es) = j == k || has_key k es

-- entries.append((prop, value))
abbrev pub with_entry : Entries → String → AstNode → Entries
with_entry end k v = entry k v end
with_entry (entry j e es) k v = entry j e (with_entry es k v)

unfoldable pub inject_element : (var prop : String) → AstNode → AstNode → Injection AstNode
inject_element var prop value (node_pattern (present (identifier x)) labels properties condition) =
    if x == var
    then if has_key prop (entries_of properties)
      then blocked
      else injected (
          node_pattern (present (identifier x)) labels
            (present (map_literal (with_entry (entries_of properties) prop value))) condition)
    else elsewhere
inject_element var prop value n = elsewhere

unfoldable pub inject_elements : (var prop : String) → AstNode → AstNodes → Injection AstNodes
unfolding inject_element
inject_elements var prop value nil = elsewhere
inject_elements var prop value (cons e es) =
    let rest = inject_elements var prop value es in
    elim (inject_element var prop value e) [
      | injected n ↦ injected (cons n es)
      | blocked ↦ blocked
      | elsewhere ↦ elim rest [
        | injected ns ↦ injected (cons e ns)
        | blocked ↦ blocked
        | elsewhere ↦ elsewhere
      ]
    ]

abbrev path_after :
    OptNode
    → AstNodes
    → AstNodes
    → Injection AstNodes
    → Result (Injection AstNodes)
    → Result (Injection AstNodes)
path_after v es ps (injected ns) rest = ok (injected (cons (path_pattern v ns) ps))
path_after v es ps blocked rest = ok blocked
path_after v es ps elsewhere rest = rest >>= λ i. elim i [
  | injected qs ↦ ok (injected (cons (path_pattern v es) qs))
  | blocked ↦ ok blocked
  | elsewhere ↦ ok elsewhere
]

unfoldable pub inject_paths : (var prop : String) → AstNode → AstNodes → Result (Injection AstNodes)
unfolding inject_elements
inject_paths var prop value nil = ok elsewhere
inject_paths var prop value (cons (path_pattern v es) ps) =
    path_after v es ps (inject_elements var prop value es) (inject_paths var prop value ps)
inject_paths var prop value (cons _ ps) = err attribute_error

-- `_inject_prop`: the pattern with the entry, where it can be put in
unfoldable pub inject_prop : (var prop : String) → AstNode → AstNode → Result (Option AstNode)
unfolding inject_paths
inject_prop var prop value (pattern ps) = inject_paths var prop value ps >>= λ i. elim i [
  | injected qs ↦ ok (some (pattern qs))
  | blocked ↦ ok none
  | elsewhere ↦ ok none
]
inject_prop var prop value _ = err attribute_error

abbrev is_literal : AstNode → Bool
is_literal (integer _) = true
is_literal (float _) = true
is_literal (string _) = true
is_literal (boolean _) = true
is_literal _ = false

-- What is left of a predicate, whether a part of it was folded, and the pattern then.
pub record Folded : Type 0 where
  pub remaining : Option AstNode
  pub folded : Bool
  pub left_pattern : AstNode

abbrev kept : AstNode → AstNode → Folded
kept pred pat = record { remaining = some pred; folded = false; left_pattern = pat }

abbrev both_of : Option AstNode → Option AstNode → Option AstNode
both_of none r = r
both_of (some l) none = some l
both_of (some l) (some r) = some (binary and l r)

abbrev folded_into : AstNode → AstNode → Option AstNode → Folded
folded_into pred pat none = kept pred pat
folded_into pred pat (some new) = record { remaining = none; folded = true; left_pattern = new }

-- `_try_fold`
unfoldable pub try_fold : AstNode → (pat : AstNode) → Result Folded
unfolding inject_prop
try_fold (binary and l r) pat = try_fold l pat >>= λ (a : Folded).
    try_fold r a.left_pattern >>= λ (b : Folded). ok (record {
      remaining = both_of a.remaining b.remaining;
      folded = a.folded || b.folded;
      left_pattern = b.left_pattern;
    })
try_fold (binary eq (property (identifier x) prop) value) pat =
    if is_literal value
    then inject_prop x prop value pat
      >>= (λ new. ok (folded_into (binary eq (property (identifier x) prop) value) pat new))
    else ok (kept (binary eq (property (identifier x) prop) value) pat)
try_fold pred pat = ok (kept pred pat)

abbrev where_left : Option AstNode → OptNode
where_left none = absent
where_left (some p) = present (where_clause p)

-- `_fix`
unfoldable pub push_node : AstNode → Result AstNode
unfolding try_fold
push_node (match_clause pat optional absent hints search_of) =
    ok (match_clause pat optional absent hints search_of)
push_node (match_clause pat optional (present (where_clause pred)) hints search_of) =
    try_fold pred pat >>= λ (f : Folded). ok (
      if f.folded
      then match_clause f.left_pattern optional (where_left f.remaining) hints search_of
      else match_clause pat optional (present (where_clause pred)) hints search_of)
push_node (match_clause pat optional (present _) hints search_of) = err attribute_error
push_node n = ok n

unfoldable pub pushdown_predicates : AstNode → Result AstNode
unfolding push_node transform_result
pushdown_predicates n = transform_result push_node n
