-- ===== src/Executor/Engine/Match.antt =====
-- MATCH in cypherast/executor/engine.py: `_match`, `_match_pattern`, `_match_path`, `_expand`,
-- `_candidate_nodes`, `_node_matches` and `_candidate_rels`. A node or relationship is its id; two
-- lists of relationships are never one object (`is`), since each search makes its own.
pub mod Paths
pub mod Rows
use cypherast.Prelude.{
  ℕ, String, Bool, true, false, not, ◌&&◌, ◌||◌, List, [], ◌∷◌, ◌++◌, Option, none, some,
  if◌then◌else◌, ◌==◌, leb, map, ◌+◌,
}
use cypherast.Prelude.Dict.{lookup, insert, remove, has, nat_eq, string_eq}
use cypherast.Prelude.Result.{Result, ok, err, execute_error, attribute_error, ◌>>=◌}
use cypherast.Ast.{
  AstNode, AstNodes, OptNode, Entries, Direction, outgoing, incoming, both, nil, cons, absent,
  present, end, entry, node_pattern, relationship_pattern, path_pattern, pattern, shortest_path,
  match_clause, where_clause, identifier,
}
use cypherast.Ast.Walk.{walk, below}
use cypherast.Executor.Value.{Value, nothing, items, node_ref, rel_ref, Values, empty, item}
use cypherast.Executor.Graph.{Graph, nodes_with_label, all_nodes, out_rels, in_rels}
use cypherast.Executor.Python.{is_null, cypher_true, py_eq}
use cypherast.Executor.Env.{Env, Builtins, or_null, node_props, rel_props, node_labels}
use cypherast.Executor.Eval.{holds}
use cypherast.Executor.Engine.Row.{
  Row, updated, env_of, variable_of, labels_in, entries_in, flat_map_result, filter_result,
}
use cypherast.Executor.Engine.Trails.{Hops, goes_out, goes_in, type_allowed, var_expand}

abbrev pub path_acc : String
path_acc = "__path_acc__"

abbrev pub rel_values : List ℕ → Values
rel_values [] = empty
rel_values (r ∷ rs) = item (rel_ref r) (rel_values rs)

abbrev pub push : Values → Value → Values
push empty v = item v empty
push (item w ws) v = item w (push ws v)

abbrev pub list_in : Option Value → Values
list_in (some (items vs)) = vs
list_in _ = empty

-- What a name may be bound to before a pattern gives it a value: free, or the same object; NULL and
-- any other object refuse the match.
pub data Binding : Type 0 where
  free refused same : Binding

abbrev pub binding_of : Option Value → Value → Binding
binding_of none v = free
binding_of (some (node_ref i)) (node_ref j) = if i == j then same else refused
binding_of (some (rel_ref i)) (rel_ref j) = if i == j then same else refused
binding_of (some _) v = refused

-- row[name] = v, if the name lets it
unfoldable pub bind_name : Option String → Value → Row → Option Row
unfolding lookup insert
bind_name none v row = some row
bind_name (some x) v row = elim (binding_of (lookup x row) v) [
  | free ↦ some (insert x v row)
  | refused ↦ none
  | same ↦ some (insert x v row)
]

-- The bounds of a variable-length pattern.
abbrev pub or_default : ℕ → Option ℕ → ℕ
or_default d none = d
or_default d (some n) = n

abbrev pub hops_of : Direction → List String → Option ℕ → Option ℕ → Hops
hops_of direction types low high = record {
  direction = direction;
  types = types;
  min_hops = or_default 1 low;
  max_hops = or_default 10 high;
}

-- The relationships of one step, each once: `seen_rels` is read only where both directions are.
abbrev pub fresh : Bool → List ℕ → List ℕ → List ℕ
fresh once seen [] = []
fresh once seen (r ∷ rs) =
    if once && has r seen then fresh once seen rs else r ∷ fresh once (r ∷ seen) rs

abbrev pub is_both : Direction → Bool
is_both both = true
is_both _ = false

-- types[0] if types and len(types) == 1 else None
abbrev only_type : List String → Option String
only_type (t ∷ []) = some t
only_type _ = none

abbrev pub trail_values : List (List ℕ × ℕ) → List (Value × ℕ)
trail_values [] = []
trail_values ((rs, n) ∷ ts) = (items (rel_values rs), n) ∷ trail_values ts

module _ (py : Builtins) (ev : AstNode → Env → Result Value) (params : Row) (g : Graph) where
  -- The properties that a node pattern asks for: NULL matches nothing.
  abbrev node_entries : Entries → Row → List (String × Value) → Result Bool
  node_entries end row props = ok true
  node_entries (entry k e es) row props = ev e (env_of params g row) >>= λ expected.
      let actual = or_null (lookup k props) in
      let rest = node_entries es row props in
      if is_null expected || (is_null actual || not (py_eq py.floats expected actual))
      then ok false
      else rest

  abbrev has_all : List String → List String → Bool
  has_all [] labels = true
  has_all (l ∷ ls) labels = has l labels && has_all ls labels

  -- `_node_matches`
  unfoldable pub node_matches : (labels properties : OptNode) → ℕ → Row → Result Bool
  unfolding has lookup updated is_null py_eq
  node_matches labels properties n row =
      let o = lookup n g.node_objects in
      if has_all (labels_in labels) (node_labels o)
      then node_entries (entries_in properties) row (node_props o)
      else ok false

  -- The nodes that carry the labels, those with the first by the index.
  abbrev labelled : List String → List ℕ
  labelled [] = all_nodes g
  labelled (l ∷ ls) = keep_labelled ls (nodes_with_label l g)
    where
      keep_labelled : List String → List ℕ → List ℕ
      keep_labelled ls [] = []
      keep_labelled ls (n ∷ ns) =
          if has_all ls (node_labels (lookup n g.node_objects))
          then n ∷ keep_labelled ls ns
          else keep_labelled ls ns

  abbrev bound_value : Option String → Row → Option Value
  bound_value none row = none
  bound_value (some x) row = lookup x row

  -- `_candidate_nodes`
  unfoldable pub candidate_nodes : (variable labels properties : OptNode) → Row → Result (List ℕ)
  unfolding node_matches all_nodes nodes_with_label lookup has
  candidate_nodes variable labels properties row =
      let free_nodes =
        filter_result (λ n. node_matches labels properties n row) (labelled (labels_in labels)) in
      elim (bound_value (variable_of variable) row) [
        | none ↦ free_nodes
        | some v ↦ candidates_at v free_nodes labels properties row
      ]
    where
      candidates_at : Value → Result (List ℕ) → OptNode → OptNode → Row → Result (List ℕ)
      candidates_at nothing all labels properties row = ok []
      candidates_at (node_ref n) all labels properties row =
          node_matches labels properties n row >>= λ b. ok (if b then n ∷ [] else [])
      candidates_at _ all labels properties row = all

  abbrev rel_entries : Entries → List (String × Value) → Result Bool
  rel_entries end props = ok true
  rel_entries (entry k e es) props = ev e (record { graph = g; bindings = params }) >>= λ expected.
      let rest = rel_entries es props in
      if py_eq py.floats (or_null (lookup k props)) expected then rest else ok false

  -- `add`: the type, the node at the other end, and the properties, which are evaluated without the
  -- row
  abbrev rel_accepted : List String → OptNode → ℕ → ℕ → Result Bool
  rel_accepted types properties r other =
      let o = lookup r g.rel_objects in
      if type_allowed types o && has other g.nodes
      then rel_entries (entries_in properties) (rel_props o)
      else ok false

  abbrev of_types : List String → List ℕ → List ℕ
  of_types types [] = []
  of_types types (r ∷ rs) =
      if type_allowed types (lookup r g.rel_objects)
      then r ∷ of_types types rs
      else of_types types rs

  abbrev stop_of : ℕ → ℕ
  stop_of r = elim (lookup r g.rel_objects) [ none ↦ 0 | some rel ↦ rel.stop ]

  abbrev start_of : ℕ → ℕ
  start_of r = elim (lookup r g.rel_objects) [ none ↦ 0 | some rel ↦ rel.start ]

  abbrev added : List String → OptNode → (ℕ → ℕ) → List ℕ → Result (List (Value × ℕ))
  added types properties far [] = ok []
  added types properties far (r ∷ rs) = rel_accepted types properties r (far r) >>= λ b.
      added types properties far rs >>= λ rest. ok (if b then (rel_ref r, far r) ∷ rest else rest)

  -- The steps from a node, each with the node it leads to (`_candidate_rels`). A pattern of variable
  -- length does not look at the properties.
  unfoldable pub candidate_rels :
      List String
      → OptNode
      → Direction
      → (low high : Option ℕ) → (variable_length : Bool) → ℕ
      → Result (List (Value × ℕ))
  unfolding var_expand out_rels in_rels lookup has py_eq
  candidate_rels types properties direction low high true n =
      var_expand g (hops_of direction types low high) n >>= λ ts. ok (trail_values ts)
  candidate_rels types properties direction low high false n =
      let once = is_both direction in
      let outs =
        if goes_out direction
        then fresh once [] (of_types types (out_rels n (only_type types) g))
        else [] in
      let ins =
        if goes_in direction
        then fresh once outs (of_types types (in_rels n (only_type types) g))
        else [] in
      added types properties stop_of outs >>= λ xs.
      added types properties start_of ins >>= λ ys. ok (xs ++ ys)
