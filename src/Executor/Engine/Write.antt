-- ===== src/Executor/Engine/Write.antt =====
-- The clauses of cypherast/executor/engine.py that change the graph: `_create` and its helpers,
-- `_set`, `_delete` and `_remove`. A node or relationship of a row is its id. `props` is passed by
-- keywords to `create_node` and `create_rel`, so that a property with the name of a parameter of
-- theirs raises TypeError. A change of a label reaches the object and the label index.
pub mod Merge
pub mod Keeps
pub mod Creates
use cypherast.Prelude.{
  ℕ, String, Bool, true, false, not, ◌&&◌, ◌||◌, List, [], ◌∷◌, ◌++◌, Option, none, some,
  if◌then◌else◌,
}
use cypherast.Prelude.Dict.{lookup, insert, remove, modify, has, add, discard, string_eq, nat_eq}
use cypherast.Prelude.Result.{
  Result, ok, err, type_error, index_error, assertion_error, attribute_error, execute_error,
  ◌>>=◌ as and_then,
}
use cypherast.Ast.{
  AstNode, AstNodes, OptNode, Entries, Direction, outgoing, incoming, both, nil, cons, absent,
  present, end, entry, node_pattern, relationship_pattern, path_pattern, pattern, identifier,
  property, set_item, remove_labels,
}
use cypherast.Executor.Value.{Value, nothing, dict, node_ref, rel_ref}
use cypherast.Executor.Graph.{
  Graph, NodeObject, RelObject, create_node, create_rel, delete_node, delete_rel, ids_with,
}
use cypherast.Executor.Python.{is_null}
use cypherast.Executor.Env.{Env, pairs}
use cypherast.Executor.Engine.Row.{Row, updated, env_of, variable_of, labels_in, entries_in}
use cypherast.Executor.Engine.Action.{Action, done, raised, reading, each, ◌>>=◌}

abbrev Props : Type 0
Props = List (String × Value)

abbrev without_nulls : Props → Props
without_nulls [] = []
without_nulls ((k, v) ∷ m) = if is_null v then without_nulls m else (k, v) ∷ without_nulls m

-- obj.props of a node or a relationship, changed in place
unfoldable pub change_props : Value → (Props → Props) → Graph → Graph
unfolding modify
change_props (node_ref n) f g = record g {
  node_objects = modify n (λ o. record o { props = f o.props }) g.node_objects;
}
change_props (rel_ref r) f g = record g {
  rel_objects = modify r (λ o. record o { props = f o.props }) g.rel_objects;
}
change_props _ f g = g

-- obj.labels.add(lab), and the id in the label's set; an id without an object is no node
unfoldable pub add_label : ℕ → String → Graph → Graph
unfolding lookup modify add insert ids_with
add_label n l g = elim (lookup n g.node_objects) [
  | none ↦ g
  | some o ↦ record g {
    node_objects = modify n (λ o. record o { labels = add l o.labels }) g.node_objects;
    by_label = insert l (add n (ids_with l g.by_label)) g.by_label;
  }
]

-- obj.labels.discard(lab), and the id taken from the label's set, if there is one
unfoldable pub remove_label : ℕ → String → Graph → Graph
unfolding modify discard
remove_label n l g = record g {
  node_objects = modify n (λ o. record o { labels = discard l o.labels }) g.node_objects;
  by_label = modify l (discard n) g.by_label;
}

abbrev pub changed_by {ℓ} : {A : Type ℓ} → (A → Graph → Graph) → List A → Graph → Graph
changed_by f [] g = g
changed_by f (x ∷ xs) g = changed_by f xs (f x g)

abbrev pub changing {ℓ} : {A : Type ℓ} → A → (Graph → Graph) → Action A
changing a f g = (ok a, f g)

abbrev bound_to : Option String → Value → Row → Row
bound_to none v row = row
bound_to (some x) v row = insert x v row

abbrev bound_node : Option String → Row → Option ℕ
bound_node none row = none
bound_node (some x) row = elim (lookup x row) [ some (node_ref n) ↦ some n | _ ↦ none ]

abbrev clash : List String → Props → Bool
clash names [] = false
clash names ((k, v) ∷ m) = has k names || clash names m

-- self.graph.create_node(labels, **props)
unfoldable pub new_node : List String → Props → Action ℕ
unfolding create_node has
new_node labels props g =
    if clash ("self" ∷ "labels" ∷ []) props
    then (err type_error, g)
    else let (n, h) = create_node labels props g in (ok n, h)

-- self.graph.create_rel(start, end, typ, **props)
unfoldable pub new_rel : ℕ → ℕ → String → Props → Action ℕ
unfolding create_rel has
new_rel s e typ props g =
    if clash ("self" ∷ "start" ∷ "end" ∷ "type" ∷ []) props
    then (err type_error, g)
    else let (r, h) = create_rel s e typ props g in (ok r, h)

-- (pat.types or ["REL"])[0]
abbrev first_type : List String → String
first_type [] = "REL"
first_type (t ∷ ts) = t

abbrev started : Option ℕ → Action ℕ
started none = raised assertion_error
started (some n) = done n

abbrev is_plus : Option String → Bool
is_plus none = false
is_plus (some op) = string_eq.beq op "+="

-- SET n.name = v, on the value of n
unfoldable pub set_property : (plus : Bool) → String → Value → Value → Graph → Graph
unfolding change_props updated insert remove is_null
set_property true name (dict fs) o = change_props o (λ m. updated m (pairs fs))
set_property true name v o = λ g. g
set_property false name v o =
    change_props o (λ m. if is_null v then remove name m else insert name v m)

-- SET n = map, and SET n += map
unfoldable pub set_all : (plus : Bool) → Value → Option Value → Graph → Graph
unfolding change_props updated
set_all plus (dict fs) (some (node_ref n)) =
    change_props (node_ref n) (λ m. if plus then updated m (pairs fs) else pairs fs)
set_all plus v o = λ g. g

abbrev set_labels : List String → Option Value → Graph → Graph
set_labels ls (some (node_ref n)) g = changed_by (add_label n) ls g
set_labels ls o g = g

abbrev at_name : Option String → Row → Option Value
at_name none row = none
at_name (some x) row = lookup x row

abbrev unlabel : List String → Option Value → Graph → Graph
unlabel ls (some (node_ref n)) g = changed_by (remove_label n) ls g
unlabel ls o g = g

abbrev name_in : AstNode → Option String
name_in (identifier x) = some x
name_in _ = none

module _ (ev : AstNode → Env → Result Value) (params : Row) where
  abbrev valued : AstNode → Row → Graph → Result Value
  valued e row g = ev e (env_of params g row)

  -- The property map of a pattern.
  unfoldable pub eval_props : Entries → Row → Props → Graph → Result Props
  unfolding insert updated
  eval_props end row m g = ok m
  eval_props (entry k e es) row m g =
      and_then (valued e row g) (λ v. eval_props es row (insert k v m) g)

  -- `_create_node`
  unfoldable pub node_for : (variable labels properties : OptNode) → Row → Action ℕ
  unfolding eval_props new_node lookup ◌>>=◌ is_null
  node_for variable labels properties row = elim (bound_node (variable_of variable) row) [
    | some n ↦ done n
    | none ↦ reading (eval_props (entries_in properties) row []) >>= λ m.
        new_node (labels_in labels) (without_nulls m)
  ]

  -- `_create_rel`
  unfoldable pub rel_for : (types : List String) → OptNode → Direction → ℕ → ℕ → Row → Action ℕ
  unfolding eval_props new_rel ◌>>=◌ is_null
  rel_for types properties direction s e row =
      reading (eval_props (entries_in properties) row []) >>= λ m.
      joined direction (without_nulls m)
    where
      joined : Direction → Props → Action ℕ
      joined incoming m = new_rel e s (first_type types) m
      joined _ m = new_rel s e (first_type types) m

  -- The elements of one path.
  unfoldable pub create_path : AstNodes → (prev : Option ℕ) → Row → Action Row
  unfolding node_for rel_for insert ◌>>=◌
  create_path nil prev row = done row
  create_path (cons (node_pattern v labels properties c) rest) prev row =
      node_for v labels properties row >>= λ n.
      create_path rest (some n) (bound_to (variable_of v) (node_ref n) row)
  create_path (cons (relationship_pattern v types rp d low high l c q w z) nil) prev row =
      raised index_error
  create_path
        (cons
          (relationship_pattern v types rp d low high l c q w z)
          (cons (node_pattern nv labels np nc) rest))
        prev row =
      node_for nv labels np row >>= λ n.
      let row1 = bound_to (variable_of nv) (node_ref n) row in
      started prev >>= λ s. rel_for types rp d s n row1 >>= λ r.
      create_path rest (some n) (bound_to (variable_of v) (rel_ref r) row1)
  create_path (cons (relationship_pattern v types rp d low high l c q w z) (cons _ rest)) prev row =
      raised assertion_error
  create_path (cons _ rest) prev row = create_path rest prev row

  unfoldable pub create_paths : AstNodes → Row → Action Row
  unfolding create_path ◌>>=◌
  create_paths nil row = done row
  create_paths (cons (path_pattern v es) ps) row = create_path es none row >>= create_paths ps
  create_paths (cons _ ps) row = raised attribute_error

  -- `_create_pattern`
  abbrev pub create_pattern : AstNode → Row → Action Row
  create_pattern (pattern paths) row = create_paths paths row
  create_pattern _ row = raised attribute_error

  -- `_create`: without a row the pattern is created once all the same.
  unfoldable pub create_rows : AstNode → List Row → Action (List Row)
  unfolding create_paths each ◌>>=◌
  create_rows pat [] = create_pattern pat [] >>= λ r. done (r ∷ [])
  create_rows pat (r ∷ rs) = each (create_pattern pat) (r ∷ rs)

  abbrev optional_value : OptNode → Row → Graph → Result Value
  optional_value absent row g = err (execute_error "CG1702")
  optional_value (present e) row g = valued e row g

  abbrev set_target : AstNode → Option String → Value → Row → Action Row
  set_target (property e name) op v row =
      reading (valued e row) >>= λ o. changing row (set_property (is_plus op) name v o)
  set_target (node_pattern x labels p c) op v row =
      changing row (set_labels (labels_in labels) (at_name (variable_of x) row))
  set_target (identifier x) op v row = changing row (set_all (is_plus op) v (lookup x row))
  set_target _ op v row = done row

  -- `_set` on one row; the right-hand side is evaluated first
  unfoldable pub set_items : AstNodes → Row → Action Row
  unfolding set_property set_all add_label lookup updated ◌>>=◌
  set_items nil row = done row
  set_items (cons (set_item target e op) items) row =
      reading (optional_value e row) >>= λ v. set_target target op v row >>= set_items items
  set_items (cons _ items) row = raised assertion_error

  abbrev delete_value : (detach : Bool) → Value → Row → Action Row
  delete_value detach (node_ref n) row g = elim (delete_node n detach g) [
    | err e ↦ (err e, g)
    | ok h ↦ (ok row, h)
  ]
  delete_value detach (rel_ref r) row g = (ok row, delete_rel r g)
  delete_value detach _ row g = (ok row, g)

  -- `_delete` on one row
  unfoldable pub delete_items : AstNodes → (detach : Bool) → Row → Action Row
  unfolding delete_node delete_rel updated ◌>>=◌
  delete_items nil detach row = done row
  delete_items (cons e es) detach row =
      reading (valued e row) >>= λ o. delete_value detach o row >>= delete_items es detach

  abbrev remove_item : AstNode → Row → Action Row
  remove_item (property e name) row =
      reading (valued e row) >>= λ o. changing row (change_props o (remove name))
  remove_item (remove_labels x labels) row =
      changing row (unlabel (labels_in (present labels)) (at_name (name_in x) row))
  remove_item (node_pattern x labels p c) row =
      changing row (unlabel (labels_in labels) (at_name (variable_of x) row))
  remove_item _ row = done row

  -- `_remove` on one row
  unfoldable pub remove_items : AstNodes → Row → Action Row
  unfolding change_props remove_label remove lookup updated ◌>>=◌
  remove_items nil row = done row
  remove_items (cons i is) row = remove_item i row >>= remove_items is
