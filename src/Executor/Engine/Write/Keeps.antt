-- ===== src/Executor/Engine/Write/Keeps.antt =====
-- SET, DELETE and REMOVE keep the invariant of the graph, also where one raises half-way.
use cypherast.Prelude.{String, ◌≡◌, refl, Bool, true, false, List, [], ◌∷◌, Option, some}
use cypherast.Prelude.Result.{Error, Result, ok, err, assertion_error}
use cypherast.Ast.{
  AstNode, AstNodes, nil, cons, present, identifier, property, set_item, node_pattern,
  remove_labels,
}
use cypherast.Executor.Value.{Value, dict, node_ref, rel_ref}
use cypherast.Executor.Graph.{Graph, delete_node}
use cypherast.Executor.Env.{Env}
use cypherast.Executor.Engine.Row.{Row, labels_in, variable_of}
use cypherast.Executor.Engine.Action.{
  Action, done, raised, reading, each, ◌>>=◌, Ends, Hoare, sequenced,
}
use cypherast.Executor.Engine.Sound.{
  IsSound, change_props-IsSound, add_label-IsSound, remove_label-IsSound, delete_rel-IsSound,
  delete_node-IsSound,
}
use cypherast.Executor.Engine.Write.{
  changing, changed_by, add_label, remove_label, set_property, set_all, set_labels, set_target,
  set_items, delete_value, delete_items, unlabel, remove_item, remove_items, is_plus, at_name,
  name_in,
}

-- The operation keeps the invariant, whether it raises or not.
abbrev pub Keeps {ℓ} : {A : Type ℓ} → Action A → Type ℓ
Keeps m = Hoare IsSound IsSound m (λ a g. IsSound g)

module _ {ℓ} {A : Type ℓ} where
  pub Keeps-done : (a : A) → Keeps (done a)
  unfolding Ends
  Keeps-done a = record { ends = λ g s. s }

  pub Keeps-raised : (e : Error) → Keeps (raised {A = A} e)
  unfolding Ends
  Keeps-raised e = record { ends = λ g s. s }

  pub Keeps-reading : (f : Graph → Result A) → Keeps (reading f)
  unfolding Ends
  Keeps-reading f = record { ends = λ g s. kept (f g) s }
    where
      kept : {g : Graph} (r : Result A) → IsSound g → Ends IsSound (λ a g. IsSound g) (r, g)
      kept (ok a) s = s
      kept (err e) s = s

  pub Keeps-changing :
      (a : A) {f : Graph → Graph} → ((g : Graph) → IsSound g → IsSound (f g)) → Keeps (changing a f)
  unfolding Ends
  Keeps-changing a k = record { ends = λ g s. k g s }

module _ {ℓ κ} {A : Type ℓ} {B : Type κ} where
  pub Keeps-bind :
      {m : Action A} {f : A → Action B} → Keeps m → ((a : A) → Keeps (f a)) → Keeps (m >>= f)
  Keeps-bind p k = sequenced p k

module _ {ℓ κ} {A : Type ℓ} {B : Type κ} where
  pub Keeps-each : (f : A → Action B) → ((a : A) → Keeps (f a)) → (xs : List A) → Keeps (each f xs)
  unfolding each
  Keeps-each f k [] = Keeps-done []
  Keeps-each f k (x ∷ xs) =
      Keeps-bind (k x) (λ y. Keeps-bind (Keeps-each f k xs) (λ ys. Keeps-done (y ∷ ys)))

changed_by-IsSound {ℓ} :
    {A : Type ℓ} (f : A → Graph → Graph)
    → ((a : A) (g : Graph) → IsSound g → IsSound (f a g))
    → (xs : List A) {g : Graph} → IsSound g
    → IsSound (changed_by f xs g)
changed_by-IsSound f k [] s = s
changed_by-IsSound f k (x ∷ xs) s = changed_by-IsSound f k xs (k x _ s)

set_property-IsSound :
    (plus : Bool) (name : String) (v o : Value) {g : Graph}
    → IsSound g
    → IsSound (set_property plus name v o g)
unfolding set_property
set_property-IsSound true name (dict fs) o s = change_props-IsSound o _ s
set_property-IsSound true name _ o s = s
set_property-IsSound false name v o s = change_props-IsSound o _ s

set_all-IsSound :
    (plus : Bool) (v : Value) (o : Option Value) {g : Graph}
    → IsSound g
    → IsSound (set_all plus v o g)
unfolding set_all
set_all-IsSound plus (dict fs) (some (node_ref n)) s = change_props-IsSound (node_ref n) _ s
set_all-IsSound plus _ _ s = s

set_labels-IsSound :
    (ls : List String) (o : Option Value) {g : Graph} → IsSound g → IsSound (set_labels ls o g)
set_labels-IsSound ls (some (node_ref n)) s =
    changed_by-IsSound (add_label n) (λ l g s. add_label-IsSound n l s) ls s
set_labels-IsSound ls _ s = s

unlabel-IsSound :
    (ls : List String) (o : Option Value) {g : Graph} → IsSound g → IsSound (unlabel ls o g)
unlabel-IsSound ls (some (node_ref n)) s =
    changed_by-IsSound (remove_label n) (λ l g s. remove_label-IsSound n l s) ls s
unlabel-IsSound ls _ s = s

module _ (ev : AstNode → Env → Result Value) (params : Row) where
  set_target-Keeps :
      (t : AstNode) (op : Option String) (v : Value) (row : Row)
      → Keeps (set_target ev params t op v row)
  set_target-Keeps (property e name) op v row =
      Keeps-bind (Keeps-reading _)
        (λ o. Keeps-changing row (λ g s. set_property-IsSound (is_plus op) name v o s))
  set_target-Keeps (node_pattern x labels p c) op v row =
      Keeps-changing row
        (λ g s. set_labels-IsSound (labels_in labels) (at_name (variable_of x) row) s)
  set_target-Keeps (identifier x) op v row =
      Keeps-changing row (λ g s. set_all-IsSound (is_plus op) v _ s)
  set_target-Keeps _ op v row = Keeps-done row

  pub set_items-Keeps : (items : AstNodes) (row : Row) → Keeps (set_items ev params items row)
  unfolding set_items
  set_items-Keeps nil row = Keeps-done row
  set_items-Keeps (cons (set_item target e op) items) row =
      Keeps-bind (Keeps-reading _)
        (λ v. Keeps-bind (set_target-Keeps target op v row) (λ r. set_items-Keeps items r))
  set_items-Keeps (cons _ items) row = Keeps-raised assertion_error

  delete_value-Keeps :
      (detach : Bool) (o : Value) (row : Row) → Keeps (delete_value ev params detach o row)
  unfolding Ends
  delete_value-Keeps detach (node_ref n) row = record {
    ends = λ g s. kept g s (delete_node n detach g) refl;
  }
    where
      kept :
          (g : Graph)
          → IsSound g
          → (r : Result Graph) → delete_node n detach g ≡ r
          → Ends {A = Row} IsSound
              (λ a h. IsSound h)
              (elim r [ err e ↦ (err e, g) | ok h ↦ (ok row, h) ])
      kept g s (err e) is = s
      kept g s (ok h) is = delete_node-IsSound n detach s is
  delete_value-Keeps detach (rel_ref r) row = record { ends = λ g s. delete_rel-IsSound r s }
  delete_value-Keeps detach _ row = record { ends = λ g s. s }

  pub delete_items-Keeps :
      (es : AstNodes) (detach : Bool) (row : Row) → Keeps (delete_items ev params es detach row)
  unfolding delete_items
  delete_items-Keeps nil detach row = Keeps-done row
  delete_items-Keeps (cons e es) detach row =
      Keeps-bind (Keeps-reading _)
        (λ o. Keeps-bind (delete_value-Keeps detach o row) (λ r. delete_items-Keeps es detach r))

  remove_item-Keeps : (i : AstNode) (row : Row) → Keeps (remove_item ev params i row)
  remove_item-Keeps (property e name) row =
      Keeps-bind (Keeps-reading _) (λ o. Keeps-changing row (λ g s. change_props-IsSound o _ s))
  remove_item-Keeps (remove_labels x labels) row =
      Keeps-changing row
        (λ g s. unlabel-IsSound (labels_in (present labels)) (at_name (name_in x) row) s)
  remove_item-Keeps (node_pattern x labels p c) row =
      Keeps-changing row (λ g s. unlabel-IsSound (labels_in labels) (at_name (variable_of x) row) s)
  remove_item-Keeps _ row = Keeps-done row

  pub remove_items-Keeps : (is : AstNodes) (row : Row) → Keeps (remove_items ev params is row)
  unfolding remove_items
  remove_items-Keeps nil row = Keeps-done row
  remove_items-Keeps (cons i is) row =
      Keeps-bind (remove_item-Keeps i row) (λ r. remove_items-Keeps is r)
