-- ===== src/Executor/Functions.antt =====
-- `_call` of cypherast/executor/env.py: the functions of a query that read paths, lists, nodes and
-- relationships, and the choice of the function by its name. `e`, `pi`, `rand`, `timestamp` and
-- `range` are Python's (`Builtins.library`), and so is `elementId`, whose label is the first that a
-- Python set gives.
pub mod Scalars
use Prim.Native.String.{compare as compare_text}
use package.text.Mathlib.Text.{is_le}
use cypherast.Prelude.{
  String, Bool, true, false, ◌||◌, List, [], ◌∷◌, Option, none, some, if◌then◌else◌, length,
}
use cypherast.Prelude.Int.{pos}
use cypherast.Prelude.Text.{lower_eq, lower_member}
use cypherast.Prelude.Dict.{lookup, nat_eq}
use cypherast.Prelude.Result.{Result, ok, err, type_error, index_error, execute_error, ◌>>=◌}
use cypherast.Executor.Value.{
  Value, nothing, int, text, items, tuple, dict, node_ref, rel_ref, Values, empty, item,
}
use cypherast.Executor.Graph.{Graph, RelObject}
use cypherast.Executor.Python.{is_null}
use cypherast.Executor.Functions.Scalars.{
  argument_at, fn_to_string, fn_text, fn_number, fn_replace, fn_split, fn_substring, fn_to_integer,
  fn_to_boolean, fn_sign, fn_cot, fn_atan2, fn_left, fn_right, fn_head, fn_last, fn_tail,
  fn_reverse,
}
use cypherast.Executor.Env.{Builtins, characters, count, pairs, fields, props_of, node_labels}

-- args[0]
abbrev argument : Values → Result Value
argument empty = err index_error
argument (item v vs) = ok v

abbrev is_node : Value → Bool
is_node (node_ref _) = true
is_node _ = false

abbrev is_rel : Value → Bool
is_rel (rel_ref _) = true
is_rel _ = false

abbrev pub those : (Value → Bool) → Values → Values
those is empty = empty
those is (item v vs) = if is v then item v (those is vs) else those is vs

abbrev pub first_node : Values → Value
first_node empty = nothing
first_node (item v vs) = if is_node v then v else first_node vs

-- list(reversed(v))
abbrev pub reverse_onto : Values → Values → Values
reverse_onto empty acc = acc
reverse_onto (item v vs) acc = reverse_onto vs (item v acc)

-- length: of a path, its relationships; of a text, its characters
unfoldable pub fn_length : Value → Value
fn_length (items xs) = int (pos (count (those is_rel xs)))
fn_length (text s) = int (pos (count (characters s)))
fn_length _ = nothing

unfoldable pub fn_members : (Value → Bool) → Value → Value
fn_members is (items xs) = items (those is xs)
fn_members is _ = nothing

unfoldable pub fn_start_node : Value → Value
fn_start_node (items xs) = first_node xs
fn_start_node _ = nothing

unfoldable pub fn_end_node : Value → Value
fn_end_node (items xs) = first_node (reverse_onto xs empty)
fn_end_node _ = nothing

-- size: len(v)
unfoldable pub fn_size : Value → Result Value
fn_size nothing = ok nothing
fn_size (items xs) = ok (int (pos (count xs)))
fn_size (tuple xs) = ok (int (pos (count xs)))
fn_size (text s) = ok (int (pos (count (characters s))))
fn_size (dict fs) = ok (int (pos (length (pairs fs))))
fn_size _ = err type_error

abbrev pub first_not_null : Values → Value
first_not_null empty = nothing
first_not_null (item v vs) = if is_null v then first_not_null vs else v

abbrev insert_sorted : String → List String → List String
insert_sorted s [] = s ∷ []
insert_sorted s (t ∷ ts) = if is_le (compare_text s t) then s ∷ t ∷ ts else t ∷ insert_sorted s ts

abbrev pub sorted : List String → List String
sorted [] = []
sorted (s ∷ ss) = insert_sorted s (sorted ss)

abbrev pub texts : List String → Values
texts [] = empty
texts (s ∷ ss) = item (text s) (texts ss)

unfoldable pub fn_labels : Graph → Value → Value
unfolding lookup
fn_labels g (node_ref i) = items (texts (sorted (node_labels (lookup i g.node_objects))))
fn_labels g _ = nothing

abbrev type_of : Option RelObject → Value
type_of none = nothing
type_of (some o) = text o.rel_type

unfoldable pub fn_type : Graph → Value → Value
unfolding lookup
fn_type g (rel_ref i) = type_of (lookup i g.rel_objects)
fn_type g _ = nothing

unfoldable pub fn_id : Value → Value
fn_id (node_ref i) = int (pos i)
fn_id (rel_ref i) = int (pos i)
fn_id _ = nothing

abbrev key_texts : List (String × Value) → Values
key_texts [] = empty
key_texts ((k, v) ∷ m) = item (text k) (key_texts m)

abbrev keys_of : Option (List (String × Value)) → Result Value
keys_of none = err (execute_error "CG1702")
keys_of (some m) = ok (items (key_texts m))

unfoldable pub fn_keys : Graph → Value → Result Value
unfolding is_null props_of
fn_keys g v = if is_null v then ok nothing else keys_of (props_of g v)

abbrev entity_props : Option (List (String × Value)) → Result Value
entity_props none = err (execute_error "CG1702")
entity_props (some m) = ok (dict (fields m))

-- properties(v): of a node or a relationship alone
unfoldable pub fn_properties : Graph → Value → Result Value
unfolding props_of
fn_properties g nothing = ok nothing
fn_properties g (node_ref i) = entity_props (props_of g (node_ref i))
fn_properties g (rel_ref i) = entity_props (props_of g (rel_ref i))
fn_properties g _ = err (execute_error "CG1702")

-- The value of a function call at its evaluated arguments.
unfoldable pub call : Builtins → Graph → String → Values → Result Value
unfolding lower_eq lower_member fn_length fn_members fn_start_node fn_end_node fn_size fn_labels
    fn_type fn_id fn_keys fn_properties fn_to_string fn_text fn_number fn_replace fn_split
    fn_substring fn_to_integer fn_to_boolean fn_sign fn_cot fn_atan2 fn_left fn_right fn_head
    fn_last fn_tail fn_reverse
call py g name args =
    if lower_eq name "length"
    then argument args >>= (λ v. ok (fn_length v))
    else if lower_eq name "nodes"
    then argument args >>= (λ v. ok (fn_members is_node v))
    else if lower_eq name "relationships" || lower_eq name "rels"
    then argument args >>= (λ v. ok (fn_members is_rel v))
    else if lower_eq name "startnode"
    then argument args >>= (λ v. ok (fn_start_node v))
    else if lower_eq name "endnode"
    then argument args >>= (λ v. ok (fn_end_node v))
    else if lower_eq name "size"
    then argument args >>= fn_size
    else if lower_eq name "coalesce"
    then ok (first_not_null args)
    else if lower_eq name "labels"
    then argument args >>= (λ v. ok (fn_labels g v))
    else if lower_eq name "type"
    then argument args >>= (λ v. ok (fn_type g v))
    else if lower_eq name "id"
    then argument args >>= (λ v. ok (fn_id v))
    else if lower_eq name "keys"
    then argument args >>= fn_keys g
    else if lower_eq name "properties"
    then argument args >>= fn_properties g
    else if lower_eq name "tostring"
    then argument args >>= fn_to_string py
    else if lower_eq name "tolower"
    then argument args >>= fn_text py "str.lower"
    else if lower_eq name "toupper"
    then argument args >>= fn_text py "str.upper"
    else if lower_eq name "trim"
    then argument args >>= fn_text py "str.strip"
    else if lower_eq name "ltrim"
    then argument args >>= fn_text py "str.lstrip"
    else if lower_eq name "rtrim"
    then argument args >>= fn_text py "str.rstrip"
    else if lower_eq name "replace"
    then argument args
      >>= (λ s. argument_at 1 args >>= (λ old. argument_at 2 args >>= fn_replace py s old))
    else if lower_eq name "split"
    then argument args >>= (λ v. argument_at 1 args >>= fn_split py v)
    else if lower_eq name "substring"
    then argument args >>= (λ s. fn_substring py s args)
    else if lower_eq name "tointeger"
    then argument args >>= fn_to_integer py
    else if lower_eq name "tofloat"
    then argument args >>= fn_number py "float"
    else if lower_eq name "toboolean"
    then argument args >>= (λ v. ok (fn_to_boolean py v))
    else if lower_eq name "abs"
    then argument args >>= fn_number py "abs"
    else if lower_eq name "ceil"
    then argument args >>= fn_number py "math.ceil"
    else if lower_eq name "floor"
    then argument args >>= fn_number py "math.floor"
    else if lower_eq name "round"
    then argument args >>= fn_number py "round"
    else if lower_eq name "sqrt"
    then argument args >>= fn_number py "math.sqrt"
    else if lower_eq name "exp"
    then argument args >>= fn_number py "math.exp"
    else if lower_eq name "log"
    then argument args >>= fn_number py "math.log"
    else if lower_eq name "log10"
    then argument args >>= fn_number py "math.log10"
    else if lower_eq name "sin"
    then argument args >>= fn_number py "math.sin"
    else if lower_eq name "cos"
    then argument args >>= fn_number py "math.cos"
    else if lower_eq name "tan"
    then argument args >>= fn_number py "math.tan"
    else if lower_eq name "acos"
    then argument args >>= fn_number py "math.acos"
    else if lower_eq name "asin"
    then argument args >>= fn_number py "math.asin"
    else if lower_eq name "atan"
    then argument args >>= fn_number py "math.atan"
    else if lower_eq name "degrees"
    then argument args >>= fn_number py "math.degrees"
    else if lower_eq name "radians"
    then argument args >>= fn_number py "math.radians"
    else if lower_eq name "sign"
    then argument args >>= fn_sign py
    else if lower_eq name "cot"
    then argument args >>= fn_cot py
    else if lower_eq name "atan2"
    then argument args >>= (λ v. argument_at 1 args >>= fn_atan2 py v)
    else if lower_eq name "left"
    then argument args >>= (λ v. argument_at 1 args >>= fn_left py v)
    else if lower_eq name "right"
    then argument args >>= (λ v. argument_at 1 args >>= fn_right py v)
    else if lower_eq name "head"
    then argument args >>= fn_head
    else if lower_eq name "last"
    then argument args >>= fn_last
    else if lower_eq name "tail"
    then argument args >>= fn_tail
    else if lower_eq name "reverse"
    then argument args >>= fn_reverse py
    else if lower_member name ("e" ∷ "pi" ∷ "rand" ∷ "timestamp" ∷ "range" ∷ "elementid" ∷ [])
    then py.library name args
    else err (execute_error "CG1702")
