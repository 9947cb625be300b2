-- ===== src/Executor/Env.antt =====
-- cypherast/executor/env.py: the environment of an evaluation, and what is computed from values
-- alone. What the code asks of Python's library (formatting, powers, conversions, mathematics, the
-- clock) is the parameter `Builtins`.
use Prim.Native.Nat.{ℕ, suc, ◌-◌, min}
use cypherast.Prelude.{
  String, Bool, true, false, not, ◌||◌, List, [], ◌∷◌, Option, none, some, if◌then◌else◌, leb, all,
}
use cypherast.Prelude.Int.{ℤ, pos, negsuc}
use cypherast.Prelude.Dict.{lookup, insert, has, string_eq, nat_eq}
use cypherast.Prelude.Result.{
  Result, ok, err, Error, type_error, attribute_error, execute_error, nontermination, ◌>>=◌,
}
use cypherast.Ast.{
  AstNode, BinaryOp, add, sub, mul, div, modulo, pow, eq, neq, lt, lte, gt, gte, and, or, xor,
  is_in, starts_with, ends_with, contains, regex_match, identifier, label_expression,
}
use cypherast.Executor.Value.{
  Value, nothing, flag, text, items, tuple, dict, node_ref, rel_ref, Values, empty, item, Fields,
  no_field, field,
}
use cypherast.Executor.Graph.{Graph, NodeObject, RelObject}
use cypherast.Executor.Python.{
  Floats, is_null, cypher_true, py_add, py_sub, py_mul, py_div, py_mod, py_eq, py_lt, py_le, py_in,
}

-- Python's library, as far as the evaluation calls it. `str` is that of one evaluation, which changes
-- no graph; `shown` is it for each graph, since the `str` of a node or relationship shows its labels
-- or type and its properties.
pub record Builtins : Type 0 where
  pub floats : Floats
  pub format : String → Value → Result Value
  pub power : Value → Value → Result Value
  pub str : Value → String
  pub shown : Graph → Value → String
  pub to_int : Value → Result ℤ
  pub text_starts_with : String → String → Bool
  pub text_ends_with : String → String → Bool
  pub text_contains : String → String → Bool
  -- Python's library by the names it has there, and the query functions that are Python's alone
  pub library : String → Values → Result Value

-- The library as an evaluation on the graph sees it.
abbrev pub seen_in : Graph → Builtins → Builtins
seen_in g py = record py { str = py.shown g }

pub record Env : Type 0 where
  pub graph : Graph
  pub bindings : List (String × Value)

-- Env.bind
unfoldable pub bind : String → Value → Env → Env
unfolding insert
bind name v env = record env { bindings = insert name v env.bindings }

abbrev pub bound : Error → Option Value → Result Value
bound e none = err e
bound e (some v) = ok v

-- obj.props.get(name, NULL)
abbrev pub or_null : Option Value → Value
or_null none = nothing
or_null (some v) = v

abbrev pub node_props : Option NodeObject → List (String × Value)
node_props none = []
node_props (some o) = o.props

abbrev pub rel_props : Option RelObject → List (String × Value)
rel_props none = []
rel_props (some o) = o.props

abbrev pub pairs : Fields → List (String × Value)
pairs no_field = []
pairs (field k v fs) = (k, v) ∷ pairs fs

abbrev pub fields : List (String × Value) → Fields
fields [] = no_field
fields ((k, v) ∷ m) = field k v (fields m)

-- What has properties: a node, a relationship, or a map.
unfoldable pub props_of : Graph → Value → Option (List (String × Value))
unfolding lookup
props_of g (node_ref i) = some (node_props (lookup i g.node_objects))
props_of g (rel_ref i) = some (rel_props (lookup i g.rel_objects))
props_of g (dict fs) = some (pairs fs)
props_of g _ = none

abbrev property_at : String → Option (List (String × Value)) → Result Value
property_at name none = err (execute_error "CG1701")
property_at name (some m) = ok (or_null (lookup name m))

-- The branch of `Property`.
unfoldable pub get_property : Graph → String → Value → Result Value
unfolding lookup props_of is_null
get_property g name v = if is_null v then ok nothing else property_at name (props_of g v)

-- `_cmp` and `_arith`: NULL if either operand is
unfoldable pub strict : (Value → Value → Result Value) → Value → Value → Result Value
unfolding is_null
strict op x y = if is_null x || is_null y then ok nothing else op x y

abbrev as_flag : Result Bool → Result Value
as_flag r = do b ← r; ok (flag b)

-- The three-valued connectives on the results of `cypher_true`.
abbrev pub truth : Option Bool → Value
truth none = nothing
truth (some b) = flag b

abbrev pub and3 : Option Bool → Option Bool → Option Bool
and3 (some false) _ = some false
and3 _ (some false) = some false
and3 (some true) (some true) = some true
and3 _ _ = none

abbrev pub or3 : Option Bool → Option Bool → Option Bool
or3 (some true) _ = some true
or3 _ (some true) = some true
or3 (some false) (some false) = some false
or3 _ _ = none

abbrev pub not3 : Option Bool → Option Bool
not3 none = none
not3 (some b) = some (not b)

abbrev differ : Bool → Bool → Bool
differ true b = not b
differ false b = b

abbrev pub xor3 : Option Bool → Option Bool → Option Bool
xor3 (some a) (some b) = some (differ a b)
xor3 _ _ = none

module _ (py : Builtins) where
  open py use {floats, format, power, str, text_starts_with, text_ends_with, text_contains}

  -- `_str_op`
  abbrev str_op : (String → String → Bool) → Value → Value → Result Value
  str_op op x y = ok (flag (op (str x) (str y)))

  -- What a binary operator makes of the values of its operands.
  unfoldable pub binary_value : BinaryOp → Value → Value → Result Value
  unfolding strict py_add py_sub py_mul py_div py_mod py_eq py_lt py_le py_in cypher_true
  binary_value add x y = strict (py_add floats) x y
  binary_value sub x y = strict (py_sub floats) x y
  binary_value mul x y = strict (py_mul floats) x y
  binary_value div x y = strict (py_div floats) x y
  binary_value modulo x y = strict (py_mod floats format) x y
  binary_value pow x y = strict power x y
  binary_value eq x y = strict (λ a b. ok (flag (py_eq floats a b))) x y
  binary_value neq x y = strict (λ a b. ok (flag (not (py_eq floats a b)))) x y
  binary_value lt x y = strict (λ a b. as_flag (py_lt floats a b)) x y
  binary_value lte x y = strict (λ a b. as_flag (py_le floats a b)) x y
  binary_value gt x y = strict (λ a b. as_flag (py_lt floats b a)) x y
  binary_value gte x y = strict (λ a b. as_flag (py_le floats b a)) x y
  binary_value and x y = ok (truth (and3 (cypher_true x) (cypher_true y)))
  binary_value or x y = ok (truth (or3 (cypher_true x) (cypher_true y)))
  binary_value xor x y = ok (truth (xor3 (cypher_true x) (cypher_true y)))
  binary_value is_in x y = strict (λ a b. as_flag (py_in floats a b)) x y
  binary_value starts_with x y = strict (str_op text_starts_with) x y
  binary_value ends_with x y = strict (str_op text_ends_with) x y
  binary_value contains x y = strict (str_op text_contains) x y
  binary_value regex_match x y = err (execute_error "CG1702")

-- The members that `for item in v` runs through.
abbrev pub characters : String → Values
characters String.[] = empty
characters (String.◌∷◌ c s) = item (text (String.◌∷◌ c String.[])) (characters s)

abbrev keys : Fields → Values
keys no_field = empty
keys (field k v fs) = item (text k) (keys fs)

unfoldable pub iterate : Value → Result Values
iterate (items xs) = ok xs
iterate (tuple xs) = ok xs
iterate (text s) = ok (characters s)
iterate (dict fs) = ok (keys fs)
iterate (node_ref _) = err nontermination
iterate (rel_ref _) = err nontermination
iterate _ = err type_error

abbrev pub count : Values → ℕ
count empty = 0
count (item _ xs) = suc (count xs)

abbrev pub item_at : ℕ → Values → Option Value
item_at n empty = none
item_at ℕ.zero (item x xs) = some x
item_at (suc n) (item x xs) = item_at n xs

-- The index that Python reads for `i` in a sequence of `n` members.
abbrev index_of : ℕ → ℤ → Option ℕ
index_of n (pos i) = some i
index_of n (negsuc i) = if leb (suc i) n then some (n - suc i) else none

abbrev subscripted : Option Value → Result Value
subscripted none = err (execute_error "CG1701")
subscripted (some v) = ok v

abbrev at_index : Option ℕ → Values → Option Value
at_index none xs = none
at_index (some i) xs = item_at i xs

-- seq[i], an IndexError, TypeError or KeyError being turned into an ExecuteError. A node answers
-- `props.get(i)`, and no property has a number for its name.
unfoldable pub subscript : Value → ℤ → Result Value
subscript (items xs) i = subscripted (at_index (index_of (count xs) i) xs)
subscript (tuple xs) i = subscripted (at_index (index_of (count xs) i) xs)
subscript (text s) i = subscripted (at_index (index_of (count (characters s)) i) (characters s))
subscript (node_ref _) i = ok nothing
subscript (rel_ref _) i = ok nothing
subscript _ i = err (execute_error "CG1701")

-- A bound of a slice, as a position between 0 and `n`.
abbrev pub clamp : ℕ → ℤ → ℕ
clamp n (pos i) = min i n
clamp n (negsuc i) = n - suc i

abbrev drop_items : ℕ → Values → Values
drop_items ℕ.zero xs = xs
drop_items (suc n) empty = empty
drop_items (suc n) (item x xs) = drop_items n xs

abbrev take_items : ℕ → Values → Values
take_items ℕ.zero xs = empty
take_items (suc n) empty = empty
take_items (suc n) (item x xs) = item x (take_items n xs)

abbrev drop_text : ℕ → String → String
drop_text ℕ.zero s = s
drop_text (suc n) String.[] = String.[]
drop_text (suc n) (String.◌∷◌ c s) = drop_text n s

abbrev take_text : ℕ → String → String
take_text ℕ.zero s = String.[]
take_text (suc n) String.[] = String.[]
take_text (suc n) (String.◌∷◌ c s) = String.◌∷◌ c (take_text n s)

abbrev stop_at : ℕ → Option ℤ → ℕ
stop_at n none = n
stop_at n (some i) = clamp n i

-- seq[start:end], and seq[start:] without an end
unfoldable pub slice : Value → ℤ → Option ℤ → Result Value
slice (items xs) start stop =
    let from = clamp (count xs) start in
    ok (items (take_items (stop_at (count xs) stop - from) (drop_items from xs)))
slice (tuple xs) start stop =
    let from = clamp (count xs) start in
    ok (tuple (take_items (stop_at (count xs) stop - from) (drop_items from xs)))
slice (text s) start stop =
    let n = count (characters s) in
    let from = clamp n start in ok (text (take_text (stop_at n stop - from) (drop_text from s)))
slice (dict _) start stop = err type_error
slice (node_ref _) start stop = err type_error
slice (rel_ref _) start stop = err type_error
slice _ start stop = err type_error

abbrev pub labels_in : AstNode → List String
labels_in (label_expression labels _) = labels
labels_in _ = []

abbrev pub node_labels : Option NodeObject → List String
node_labels none = []
node_labels (some o) = o.labels

abbrev rel_has_type : List String → Option RelObject → Bool
rel_has_type [] _ = true
rel_has_type (l ∷ ls) none = false
rel_has_type (l ∷ ls) (some o) = has o.rel_type (l ∷ ls)

-- The branch of `LabelPredicate`.
unfoldable pub has_labels : Graph → List String → Value → Value
unfolding lookup has
has_labels g labels nothing = nothing
has_labels g labels (node_ref i) =
    flag (all (λ l. has l (node_labels (lookup i g.node_objects))) labels)
has_labels g labels (rel_ref i) = flag (rel_has_type labels (lookup i g.rel_objects))
has_labels g labels _ = flag false

-- node.variable.this
abbrev pub name_of : AstNode → Result String
name_of (identifier x) = ok x
name_of _ = err attribute_error
