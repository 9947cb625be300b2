-- ===== src/Executor/Engine/Project.antt =====
-- WITH, RETURN and UNWIND of cypherast/executor/engine.py without aggregates: `_project`, `_return`,
-- `_unwind`, `_order_paired`, `_freeze` and `_sort_val`. The text of an expression that has no name
-- of its own and the lower case of a name are the parameter `Texts`. Python's sort is stable, so that its result is that of the
-- insertion sort here, where the keys can be compared.
pub mod Aggregate
pub mod Groups
pub mod Order
use Prim.Native.Nat.{ℕ, zero, suc, ◌-◌}
use Prim.Native.String.{◌++◌ as join_text, compare as compare_text}
use package.text.Mathlib.Text.{is_le}
use cypherast.Prelude.{
  String, Bool, true, false, not, ◌&&◌, ◌||◌, List, [], ◌∷◌, ◌++◌, Option, none, some,
  if◌then◌else◌, ◌==◌, leb, length,
}
use package.text.Mathlib.Text.{◌==◌ as text_eq}
use mathlib.Core.List.{reverse}
use cypherast.Prelude.Int.{ℤ, pos}
use cypherast.Prelude.Dict.{lookup, insert, string_eq}
use cypherast.Prelude.Result.{Result, ok, err, assertion_error, attribute_error, ◌>>=◌, map_result}
use cypherast.Ast.{
  AstNode, AstNodes, OptNode, nil, cons, absent, present, star, identifier, alias, property,
  function_call, order, ordered, skip, limit, where_clause,
}
use cypherast.Executor.Value.{
  Value, nothing, int, text, items, tuple, dict, node_ref, rel_ref, Values, empty, item, Fields,
  no_field, field,
}
use cypherast.Executor.Graph.{Graph}
use cypherast.Executor.Python.{is_null, py_eq, py_lt}
use cypherast.Executor.Env.{Env, Builtins, or_null, clamp}
use cypherast.Executor.Engine.Row.{Row, updated, env_of, filter_result, flat_map_result}
use cypherast.Executor.Engine.Match.Paths.{passes}

abbrev pair : Value → Value → Value
pair v w = tuple (item v (item w empty))

abbrev insert_field : String → Value → Values → List String → Values × List String
insert_field k v empty ks = (item (pair (text k) v) empty, k ∷ [])
insert_field k v (item w ws) [] = (item (pair (text k) v) (item w ws), k ∷ [])
insert_field k v (item w ws) (j ∷ js) =
    let (us, is) = insert_field k v ws js in
    if is_le (compare_text k j)
    then (item (pair (text k) v) (item w ws), k ∷ j ∷ js)
    else (item w us, j ∷ is)

-- A hashable key of a value: equal keys for the values that DISTINCT and grouping take as one.
unfoldable mutual
  pub freeze : Value → Value
  freeze nothing = tuple (item (text "null") empty)
  freeze (node_ref n) = tuple (item (text "ent") (item (text "Node") (item (int (pos n)) empty)))
  freeze (rel_ref n) =
      tuple (item (text "ent") (item (text "Relationship") (item (int (pos n)) empty)))
  freeze (items vs) = pair (text "list") (tuple (freeze_items vs))
  freeze (dict fs) = pair (text "map") (tuple (freeze_fields fs).0)
  freeze v = v

  pub freeze_items : Values → Values
  freeze_items empty = empty
  freeze_items (item v vs) = item (freeze v) (freeze_items vs)

  -- sorted((k, _freeze(x)) for k, x in v.items()), beside the sorted keys
  pub freeze_fields : Fields → Values × List String
  freeze_fields no_field = (empty, [])
  freeze_fields (field k v fs) = let (ws, ks) = freeze_fields fs in insert_field k (freeze v) ws ks

abbrev row_fields : Row → Fields
row_fields [] = no_field
row_fields ((k, v) ∷ m) = field k v (row_fields m)

abbrev row_key : Row → Value
row_key row = tuple (freeze_fields (row_fields row)).0

-- `_sort_val`
abbrev pub sort_val : Value → Value
sort_val (node_ref n) = int (pos n)
sort_val (rel_ref n) = int (pos n)
sort_val nothing = tuple empty
sort_val v = v

abbrev pub row_or_null : Row → String → Value
row_or_null row k = or_null (lookup k row)

abbrev pub values_at : List String → Row → Values
values_at [] row = empty
values_at (c ∷ cs) row = item (row_or_null row c) (values_at cs row)

abbrev pub keys_of : Row → List String
keys_of [] = []
keys_of ((k, v) ∷ m) = k ∷ keys_of m

-- rows[n:] and rows[:n], where a negative `n` counts from the end
abbrev pub drop_rows {ℓ} : {A : Type ℓ} → ℕ → List A → List A
drop_rows zero xs = xs
drop_rows (suc n) [] = []
drop_rows (suc n) (x ∷ xs) = drop_rows n xs

abbrev pub take_rows {ℓ} : {A : Type ℓ} → ℕ → List A → List A
take_rows zero xs = []
take_rows (suc n) [] = []
take_rows (suc n) (x ∷ xs) = x ∷ take_rows n xs

-- The clause's parts that `_project` reads.
pub record Projection : Type 0 where
  pub expressions : AstNodes
  pub distinct : Bool
  pub condition : OptNode
  pub order_of : OptNode
  pub skip_of : OptNode
  pub limit_of : OptNode

-- What a column's name asks of the renderer and of Python's `str`.
pub record Texts : Type 0 where
  pub render : AstNode → String
  pub lower : String → String

module _ (py : Builtins) (texts : Texts) where
  open texts use {render, lower}

  -- `_proj_name`
  unfoldable pub proj_name : AstNode → String
  proj_name (alias e (identifier x)) = x
  proj_name (identifier x) = x
  proj_name (property (identifier x) name) = join_text x (join_text "." name)
  proj_name (property e name) = name
  proj_name (function_call name args distinct) = lower name
  proj_name e = render e

  abbrev seen_key : Value → List Value → Bool
  seen_key k [] = false
  seen_key k (j ∷ js) = if py_eq py.floats j k then true else seen_key k js

  -- The first of the pairs for each key of the projected row.
  unfoldable pub unique : List Value → List (Row × Row) → List (Row × Row)
  unfolding py_eq freeze
  unique seen [] = []
  unique seen ((row, new) ∷ ps) =
      if seen_key (row_key new) seen
      then unique seen ps
      else (row, new) ∷ unique (row_key new ∷ seen) ps

  abbrev pub Keyed : Type 0
  Keyed = Value × (Row × Row)

  -- A stable sort by `<`, which raises where two keys cannot be compared.
  unfoldable pub insert_keyed : Keyed → List Keyed → Result (List Keyed)
  unfolding py_lt
  insert_keyed p [] = ok (p ∷ [])
  insert_keyed p (q ∷ qs) =
      let rest = insert_keyed p qs in
      py_lt py.floats q.0 p.0 >>= λ before.
      if before then (rest >>= λ sorted. ok (q ∷ sorted)) else ok (p ∷ q ∷ qs)

  unfoldable pub sort_keyed : List Keyed → Result (List Keyed)
  unfolding insert_keyed
  sort_keyed [] = ok []
  sort_keyed (p ∷ ps) = sort_keyed ps >>= insert_keyed p

  abbrev pub pairs_in : List Keyed → List (Row × Row)
  pairs_in [] = []
  pairs_in (p ∷ ps) = p.1 ∷ pairs_in ps

  abbrev nulls_in : List Keyed → List (Row × Row)
  nulls_in [] = []
  nulls_in (p ∷ ps) = if is_null p.0 then p.1 ∷ nulls_in ps else nulls_in ps

  abbrev keyed_rest : List Keyed → List Keyed
  keyed_rest [] = []
  keyed_rest (p ∷ ps) = if is_null p.0 then keyed_rest ps else (sort_val p.0, p.1) ∷ keyed_rest ps

  -- reverse=True keeps the order of equal keys.
  abbrev sorted_by : (desc : Bool) → List Keyed → Result (List Keyed)
  sorted_by false ps = sort_keyed ps
  sorted_by true ps = sort_keyed (reverse ps) >>= λ qs. ok (reverse qs)

  -- ordered.nulls == "FIRST" or (ordered.nulls is None and ordered.desc)
  abbrev nulls_first : Option String → Bool → Bool
  nulls_first none desc = desc
  nulls_first (some s) desc = text_eq s "FIRST"

  module _ (ev : AstNode → Env → Result Value) (params : Row) (g : Graph) where
    abbrev keyed : AstNode → List (Row × Row) → Result (List Keyed)
    keyed e [] = ok []
    keyed e ((row, new) ∷ ps) = ev e (env_of params g (updated row new)) >>= λ v.
        keyed e ps >>= λ rest. ok ((v, (row, new)) ∷ rest)

    -- `_order_paired`
    unfoldable pub order_paired : AstNode → List (Row × Row) → Result (List (Row × Row))
    unfolding is_null sort_keyed updated
    order_paired (ordered e desc nulls) ps = keyed e ps >>= λ ks.
        sorted_by desc (keyed_rest ks) >>= λ rest. ok (
          if nulls_first nulls desc
          then nulls_in ks ++ pairs_in rest
          else pairs_in rest ++ nulls_in ks)
    order_paired _ ps = err assertion_error

    -- for ordered in reversed(...): the first sort key is applied last
    unfoldable pub order_all : AstNodes → List (Row × Row) → Result (List (Row × Row))
    unfolding order_paired
    order_all nil ps = ok ps
    order_all (cons o os) ps = order_all os ps >>= order_paired o

    abbrev ordered_by : OptNode → List (Row × Row) → Result (List (Row × Row))
    ordered_by absent ps = ok ps
    ordered_by (present (order os)) ps = order_all os ps
    ordered_by (present _) ps = err attribute_error

    abbrev bound_at : AstNode → Result ℤ
    bound_at e = ev e (env_of params g []) >>= py.to_int

    abbrev skipped : OptNode → List Row → Result (List Row)
    skipped (present (skip e)) rows =
        bound_at e >>= λ n. ok (drop_rows (clamp (length rows) n) rows)
    skipped _ rows = ok rows

    abbrev limited : OptNode → List Row → Result (List Row)
    limited (present (limit e)) rows =
        bound_at e >>= λ n. ok (take_rows (clamp (length rows) n) rows)
    limited _ rows = ok rows

    -- The new row of one row.
    unfoldable pub project_row : AstNodes → Row → (new : Row) → Result Row
    unfolding updated insert proj_name
    project_row nil row new = ok new
    project_row (cons star es) row new = project_row es row (updated new row)
    project_row (cons e es) row new =
        ev e (env_of params g row) >>= λ v. project_row es row (insert (proj_name e) v new)

    unfoldable pub project_all : AstNodes → List Row → Result (List (Row × Row))
    unfolding project_row
    project_all es [] = ok []
    project_all es (row ∷ rows) =
        project_row es row [] >>= λ new. project_all es rows >>= λ ps. ok ((row, new) ∷ ps)

    abbrev projected : List (Row × Row) → List Row
    projected [] = []
    projected ((row, new) ∷ ps) = new ∷ projected ps

    -- `_project`; `is_with` says whether the clause's WHERE is read
    unfoldable pub project : Projection → (is_with : Bool) → List Row → Result (List Row)
    unfolding project_all unique order_all passes
    project c is_with rows = project_all c.expressions rows >>= λ all.
        let distinct = if c.distinct then unique [] all else all in
        (if is_with
          then filter_result (λ (p : Row × Row). passes py ev params g c.condition p.1) distinct
          else ok distinct)
        >>= ordered_by c.order_of
        >>= (λ ps. skipped c.skip_of (projected ps))
        >>= limited c.limit_of

    -- A star replaces the columns before it by those of the first row, and ends the loop.
    abbrev columns_of : AstNodes → List Row → (cols : List String) → List String
    columns_of nil rows cols = cols
    columns_of (cons star es) [] cols = cols
    columns_of (cons star es) (r ∷ rs) cols = keys_of r
    columns_of (cons e es) rows cols = columns_of es rows (cols ++ (proj_name e ∷ []))

    -- `_return` without aggregates: the columns, and the rows as lists of values
    unfoldable pub plain_return : Projection → List Row → Result (List String × List Values)
    unfolding project proj_name lookup
    plain_return c rows = project c false rows >>= λ rs.
        let cols = columns_of c.expressions rs [] in ok (cols, rows_at cols rs)
      where
        rows_at : List String → List Row → List Values
        rows_at cols [] = []
        rows_at cols (r ∷ rs) = values_at cols r ∷ rows_at cols rs

    abbrev bind_items : String → Row → Values → List Row
    bind_items x row empty = []
    bind_items x row (item v vs) = insert x v row ∷ bind_items x row vs

    abbrev unwound : String → Row → Value → List Row
    unwound x row nothing = []
    unwound x row (items vs) = bind_items x row vs
    unwound x row v = insert x v row ∷ []

    abbrev alias_name : AstNode → String
    alias_name (identifier x) = x
    alias_name _ = "x"

    -- `_unwind`
    unfoldable pub unwind_rows : AstNode → AstNode → List Row → Result (List Row)
    unfolding insert updated
    unwind_rows e x rows =
        flat_map_result
          (λ row. ev e (env_of params g row) >>= λ v. ok (unwound (alias_name x) row v)) rows
