-- ===== src/Executor/Value.antt =====
-- The Python values that the executor computes with. `nothing` is the sentinel NULL of
-- cypherast/executor/env.py (`is_null` also accepts `None`, which a missing property or parameter
-- gives; the model has one value for both). A float is its IEEE 754 bits.
-- A Python list is `items`, and a tuple, which only the grouping keys of the engine are, `tuple`. A `Node` or
-- `Relationship` object is a reference: its id, by which the graph finds the object.
use Prim.Native.Nat.{ℕ}
use cypherast.Prelude.{String, Bool}
use cypherast.Prelude.Int.{ℤ}

mutual
  pub data Value : Type 0 where
    nothing : Value
    flag : Bool → Value
    int : ℤ → Value
    double : ℕ → Value
    text : String → Value
    items tuple : Values → Value
    dict : Fields → Value
    node_ref : (id : ℕ) → Value
    rel_ref : (id : ℕ) → Value

  pub data Values : Type 0 where
    empty : Values
    item : Value → Values → Values

  pub data Fields : Type 0 where
    no_field : Fields
    field : (key : String) → Value → Fields → Fields
