-- ===== src/Executor/Python.antt =====
-- The operations of Python on values that cypherast/executor/env.py uses: truth, arithmetic,
-- comparison, `in`, and the three-valued truth of `cypher_true`. Floating-point arithmetic is a
-- parameter (`Floats`); an integer that meets a float is taken to lie in the range of a double.
use Prim.Native.Nat.{ℕ, suc, ◌^◌}
use cypherast.Prelude.{
  String, Bool, true, false, not, ◌&&◌, ◌||◌, Option, none, some, if◌then◌else◌, ◌==◌,
}
use cypherast.Prelude.Int.{ℤ, pos, pos_part, ◌+ℤ◌, ◌-ℤ◌, ◌*ℤ◌, int_neg, int_eq, int_lt}
use cypherast.Prelude.Result.{Result, ok, err, type_error, zero_division_error, nontermination}
use cypherast.Executor.Value.{
  Value, nothing, flag, int, double, text, items, tuple, dict, node_ref, rel_ref, Values, empty,
  item, Fields, no_field, field,
}
use Prim.Native.String.{◌++◌}
use package.text.Mathlib.Text.{◌==◌ as str_eq, is_lt, is_le, find?}
use Prim.Native.String.{compare as compare_text}

-- IEEE 754 doubles, by their bits.
pub record Floats : Type 0 where
  pub of_int : ℤ → ℕ
  pub plus : ℕ → ℕ → ℕ
  pub minus : ℕ → ℕ → ℕ
  pub times : ℕ → ℕ → ℕ
  pub over : ℕ → ℕ → ℕ
  pub modulo : ℕ → ℕ → ℕ
  pub negate : ℕ → ℕ
  pub eq : ℕ → ℕ → Bool
  pub lt : ℕ → ℕ → Bool
  pub le : ℕ → ℕ → Bool
  pub eq_int : ℤ → ℕ → Bool
  pub lt_int : ℤ → ℕ → Bool
  pub le_int : ℤ → ℕ → Bool
  pub gt_int : ℤ → ℕ → Bool
  pub ge_int : ℤ → ℕ → Bool
  pub int_over : ℤ → ℤ → ℕ
  pub int_modulo : ℤ → ℤ → ℤ

-- is_null
unfoldable pub is_null : Value → Bool
is_null nothing = true
is_null _ = false

-- bool(v): the sentinel NULL is a plain object, and so is true
unfoldable pub truthy : Value → Bool
truthy nothing = true
truthy (flag b) = b
truthy (int i) = not (int_eq i (pos 0))
truthy (double bits) = not ((bits == 0) || (bits == 2 ^ 63))
truthy (text s) = not (str_eq s "")
truthy (tuple empty) = false
truthy (tuple (item _ _)) = true
truthy (items empty) = false
truthy (items (item _ _)) = true
truthy (dict no_field) = false
truthy (dict (field _ _ _)) = true
truthy (node_ref _) = true
truthy (rel_ref _) = true

-- cypher_true: true, false, or unknown
unfoldable pub cypher_true : Value → Option Bool
unfolding truthy
cypher_true nothing = none
cypher_true (flag b) = some b
cypher_true v = some (truthy v)

-- A number, `bool` being a kind of `int`.
pub data Number : Type 0 where
  whole : ℤ → Number
  real : ℕ → Number
  no_number : Number

abbrev pub number : Value → Number
number (flag true) = whole (pos 1)
number (flag false) = whole (pos 0)
number (int i) = whole i
number (double d) = real d
number _ = no_number

abbrev pub join : Values → Values → Values
join empty ys = ys
join (item x xs) ys = item x (join xs ys)

-- xs * n, none if n is not positive
abbrev repeat_items : ℕ → Values → Values
repeat_items count xs = elim count [ ℕ.zero ↦ empty | ℕ.suc (n → rest) ↦ join xs rest ]

abbrev repeat_text : ℕ → String → String
repeat_text count s = elim count [ ℕ.zero ↦ "" | ℕ.suc (n → rest) ↦ s ++ rest ]

module _ (fl : Floats) where
  abbrev pub add_numbers : Number → Number → Result Value
  add_numbers (whole a) (whole b) = ok (int (a +ℤ b))
  add_numbers (whole a) (real b) = ok (double (fl.plus (fl.of_int a) b))
  add_numbers (real a) (whole b) = ok (double (fl.plus a (fl.of_int b)))
  add_numbers (real a) (real b) = ok (double (fl.plus a b))
  add_numbers _ _ = err type_error

  -- x + y
  unfoldable pub py_add : Value → Value → Result Value
  py_add (text s) (text t) = ok (text (s ++ t))
  py_add (items xs) (items ys) = ok (items (join xs ys))
  py_add (tuple xs) (tuple ys) = ok (tuple (join xs ys))
  py_add x y = add_numbers (number x) (number y)

  abbrev sub_numbers : Number → Number → Result Value
  sub_numbers (whole a) (whole b) = ok (int (a -ℤ b))
  sub_numbers (whole a) (real b) = ok (double (fl.minus (fl.of_int a) b))
  sub_numbers (real a) (whole b) = ok (double (fl.minus a (fl.of_int b)))
  sub_numbers (real a) (real b) = ok (double (fl.minus a b))
  sub_numbers _ _ = err type_error

  -- x - y
  unfoldable pub py_sub : Value → Value → Result Value
  py_sub x y = sub_numbers (number x) (number y)

  abbrev pub mul_numbers : Number → Number → Result Value
  mul_numbers (whole a) (whole b) = ok (int (a *ℤ b))
  mul_numbers (whole a) (real b) = ok (double (fl.times (fl.of_int a) b))
  mul_numbers (real a) (whole b) = ok (double (fl.times a (fl.of_int b)))
  mul_numbers (real a) (real b) = ok (double (fl.times a b))
  mul_numbers _ _ = err type_error

  abbrev repeat : Value → Number → Result Value
  repeat (text s) (whole n) = ok (text (repeat_text (pos_part n) s))
  repeat (items xs) (whole n) = ok (items (repeat_items (pos_part n) xs))
  repeat (tuple xs) (whole n) = ok (tuple (repeat_items (pos_part n) xs))
  repeat _ _ = err type_error

  -- x * y
  unfoldable pub py_mul : Value → Value → Result Value
  py_mul (text s) y = repeat (text s) (number y)
  py_mul (items xs) y = repeat (items xs) (number y)
  py_mul (tuple xs) y = repeat (tuple xs) (number y)
  py_mul x (text s) = repeat (text s) (number x)
  py_mul x (items ys) = repeat (items ys) (number x)
  py_mul x (tuple ys) = repeat (tuple ys) (number x)
  py_mul x y = mul_numbers (number x) (number y)

  abbrev is_zero : Number → Bool
  is_zero (whole a) = int_eq a (pos 0)
  is_zero (real a) = (a == 0) || (a == 2 ^ 63)
  is_zero no_number = false

  abbrev div_numbers : Number → Number → Result Value
  div_numbers (whole a) (whole b) = ok (double (fl.int_over a b))
  div_numbers (whole a) (real b) = ok (double (fl.over (fl.of_int a) b))
  div_numbers (real a) (whole b) = ok (double (fl.over a (fl.of_int b)))
  div_numbers (real a) (real b) = ok (double (fl.over a b))
  div_numbers _ _ = err type_error

  abbrev is_number : Number → Bool
  is_number no_number = false
  is_number _ = true

  -- x / y
  unfoldable pub py_div : Value → Value → Result Value
  py_div x y =
      if is_number (number x) && is_zero (number y)
      then err zero_division_error
      else div_numbers (number x) (number y)

  abbrev mod_numbers : Number → Number → Result Value
  mod_numbers (whole a) (whole b) = ok (int (fl.int_modulo a b))
  mod_numbers (whole a) (real b) = ok (double (fl.modulo (fl.of_int a) b))
  mod_numbers (real a) (whole b) = ok (double (fl.modulo a (fl.of_int b)))
  mod_numbers (real a) (real b) = ok (double (fl.modulo a b))
  mod_numbers _ _ = err type_error

  -- x % y, of numbers; `format` is Python's formatting of a text
  unfoldable pub py_mod : (format : String → Value → Result Value) → Value → Value → Result Value
  py_mod format (text s) y = format s y
  py_mod format x y =
      if is_number (number x) && is_zero (number y)
      then err zero_division_error
      else mod_numbers (number x) (number y)

  abbrev neg_number : Number → Result Value
  neg_number (whole a) = ok (int (int_neg a))
  neg_number (real a) = ok (double (fl.negate a))
  neg_number no_number = err type_error

  -- -x
  unfoldable pub py_neg : Value → Result Value
  py_neg x = neg_number (number x)

  abbrev eq_numbers : Number → Number → Bool
  eq_numbers (whole a) (whole b) = int_eq a b
  eq_numbers (whole a) (real b) = fl.eq_int a b
  eq_numbers (real a) (whole b) = fl.eq_int b a
  eq_numbers (real a) (real b) = fl.eq a b
  eq_numbers _ _ = false

  abbrev field_at : String → Fields → Option Value
  field_at k no_field = none
  field_at k (field j v fs) = if str_eq j k then some v else field_at k fs

  abbrev count_fields : Fields → ℕ
  count_fields no_field = 0
  count_fields (field _ _ fs) = suc (count_fields fs)

  -- x == y: two nodes (two relationships) are equal when they have one id
  unfoldable mutual
    pub py_eq : Value → Value → Bool
    py_eq nothing nothing = true
    py_eq (text s) (text t) = str_eq s t
    py_eq (items xs) (items ys) = eq_items xs ys
    py_eq (tuple xs) (tuple ys) = eq_items xs ys
    py_eq (dict fs) (dict gs) = (count_fields fs == count_fields gs) && eq_fields fs gs
    py_eq (node_ref i) (node_ref j) = i == j
    py_eq (rel_ref i) (rel_ref j) = i == j
    py_eq x y = eq_numbers (number x) (number y)

    pub eq_items : Values → Values → Bool
    eq_items empty empty = true
    eq_items (item x xs) (item y ys) = py_eq x y && eq_items xs ys
    eq_items _ _ = false

    pub eq_fields : Fields → Fields → Bool
    eq_fields no_field gs = true
    eq_fields (field k v fs) gs = elim (field_at k gs) [
      | none ↦ false
      | some w ↦ py_eq v w && eq_fields fs gs
    ]

  abbrev lt_numbers : Number → Number → Result Bool
  lt_numbers (whole a) (whole b) = ok (int_lt a b)
  lt_numbers (whole a) (real b) = ok (fl.lt_int a b)
  lt_numbers (real a) (whole b) = ok (fl.gt_int b a)
  lt_numbers (real a) (real b) = ok (fl.lt a b)
  lt_numbers _ _ = err type_error

  abbrev le_numbers : Number → Number → Result Bool
  le_numbers (whole a) (whole b) = ok (not (int_lt b a))
  le_numbers (whole a) (real b) = ok (fl.le_int a b)
  le_numbers (real a) (whole b) = ok (fl.ge_int b a)
  le_numbers (real a) (real b) = ok (fl.le a b)
  le_numbers _ _ = err type_error

  -- x < y: lists are compared at the first place where they differ
  unfoldable mutual
    pub py_lt : Value → Value → Result Bool
    py_lt (text s) (text t) = ok (is_lt (compare_text s t))
    py_lt (items xs) (items ys) = lt_items xs ys
    py_lt (tuple xs) (tuple ys) = lt_items xs ys
    py_lt x y = lt_numbers (number x) (number y)

    pub lt_items : Values → Values → Result Bool
    lt_items empty empty = ok false
    lt_items empty (item _ _) = ok true
    lt_items (item _ _) empty = ok false
    lt_items (item x xs) (item y ys) =
        let rest = lt_items xs ys in let here = py_lt x y in if py_eq x y then rest else here

  -- x <= y
  unfoldable mutual
    pub py_le : Value → Value → Result Bool
    py_le (text s) (text t) = ok (is_le (compare_text s t))
    py_le (items xs) (items ys) = le_items xs ys
    py_le (tuple xs) (tuple ys) = le_items xs ys
    py_le x y = le_numbers (number x) (number y)

    pub le_items : Values → Values → Result Bool
    le_items empty _ = ok true
    le_items (item _ _) empty = ok false
    le_items (item x xs) (item y ys) =
        let rest = le_items xs ys in let here = py_le x y in if py_eq x y then rest else here

  abbrev in_items : Value → Values → Bool
  in_items x empty = false
  in_items x (item y ys) = if py_eq y x then true else in_items x ys

  abbrev is_some {ℓ} : {A : Type ℓ} → Option A → Bool
  is_some none = false
  is_some (some _) = true

  -- x in y. A node (a relationship) has `__getitem__`, which answers at every index, and no
  -- `__iter__`: the search through it does not end.
  unfoldable pub py_in : Value → Value → Result Bool
  unfolding py_eq
  py_in x (items ys) = ok (in_items x ys)
  py_in x (tuple ys) = ok (in_items x ys)
  py_in (text s) (text t) = ok (is_some (find? t s))
  py_in (text s) (dict fs) = ok (is_some (field_at s fs))
  py_in (items _) (dict _) = err type_error
  py_in (dict _) (dict _) = err type_error
  py_in _ (dict _) = ok false
  py_in x (node_ref _) = err nontermination
  py_in x (rel_ref _) = err nontermination
  py_in _ _ = err type_error
