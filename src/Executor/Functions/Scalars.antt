-- ===== src/Executor/Functions/Scalars.antt =====
-- `_call` of cypherast/executor/env.py: the functions on text, numbers and lists. What each asks of
-- Python's library is `Builtins.library`, under the name that Python has for it.
use cypherast.Prelude.{ℕ, String, [], ◌∷◌, Option, none, some, if◌then◌else◌, not, ◌||◌}
use cypherast.Prelude.Int.{ℤ, pos, negsuc, ◌+ℤ◌, int_eq, int_neg}
use cypherast.Prelude.Text.{lower_member}
use cypherast.Prelude.Result.{Result, ok, err, index_error, type_error, key_error, ◌>>=◌}
use cypherast.Executor.Value.{
  Value, nothing, flag, int, text, items, tuple, dict, node_ref, rel_ref, Values, empty, item,
}
use cypherast.Executor.Python.{is_null, truthy, py_lt, py_div}
use cypherast.Executor.Env.{Builtins, characters, item_at, slice, iterate}

abbrev reversed_onto : Values → Values → Values
reversed_onto empty acc = acc
reversed_onto (item v vs) acc = reversed_onto vs (item v acc)

abbrev last_of : Value → Values → Value
last_of v empty = v
last_of v (item w vs) = last_of w vs

-- args[i]
abbrev pub argument_at : (i : ℕ) → Values → Result Value
argument_at i vs = given (item_at i vs)
  where
    given : Option Value → Result Value
    given none = err index_error
    given (some v) = ok v

-- v[0] and v[-1] of a value that is true
abbrev first_item : Value → Result Value
first_item (items (item v vs)) = ok v
first_item (tuple (item v vs)) = ok v
first_item (text (String.◌∷◌ c s)) = ok (text (String.◌∷◌ c String.[]))
first_item (dict fs) = err (key_error "0")
first_item (node_ref _) = ok nothing
first_item (rel_ref _) = ok nothing
first_item _ = err type_error

abbrev last_item : Value → Result Value
last_item (items (item v vs)) = ok (last_of v vs)
last_item (tuple (item v vs)) = ok (last_of v vs)
last_item (text (String.◌∷◌ c s)) = ok (last_of nothing (characters (String.◌∷◌ c s)))
last_item (dict fs) = err (key_error "-1")
last_item (node_ref _) = ok nothing
last_item (rel_ref _) = ok nothing
last_item _ = err type_error

unfoldable pub fn_head : Value → Result Value
unfolding is_null truthy
fn_head v = if is_null v || not (truthy v) then ok nothing else first_item v

unfoldable pub fn_last : Value → Result Value
unfolding is_null truthy
fn_last v = if is_null v || not (truthy v) then ok nothing else last_item v

unfoldable pub fn_tail : Value → Result Value
unfolding is_null slice iterate
fn_tail v =
    if is_null v
    then ok nothing
    else slice v (pos 1) none >>= (λ rest. iterate rest >>= (λ vs. ok (items vs)))

module _ (py : Builtins) where
  -- NULL if is_null(v) else f(v)
  unfoldable pub fn_number : String → Value → Result Value
  unfolding is_null
  fn_number f v = if is_null v then ok nothing else py.library f (item v empty)

  -- NULL if is_null(v) else f(str(v))
  unfoldable pub fn_text : String → Value → Result Value
  unfolding is_null
  fn_text f v = if is_null v then ok nothing else py.library f (item (text (py.str v)) empty)

  -- str(v), in the graph of the evaluation
  unfoldable pub fn_to_string : Value → Result Value
  unfolding is_null
  fn_to_string v = ok (if is_null v then nothing else text (py.str v))

  unfoldable pub fn_replace : Value → Value → Value → Result Value
  unfolding is_null
  fn_replace s old new =
      if is_null s || (is_null old || is_null new)
      then ok nothing
      else py.library "str.replace"
          (item (text (py.str s)) (item (text (py.str old)) (item (text (py.str new)) empty)))

  unfoldable pub fn_split : Value → Value → Result Value
  unfolding is_null
  fn_split s sep =
      if is_null s || is_null sep
      then ok nothing
      else py.library "str.split" (item (text (py.str s)) (item (text (py.str sep)) empty))

  abbrev piece : Value → ℤ → Option Value → Result Value
  piece s start none = slice s start none
  piece s start (some n) =
      if is_null n
      then slice s start none
      else py.to_int n >>= (λ k. slice s start (some (start +ℤ k)))

  -- `start` and the length are read only where the text is there.
  unfoldable pub fn_substring : Value → Values → Result Value
  unfolding is_null slice
  fn_substring s args =
      if is_null s
      then ok nothing
      else argument_at 1 args
        >>= py.to_int
        >>= (λ start. piece (text (py.str s)) start (item_at 2 args))

  unfoldable pub fn_to_integer : Value → Result Value
  unfolding is_null
  fn_to_integer v = if is_null v then ok nothing else py.to_int v >>= (λ k. ok (int k))

  unfoldable pub fn_to_boolean : Value → Value
  unfolding is_null lower_member
  fn_to_boolean (flag b) = flag b
  fn_to_boolean v =
      if is_null v then nothing else flag (lower_member (py.str v) ("true" ∷ "1" ∷ "yes" ∷ []))

  unfoldable pub fn_sign : Value → Result Value
  unfolding is_null py_lt
  fn_sign v =
      if is_null v
      then ok nothing
      else py_lt py.floats (int (pos 0)) v >>= (λ up.
        py_lt py.floats v (int (pos 0))
        >>= (λ down. ok (int (if up then pos 1 else if down then negsuc 0 else pos 0))))

  unfoldable pub fn_cot : Value → Result Value
  unfolding is_null py_div
  fn_cot v =
      if is_null v
      then ok nothing
      else py.library "math.tan" (item v empty) >>= (λ y. py_div py.floats (int (pos 1)) y)

  unfoldable pub fn_atan2 : Value → Value → Result Value
  unfolding is_null
  fn_atan2 y x =
      if is_null y || is_null x then ok nothing else py.library "math.atan2" (item y (item x empty))

  unfoldable pub fn_left : Value → Value → Result Value
  unfolding is_null slice
  fn_left s n =
      if is_null s || is_null n
      then ok nothing
      else py.to_int n >>= (λ k. slice (text (py.str s)) (pos 0) (some k))

  unfoldable pub fn_right : Value → Value → Result Value
  unfolding is_null slice
  fn_right s n =
      if is_null s || is_null n
      then ok nothing
      else py.to_int n >>= (λ k.
        if int_eq k (pos 0) then ok (text "") else slice (text (py.str s)) (int_neg k) none)

  unfoldable pub fn_reverse : Value → Result Value
  unfolding is_null
  fn_reverse (items vs) = ok (items (reversed_onto vs empty))
  fn_reverse v =
      if is_null v then ok nothing else py.library "reversed" (item (text (py.str v)) empty)
