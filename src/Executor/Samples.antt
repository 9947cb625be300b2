-- ===== src/Executor/Samples.antt =====
-- Small instances of what the evaluator leaves to Python and to the engine, for the examples.
use cypherast.Prelude.{true, false}
use cypherast.Prelude.Int.{pos}
use cypherast.Prelude.Result.{Result, ok, err, execute_error, type_error}
use cypherast.Ast.{AstNode}
use cypherast.Executor.Value.{Value}
use cypherast.Executor.Python.{Floats}
use cypherast.Executor.Env.{Env, Builtins}

-- A library that answers something everywhere.
abbrev pub some_floats : Floats
some_floats = record {
  of_int = λ i. 0;
  plus = λ a b. a;
  minus = λ a b. a;
  times = λ a b. a;
  over = λ a b. a;
  modulo = λ a b. a;
  negate = λ a. a;
  eq = λ a b. true;
  lt = λ a b. false;
  le = λ a b. true;
  eq_int = λ i a. false;
  lt_int = λ i a. false;
  le_int = λ i a. true;
  gt_int = λ i a. false;
  ge_int = λ i a. true;
  int_over = λ a b. 0;
  int_modulo = λ a b. a;
}

abbrev pub some_library : Builtins
some_library = record {
  floats = some_floats;
  format = λ s v. err type_error;
  power = λ a b. ok a;
  str = λ v. "";
  shown = λ g v. "";
  to_int = λ v. ok (pos 0);
  text_starts_with = λ s t. false;
  text_ends_with = λ s t. false;
  text_contains = λ s t. false;
  library = λ name vs. err (execute_error "CG1702");
}

abbrev pub no_engine : AstNode → Env → Result Value
no_engine n env = err (execute_error "CG1702")
