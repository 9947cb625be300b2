-- ===== src/Optimizer/Simplify/Examples.antt =====
-- The simplifier at small trees, and the hypotheses of its soundness at one of them.
use cypherast.Prelude.{◌≡◌, refl, Bool, true, [], ◌∷◌, All, also, none_left, arith}
use cypherast.Prelude.Int.{pos, ◌+ℤ◌}
use cypherast.Prelude.Result.{Result, ok, ◌>>=◌}
use cypherast.Ast.{AstNode, null, boolean, integer, binary, add, eq, and, or, property, identifier}
use cypherast.Ast.Walk.{walk, below}
use cypherast.Executor.Value.{Value, flag, int, dict, field, no_field}
use cypherast.Executor.Graph.{empty_graph}
use cypherast.Executor.Python.{py_eq}
use cypherast.Executor.Env.{Env, binary_value, strict}
use cypherast.Executor.Eval.{eval}
use cypherast.Executor.Samples.{some_floats, some_library, no_engine}
use cypherast.Optimizer.Simplify.{simplify}
use cypherast.Optimizer.Simplify.Local.{IsTruth}
use cypherast.Optimizer.Simplify.Once.{simplify_idem}
use cypherast.Optimizer.Simplify.Sound.{IsPlain, IsLogical, simplify_sound}

-- true AND n.age = 30
abbrev of_age : AstNode
of_age = binary eq (property (identifier "n") "age") (integer (pos 30))

abbrev guarded : AstNode
guarded = binary and (boolean true) of_age

abbrev aged : Env
aged = record {
  graph = empty_graph;
  bindings = ("n", dict (field "age" (int (pos 30)) no_field)) ∷ [];
}

comparison-IsTruth :
    (op : Value → Value → Bool) (r t : Result Value) (v : Value)
    → (r >>= λ x. t >>= λ y. strict (λ a b. ok (flag (op a b))) x y) ≡ ok v
    → IsTruth v
unfolding strict
comparison-IsTruth op r t v h = ground arith

boolean-IsLogical : (b : Bool) → IsLogical some_library no_engine (boolean b)
unfolding eval
boolean-IsLogical b env v h = ground arith

of_age-IsLogical : IsLogical some_library no_engine of_age
unfolding eval binary_value
of_age-IsLogical env v h =
    comparison-IsTruth (py_eq some_floats)
      (eval some_library no_engine (property (identifier "n") "age") env) (ok (int (pos 30))) v h

guarded-IsPlain : All (IsPlain some_library no_engine) (walk guarded)
unfolding below
guarded-IsPlain =
    also (boolean-IsLogical true, of_age-IsLogical)
      (also tt (also tt (also tt (also tt (also tt none_left)))))

guarded-value : eval some_library no_engine guarded aged ≡ ok (flag true)
unfolding eval
guarded-value = refl

simplify_sound_example :
    eval some_library no_engine (simplify some_floats guarded) aged ≡ ok (flag true)
simplify_sound_example =
    simplify_sound some_library no_engine guarded aged (flag true) guarded-IsPlain guarded-value

simplify_idem_example :
    simplify some_floats (simplify some_floats guarded) ≡ simplify some_floats guarded
simplify_idem_example = simplify_idem some_floats guarded

guarded-simplified : simplify some_floats guarded ≡ of_age
unfolding simplify
guarded-simplified = refl

-- null OR (1 + 2 = 3) is true
folded :
    simplify some_floats (
      binary or null (binary eq (binary add (integer (pos 1)) (integer (pos 2))) (integer (pos 3))))
    ≡ boolean true
unfolding simplify ◌+ℤ◌
folded = refl
