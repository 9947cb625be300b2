-- ===== src/Prelude/Result.antt =====
-- Python's exceptions as values. `execute_error code` is cypherast's ExecuteError with its `code`;
-- the others are the built-in exceptions that the modelled code can raise.
use Prim.Native.String.{String}
use mathlib.Core.List.{List, [], ◌∷◌}
use mathlib.Core.Path.{◌≡◌, refl}

pub data Error : Type 0 where
  execute_error : String → Error
  key_error : String → Error
  nontermination stop_iteration : Error
  assertion_error type_error value_error zero_division_error index_error overflow_error
        attribute_error :
      Error

pub data Result {ℓ} (A : Type ℓ) : Type ℓ where
  err : Error → Result A
  ok : A → Result A

infixl 5 ◌>>=◌
-- What comes after an operation that may raise; an exception ends both.
abbrev pub ◌>>=◌ {κ ℓ} : {B : Type κ} {A : Type ℓ} → Result A → (A → Result B) → Result B
err e >>= f = err e
ok a >>= f = f a

module _ {ℓ κ} {A : Type ℓ} {B : Type κ} where
  -- [f(x) for x in xs], where f may raise
  abbrev pub map_result : (A → Result B) → List A → Result (List B)
  map_result f [] = ok []
  map_result f (x ∷ xs) = f x >>= λ y. map_result f xs >>= λ ys. ok (y ∷ ys)

  -- An operation that does not raise had parts that did not.
  pub bound-ok :
      {y : B} (part : Result A) (next : A → Result B)
      → (part >>= next) ≡ ok y
      → (x : A) × (part ≡ ok x) × (next x ≡ ok y)
  bound-ok (ok a) f e = (a, refl, e)
  bound-ok (err x) f e = cc

pub ok-injective {ℓ} : {A : Type ℓ} {a b : A} → ok a ≡ ok b → a ≡ b
ok-injective p = cc
