-- ===== src/Executor/Engine/Row.antt =====
-- Rows, the environments made of them, and the loops of the engine over lists, where an evaluation
-- may raise.
use cypherast.Prelude.{String, Bool, List, [], ◌∷◌, ◌++◌, Option, none, some, if◌then◌else◌}
use cypherast.Prelude.Dict.{insert, string_eq}
use cypherast.Prelude.Result.{Result, ok, ◌>>=◌}
use cypherast.Ast.{OptNode, Entries, present, identifier, label_expression, map_literal, end}
use cypherast.Executor.Value.{Value}
use cypherast.Executor.Graph.{Graph}
use cypherast.Executor.Env.{Env}

abbrev pub Row : Type 0
Row = List (String × Value)

-- m.update(new), and {**m, **new}
unfoldable pub updated : Row → Row → Row
unfolding insert
updated m [] = m
updated m ((k, v) ∷ new) = updated (insert k v m) new

-- `_env`
abbrev pub env_of : Row → Graph → Row → Env
env_of params g row = record { graph = g; bindings = updated params row }

-- A variable of a pattern; the parser puts an `Identifier` there, or nothing.
abbrev pub variable_of : OptNode → Option String
variable_of (present (identifier x)) = some x
variable_of _ = none

abbrev pub labels_in : OptNode → List String
labels_in (present (label_expression labels _)) = labels
labels_in _ = []

abbrev pub entries_in : OptNode → Entries
entries_in (present (map_literal es)) = es
entries_in _ = end

module _ {ℓ κ} {A : Type ℓ} {B : Type κ} where
  -- [y for x in xs for y in f(x)]
  abbrev pub flat_map_result : (A → Result (List B)) → List A → Result (List B)
  flat_map_result f [] = ok []
  flat_map_result f (x ∷ xs) = f x >>= λ ys. flat_map_result f xs >>= λ zs. ok (ys ++ zs)

module _ {ℓ} {A : Type ℓ} where
  abbrev keep : Bool → A → List A → List A
  keep b x xs = if b then x ∷ xs else xs

  -- [x for x in xs if p(x)]
  abbrev pub filter_result : (A → Result Bool) → List A → Result (List A)
  filter_result p [] = ok []
  filter_result p (x ∷ xs) = p x >>= λ b. filter_result p xs >>= λ ys. ok (keep b x ys)
