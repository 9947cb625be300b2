-- ===== src/Optimizer/RuleSet/Examples.antt =====
-- Two rules: one that drops negations, one that needs the schema.
use cypherast.Prelude.{
  String, ◌≡◌, refl, Bool, true, false, [], ◌∷◌, Option, none, some, if◌then◌else◌,
}
use cypherast.Prelude.Text.{member}
use cypherast.Prelude.Dict.{lookup, string_eq}
use cypherast.Prelude.Result.{Result, ok, err, type_error, ◌>>=◌}
use cypherast.Ast.{AstNode, null, boolean, not_expr}
use cypherast.Optimizer.RuleSet.{
  Rule, RuleSet, unknown_rule, add, names, get, known, only, disable, apply, resolve_rules,
}
use cypherast.Optimizer.RuleSet.Select.{apply-add, get-disable, names-only}

abbrev dropped : AstNode → AstNode
dropped (not_expr n) = n
dropped n = n

abbrev drop_not : Rule Bool
drop_not = record { name = "drop_not"; params = []; fn = λ n kw. ok (dropped n) }

abbrev as_schema : Option Bool → Result AstNode
as_schema none = err type_error
as_schema (some b) = ok (boolean b)

abbrev to_schema : Rule Bool
to_schema = record {
  name = "to_schema";
  params = "schema" ∷ [];
  fn = λ n kw. as_schema (lookup "schema" kw);
}

abbrev one : RuleSet Bool
one = record { rules = drop_not ∷ [] }

abbrev two : RuleSet Bool
two = record { rules = drop_not ∷ to_schema ∷ [] }

apply-add_example :
    apply (add one two) true [] (not_expr (not_expr null))
    ≡ (apply one true [] (not_expr (not_expr null)) >>= apply two true [])
apply-add_example = apply-add one two true [] (not_expr (not_expr null))

get-disable_example :
    (known ("drop_not" ∷ []) two.rules ≡ false → disable ("drop_not" ∷ []) two ≡ err unknown_rule)
    × (known ("drop_not" ∷ []) two.rules ≡ true
        → (left : RuleSet Bool) × (disable ("drop_not" ∷ []) two ≡ ok left)
          × ((n : String)
              → get n left ≡ (if member n ("drop_not" ∷ []) then err unknown_rule else get n two)))
get-disable_example = get-disable ("drop_not" ∷ []) two

names-only_example :
    (known ("to_schema" ∷ "drop_not" ∷ []) two.rules ≡ false
      → only ("to_schema" ∷ "drop_not" ∷ []) two ≡ err unknown_rule)
    × (known ("to_schema" ∷ "drop_not" ∷ []) two.rules ≡ true
        → (kept : RuleSet Bool) × (only ("to_schema" ∷ "drop_not" ∷ []) two ≡ ok kept)
          × (names kept ≡ ("to_schema" ∷ "drop_not" ∷ [])))
names-only_example = names-only ("to_schema" ∷ "drop_not" ∷ []) two

applied : apply two true [] (not_expr null) ≡ ok (boolean true)
unfolding apply lookup member
applied = refl

-- Both filters, one after the other.
resolved :
    resolve_rules two none (some ("to_schema" ∷ [])) (some ("to_schema" ∷ []))
    ≡ ok (record { rules = [] })
unfolding resolve_rules
resolved = refl
