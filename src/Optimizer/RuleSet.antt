-- ===== src/Optimizer/RuleSet.antt =====
-- cypherast/optimizer/engine.py: named rules, sets of rules and the choice among them. `K` is the
-- type of the values that keyword arguments carry. The keywords that a rule's function takes, which
-- the code reads from its signature, are a field of the rule. Trees here cannot be mutated, so that
-- the copy which `apply` may make is the tree itself. The text of a KeyError is left out.
pub mod Select
mod Examples
use cypherast.Prelude.{
  String, Bool, true, false, List, [], ◌∷◌, ◌++◌, map, Option, none, some, all, if◌then◌else◌,
}
use cypherast.Prelude.Text.{member}
use cypherast.Prelude.Result.{Result, Error, ok, err, key_error, ◌>>=◌, map_result}
use package.text.Mathlib.Text.{◌==◌}
use cypherast.Ast.{AstNode}

pub record Rule {ℓ} (K : Type ℓ) : Type ℓ where
  pub name : String
  pub params : List String
  pub fn : AstNode → List (String × K) → Result AstNode

pub record RuleSet {ℓ} (K : Type ℓ) : Type ℓ where
  pub rules : List (Rule K)

abbrev pub unknown_rule : Error
unknown_rule = key_error "Unknown rule"

module _ {ℓ} {K : Type ℓ} where
  -- {k: v for k, v in kwargs.items() if k in params}
  abbrev pub taken : List String → List (String × K) → List (String × K)
  taken params [] = []
  taken params ((k, v) ∷ kwargs) =
      if member k params then (k, v) ∷ taken params kwargs else taken params kwargs

  -- `Rule.__call__`
  unfoldable pub call : Rule K → AstNode → List (String × K) → Result AstNode
  unfolding member
  call r tree kwargs = r.fn tree (taken r.params kwargs)

  -- `__add__`
  unfoldable pub add : RuleSet K → RuleSet K → RuleSet K
  add rs other = record { rules = rs.rules ++ other.rules }

  abbrev pub names_of : List (Rule K) → List String
  names_of [] = []
  names_of (r ∷ rs) = r.name ∷ names_of rs

  unfoldable pub names : RuleSet K → List String
  names rs = names_of rs.rules

  abbrev pub first_named : String → List (Rule K) → Option (Rule K)
  first_named name [] = none
  first_named name (r ∷ rs) = if r.name == name then some r else first_named name rs

  abbrev pub or_unknown : Option (Rule K) → Result (Rule K)
  or_unknown none = err unknown_rule
  or_unknown (some r) = ok r

  unfoldable pub get : String → RuleSet K → Result (Rule K)
  get name rs = or_unknown (first_named name rs.rules)

  abbrev later_or : Option (Rule K) → Option (Rule K) → Option (Rule K)
  later_or (some s) o = some s
  later_or none o = o

  -- {r.name: r for r in rules}, in which the last rule of a name stands
  abbrev pub by_name : String → List (Rule K) → Option (Rule K)
  by_name name [] = none
  by_name name (r ∷ rs) = later_or (by_name name rs) (if r.name == name then some r else none)

  -- not (set(wanted) - set(names))
  abbrev pub known : List String → List (Rule K) → Bool
  known wanted rs = all (λ n. member n (names_of rs)) wanted

  unfoldable pub only : List String → RuleSet K → Result (RuleSet K)
  unfolding member
  only wanted rs =
      if known wanted rs.rules
      then map_result (λ n. or_unknown (by_name n rs.rules)) wanted
        >>= (λ kept. ok (record { rules = kept }))
      else err unknown_rule

  abbrev pub without : List String → List (Rule K) → List (Rule K)
  without drop [] = []
  without drop (r ∷ rs) = if member r.name drop then without drop rs else r ∷ without drop rs

  unfoldable pub disable : List String → RuleSet K → Result (RuleSet K)
  unfolding member
  disable drop rs =
      if known drop rs.rules
      then ok (record { rules = without drop rs.rules })
      else err unknown_rule

  abbrev pub run : List (Rule K) → List (String × K) → AstNode → Result AstNode
  run [] kw node = ok node
  run (r ∷ rs) kw node = call r node kw >>= run rs kw

  unfoldable pub apply : RuleSet K → (schema : K) → List (String × K) → AstNode → Result AstNode
  unfolding call
  apply rs schema kwargs tree = run rs.rules (("schema", schema) ∷ kwargs) tree

  abbrev filtered :
      (List String → RuleSet K → Result (RuleSet K))
      → Option (List String)
      → RuleSet K
      → Result (RuleSet K)
  filtered f none rs = ok rs
  filtered f (some ns) rs = f ns rs

  abbrev chosen : RuleSet K → Option (RuleSet K) → RuleSet K
  chosen base none = base
  chosen base (some rs) = rs

  unfoldable pub resolve_rules :
      (base : RuleSet K) (rules : Option (RuleSet K)) (only_names disabled : Option (List String))
      → Result (RuleSet K)
  unfolding only disable
  resolve_rules base rules only_names disabled =
      filtered only only_names (chosen base rules) >>= filtered disable disabled
