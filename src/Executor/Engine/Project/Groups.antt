-- ===== src/Executor/Engine/Project/Groups.antt =====
-- Grouping shares the rows out: each stands in exactly one group.
use cypherast.Prelude.{◌≡◌, sym, subst, Bool, true, false, List, [], ◌∷◌, ◌++◌, if◌then◌else◌}
use mathlib.Core.List.{Perm, perm_middle, append_assoc, append-nil}
use mathlib.Core.List.Perm
use cypherast.Prelude.Result.{Result, ok}
use cypherast.Ast.{AstNode, AstNodes}
use cypherast.Executor.Value.{Value, Values, tuple}
use cypherast.Executor.Graph.{Graph}
use cypherast.Executor.Python.{py_eq}
use cypherast.Executor.Env.{Env, Builtins}
use cypherast.Executor.Engine.Row.{Row, env_of}
use cypherast.Prelude.Result.{bound-ok, ok-injective}
use cypherast.Executor.Engine.Project.{Texts}
use cypherast.Executor.Engine.Project.Aggregate.{group_in, grouped, key_values}

-- The rows of all groups.
abbrev pub members : List (Values × List Row) → List Row
members [] = []
members ((k, rs) ∷ gs) = rs ++ members gs

middle : (row : Row) (rs ms : List Row) → Perm (rs ++ (row ∷ ms)) (row ∷ (rs ++ ms))
middle row rs ms = perm_middle rs ms

module _ (py : Builtins) (texts : Texts) (ev : AstNode → Env → Result Value) (params : Row)
    (g : Graph) where
  group_in-Perm :
      (key : Values) (row : Row) (gs : List (Values × List Row))
      → Perm (members (group_in py texts ev params g key row gs)) (row ∷ members gs)
  unfolding group_in
  group_in-Perm key row [] = Perm.refl (row ∷ [])
  group_in-Perm key row ((k, rs) ∷ gs) =
      place (group_in-Perm key row gs) (py_eq py.floats (tuple k) (tuple key))
    where
      place :
          Perm (members (group_in py texts ev params g key row gs)) (row ∷ members gs)
          → (b : Bool)
          → Perm
              (members (
                if b
                then (k, rs ++ (row ∷ [])) ∷ gs
                else (k, rs) ∷ group_in py texts ev params g key row gs))
              (row ∷ (rs ++ members gs))
      place below true =
          subst (λ x. Perm x (row ∷ (rs ++ members gs)))
            (sym (append_assoc rs (row ∷ []) (members gs))) (middle row rs (members gs))
      place below false = Perm.trans (Perm.append_left rs below) (middle row rs (members gs))

  grouped-all :
      (keys : AstNodes) (rows : List Row) (gs : List (Values × List Row))
      {out : List (Values × List Row)}
      → grouped py texts ev params g keys rows gs ≡ ok out
      → Perm (members out) (rows ++ members gs)
  unfolding grouped
  grouped-all keys [] gs e =
      subst (λ o. Perm (members o) (members gs)) (ok-injective e) (Perm.refl (members gs))
  grouped-all keys (row ∷ rows) gs e =
      let (key, k, e1) =
        bound-ok (key_values py texts ev params g keys (env_of params g row)) _ e in
      Perm.trans (grouped-all keys rows (group_in py texts ev params g key row gs) e1) (
        Perm.trans (Perm.append_left rows (group_in-Perm key row gs))
          (middle row rows (members gs)))

  -- Grouping that does not raise puts each row in exactly one group: the rows of the groups are the
  -- rows given, each as often.
  pub grouped-Perm :
      (keys : AstNodes) (rows : List Row) {groups : List (Values × List Row)}
      → grouped py texts ev params g keys rows [] ≡ ok groups
      → Perm (members groups) rows
  grouped-Perm keys rows {groups} e =
      subst (λ x. Perm (members groups) x) (append-nil rows) (grouped-all keys rows [] e)
