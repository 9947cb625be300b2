-- ===== src/Optimizer/Simplify/Once.antt =====
-- One run of the simplifier leaves nothing for a second run.
use cypherast.Prelude.{
  ◌≡◌, refl, Bool, true, false, ◌&&◌, ◌||◌, Option, none, some, Bool-cases, inl, inr, All, also,
  none_left, All-of_append,
}
use mathlib.Core.Path.{ap₂, ◌∙◌}
use cypherast.Ast.{
  AstNode, null, boolean, integer, float, string, binary, add, mul, eq, and, or, not_expr, is_null,
}
use cypherast.Ast.Walk.{below, walk}
use cypherast.Ast.Transform.Idempotent.{IsFixed, transform_idem}
use cypherast.Executor.Python.{Floats, Number, whole, real, no_number}
use cypherast.Optimizer.Simplify.{
  simplify, simplify_node, as_bool, as_num, is_null_literal, is_list, and_with, or_with, sum_of,
  product_of, unfolded_add, literal_or, eq_of,
}

module _ (fl : Floats) where
  abbrev s : AstNode → AstNode
  s = simplify_node fl

  abbrev Fixed : AstNode → Type 0
  Fixed n = All (IsFixed s) (walk n)

  module _ (l r : AstNode) (hl : Fixed l) (hr : Fixed r) where
    and-Fixed :
        (a b : Option Bool)
        → as_bool l ≡ a
        → as_bool r ≡ b
        → ((s (binary and l r) ≡ binary and l r) → Fixed (binary and l r))
        → Fixed (and_with a b l r)
    unfolding simplify_node below
    and-Fixed (some false) b p q node = also refl none_left
    and-Fixed none (some false) p q node = also refl none_left
    and-Fixed (some true) (some false) p q node = also refl none_left
    and-Fixed (some true) (some true) p q node = hr
    and-Fixed (some true) none p q node = hr
    and-Fixed none (some true) p q node = hl
    and-Fixed none none p q node = elim (Bool-cases (is_null_literal l && is_null_literal r)) [
      | inl t ↦ rw t (also refl none_left)
      | inr f ↦ rw f (node (rw (p, q, f)))
    ]

    or-Fixed :
        (a b : Option Bool)
        → as_bool l ≡ a
        → as_bool r ≡ b
        → ((s (binary or l r) ≡ binary or l r) → Fixed (binary or l r))
        → Fixed (or_with a b l r)
    unfolding simplify_node below
    or-Fixed (some true) b p q node = also refl none_left
    or-Fixed none (some true) p q node = also refl none_left
    or-Fixed (some false) (some true) p q node = also refl none_left
    or-Fixed (some false) (some false) p q node = hr
    or-Fixed (some false) none p q node = hr
    or-Fixed none (some false) p q node = hl
    or-Fixed none none p q node = node (rw (p, q))

    unfolded-Fixed :
        ((unfolded_add l r ≡ binary add l r) → Fixed (binary add l r)) → Fixed (unfolded_add l r)
    unfolding simplify_node below
    unfolded-Fixed node = elim (Bool-cases (is_list l || is_list r)) [
      | inl t ↦ rw t (node (rw t))
      | inr f ↦ elim (Bool-cases (is_null_literal l || is_null_literal r)) [
        | inl u ↦ rw (f, u) (also refl none_left)
        | inr g ↦ rw (f, g) (node (rw (f, g)))
      ]
    ]

    as_sum :
        {a b : Number}
        → as_num l ≡ a
        → as_num r ≡ b
        → literal_or (sum_of fl a b) (unfolded_add l r) ≡ binary add l r
        → s (binary add l r) ≡ binary add l r
    unfolding simplify_node
    as_sum p q e = ap₂ (λ x y. literal_or (sum_of fl x y) (unfolded_add l r)) p q ∙ e

    as_product :
        {a b : Number}
        → as_num l ≡ a
        → as_num r ≡ b
        → literal_or (product_of fl a b) (binary mul l r) ≡ binary mul l r
        → s (binary mul l r) ≡ binary mul l r
    unfolding simplify_node
    as_product p q e = ap₂ (λ x y. literal_or (product_of fl x y) (binary mul l r)) p q ∙ e

    add-Fixed :
        (a b : Number)
        → as_num l ≡ a
        → as_num r ≡ b
        → ((s (binary add l r) ≡ binary add l r) → Fixed (binary add l r))
        → Fixed (literal_or (sum_of fl a b) (unfolded_add l r))
    unfolding simplify_node below
    add-Fixed (whole a) (whole b) p q node = also refl none_left
    add-Fixed (whole a) (real b) p q node = also refl none_left
    add-Fixed (real a) (whole b) p q node = also refl none_left
    add-Fixed (real a) (real b) p q node = also refl none_left
    add-Fixed (whole a) no_number p q node = unfolded-Fixed (λ e. node (as_sum p q e))
    add-Fixed (real a) no_number p q node = unfolded-Fixed (λ e. node (as_sum p q e))
    add-Fixed no_number (whole b) p q node = unfolded-Fixed (λ e. node (as_sum p q e))
    add-Fixed no_number (real b) p q node = unfolded-Fixed (λ e. node (as_sum p q e))
    add-Fixed no_number no_number p q node = unfolded-Fixed (λ e. node (as_sum p q e))

    mul-Fixed :
        (a b : Number)
        → as_num l ≡ a
        → as_num r ≡ b
        → ((s (binary mul l r) ≡ binary mul l r) → Fixed (binary mul l r))
        → Fixed (literal_or (product_of fl a b) (binary mul l r))
    unfolding simplify_node below
    mul-Fixed (whole a) (whole b) p q node = also refl none_left
    mul-Fixed (whole a) (real b) p q node = also refl none_left
    mul-Fixed (real a) (whole b) p q node = also refl none_left
    mul-Fixed (real a) (real b) p q node = also refl none_left
    mul-Fixed (whole a) no_number p q node = node (as_product p q refl)
    mul-Fixed (real a) no_number p q node = node (as_product p q refl)
    mul-Fixed no_number (whole b) p q node = node (as_product p q refl)
    mul-Fixed no_number (real b) p q node = node (as_product p q refl)
    mul-Fixed no_number no_number p q node = node (as_product p q refl)

  eq_of-Fixed :
      (l r : AstNode) → ((eq_of l r ≡ binary eq l r) → Fixed (binary eq l r)) → Fixed (eq_of l r)
  unfolding simplify_node below
  eq_of-Fixed (integer a) (integer b) node = also refl none_left
  eq_of-Fixed (integer a) _ node = node refl
  eq_of-Fixed _ r node = node refl

  eq-Fixed :
      (l r : AstNode)
      → ((s (binary eq l r) ≡ binary eq l r) → Fixed (binary eq l r))
      → Fixed (s (binary eq l r))
  unfolding simplify_node below
  eq-Fixed l r node = elim (Bool-cases (is_null_literal l || is_null_literal r)) [
    | inl t ↦ rw t (also refl none_left)
    | inr f ↦ rw f (eq_of-Fixed l r (λ e. node (rw f e)))
  ]

  keeps : (n : AstNode) → All (IsFixed s) (below n) → Fixed (s n)
  unfolding simplify_node below
  keeps (not_expr (boolean b)) h = also refl none_left
  keeps (not_expr null) h = also refl none_left
  keeps (not_expr e) h = also refl h
  keeps (binary and l r) h =
      let (hl, hr) = All-of_append (walk l) h in
      and-Fixed l r hl hr (as_bool l) (as_bool r) refl refl (λ e. also e h)
  keeps (binary or l r) h =
      let (hl, hr) = All-of_append (walk l) h in
      or-Fixed l r hl hr (as_bool l) (as_bool r) refl refl (λ e. also e h)
  keeps (binary add l r) h =
      let (hl, hr) = All-of_append (walk l) h in
      add-Fixed l r hl hr (as_num l) (as_num r) refl refl (λ e. also e h)
  keeps (binary mul l r) h =
      let (hl, hr) = All-of_append (walk l) h in
      mul-Fixed l r hl hr (as_num l) (as_num r) refl refl (λ e. also e h)
  keeps (binary eq l r) h = eq-Fixed l r (λ e. also e h)
  keeps (is_null null b) h = also refl none_left
  keeps (is_null (integer _) b) h = also refl none_left
  keeps (is_null (float _) b) h = also refl none_left
  keeps (is_null (string _) b) h = also refl none_left
  keeps (is_null (boolean _) b) h = also refl none_left
  keeps (is_null e b) h = also refl h
  keeps _ h = also refl h

-- A second run of the simplifier changes nothing.
pub simplify_idem : (fl : Floats) (n : AstNode) → simplify fl (simplify fl n) ≡ simplify fl n
unfolding simplify
simplify_idem fl n = transform_idem (simplify_node fl) (keeps fl) n
