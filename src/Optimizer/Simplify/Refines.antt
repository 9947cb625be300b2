-- ===== src/Optimizer/Simplify/Refines.antt =====
-- A rewrite may remove an error, and changes no value: the order on results that the soundness of
-- the simplifier is stated by, and the evaluation's loops under it.
use cypherast.Prelude.{String, ◌≡◌, Bool, true, false, Option, none, some, if◌then◌else◌}
use cypherast.Prelude.Text.{lower_eq}
use cypherast.Prelude.Result.{Result, ok, err, Error, ◌>>=◌}
use cypherast.Executor.Value.{Value, Values, empty, item}
use cypherast.Executor.Eval.{comprehend, for_all, for_any, for_single, quantify}

-- The left result is an error, or the right one is the same.
infix 50 ◌⊑◌
pub data ◌⊑◌ {ℓ} {A : Type ℓ} : Result A → Result A → Type ℓ where
  failed : {e : Error} {r : Result A} → err e ⊑ r
  same : {r : Result A} → r ⊑ r

module _ {ℓ} {A : Type ℓ} where
  pub ⊑-trans : {r s t : Result A} → r ⊑ s → s ⊑ t → r ⊑ t
  ⊑-trans failed q = failed
  ⊑-trans same q = q

  pub ⊑-ok : {r s : Result A} {a : A} → r ⊑ s → r ≡ ok a → s ≡ ok a
  ⊑-ok failed p = cc
  ⊑-ok same p = p

  pub ⊑-of_eq : {r s : Result A} → r ≡ s → r ⊑ s
  ⊑-of_eq {r} p = rw (← p) same

module _ {ℓ κ} {A : Type ℓ} {B : Type κ} where
  pub bind-⊑ :
      {r r' : Result A} {k k' : A → Result B}
      → r ⊑ r'
      → ((a : A) → k a ⊑ k' a)
      → (r >>= k) ⊑ (r' >>= k')
  bind-⊑ failed h = failed
  bind-⊑ (same {r = ok a}) h = h a
  bind-⊑ (same {r = err e}) h = failed

  -- The first step is the same, and the rest is refined.
  pub rest-⊑ :
      (r : Result A) {k k' : A → Result B} → ((a : A) → k a ⊑ k' a) → (r >>= k) ⊑ (r >>= k')
  rest-⊑ (ok a) h = h a
  rest-⊑ (err e) h = failed

  -- The first step is refined, and the rest is the same.
  pub first-⊑ : {r r' : Result A} (k : A → Result B) → r ⊑ r' → (r >>= k) ⊑ (r' >>= k)
  first-⊑ k h = bind-⊑ h (λ a. same)

pub if-⊑ {ℓ} :
    {A : Type ℓ} (b : Bool) {r r' s s' : Result A}
    → r ⊑ r'
    → s ⊑ s'
    → (if b then r else s) ⊑ (if b then r' else s')
if-⊑ true p q = p
if-⊑ false p q = q

module _ {keep keep' : Value → Result Bool} (h : (v : Value) → keep v ⊑ keep' v) where
  pub comprehend-⊑ :
      {project project' : Value → Result Value}
      → ((v : Value) → project v ⊑ project' v)
      → (vs : Values) → comprehend keep project vs ⊑ comprehend keep' project' vs
  unfolding comprehend
  comprehend-⊑ p empty = same
  comprehend-⊑ p (item v vs) =
      let ih = comprehend-⊑ p vs in
      bind-⊑ (h v) (elim [ true ↦ bind-⊑ (p v) (λ w. bind-⊑ ih (λ ws. same)) | false ↦ ih ])

  for_all-⊑ : (vs : Values) → for_all keep vs ⊑ for_all keep' vs
  unfolding for_all
  for_all-⊑ empty = same
  for_all-⊑ (item v vs) = let ih = for_all-⊑ vs in bind-⊑ (h v) (elim [ true ↦ ih | false ↦ same ])

  for_any-⊑ : (vs : Values) → for_any keep vs ⊑ for_any keep' vs
  unfolding for_any
  for_any-⊑ empty = same
  for_any-⊑ (item v vs) = let ih = for_any-⊑ vs in bind-⊑ (h v) (elim [ true ↦ same | false ↦ ih ])

  for_single-⊑ :
      (found : Option Value) (vs : Values) → for_single keep found vs ⊑ for_single keep' found vs
  unfolding for_single
  for_single-⊑ found empty = same
  for_single-⊑ none (item v vs) =
      bind-⊑ (h v) (elim [ true ↦ for_single-⊑ (some v) vs | false ↦ for_single-⊑ none vs ])
  for_single-⊑ (some w) (item v vs) =
      bind-⊑ (h v) (elim [ true ↦ same | false ↦ for_single-⊑ (some w) vs ])

pub quantify-⊑ :
    (name : String) {all_test all_test' test test' : Value → Result Bool}
    → ((v : Value) → all_test v ⊑ all_test' v)
    → ((v : Value) → test v ⊑ test' v)
    → (vs : Values) → quantify name all_test test vs ⊑ quantify name all_test' test' vs
unfolding quantify
quantify-⊑ name h k vs = if-⊑ (lower_eq name "all") (first-⊑ _ (for_all-⊑ h vs)) (
    if-⊑ (lower_eq name "any") (first-⊑ _ (for_any-⊑ k vs)) (
      if-⊑ (lower_eq name "none") (first-⊑ _ (for_any-⊑ k vs))
        (if-⊑ (lower_eq name "single") (for_single-⊑ k none vs) same)))
