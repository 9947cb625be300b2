-- ===== src/Prelude/Lists.antt =====
-- Lists measured by native numbers, and Boolean folds over them.
use Prim.Native.Nat.{ℕ, suc, ◌+◌}
use mathlib.Core.Path.{◌≡◌}
use mathlib.Core.Bool.{Bool, true, false, ◌&&◌, ◌||◌}
use mathlib.Core.List.{List, [], ◌∷◌, ◌++◌}
use mathlib.Core.Logic.{◌⊎◌, inl, inr}
use native.Mathlib.Omega.{arith}

module _ {ℓ} {A : Type ℓ} where
  abbrev pub length : List A → ℕ
  length [] = 0
  length (x ∷ xs) = suc (length xs)

  pub length-append : (xs ys : List A) → length (xs ++ ys) ≡ length xs + length ys
  length-append [] ys = omega arith
  length-append (x ∷ xs) ys = omega (arith, length-append xs ys)

  -- Python's any(p(x) for x in xs)
  abbrev pub any : (A → Bool) → List A → Bool
  any p [] = false
  any p (x ∷ xs) = p x || any p xs

  -- Python's all(p(x) for x in xs)
  abbrev pub all : (A → Bool) → List A → Bool
  all p [] = true
  all p (x ∷ xs) = p x && all p xs

-- Every member satisfies the predicate.
pub data All {ℓ κ} {A : Type ℓ} (P : A → Type κ) : List A → Type (ℓ ⊔ κ) where
  none_left : All P []
  also : {x : A} {xs : List A} → P x → All P xs → All P (x ∷ xs)

module _ {ℓ κ} {A : Type ℓ} {P : A → Type κ} where
  pub All-append : {xs ys : List A} → All P xs → All P ys → All P (xs ++ ys)
  All-append none_left k = k
  All-append (also p h) k = also p (All-append h k)

  pub All-of_append : (xs : List A) {ys : List A} → All P (xs ++ ys) → All P xs × All P ys
  All-of_append [] h = (none_left, h)
  All-of_append (x ∷ xs) (also p h) = (also p (All-of_append xs h).0, (All-of_append xs h).1)

  pub All-head : {x : A} {xs : List A} → All P (x ∷ xs) → P x
  All-head (also p h) = p

  pub All-tail : {x : A} {xs : List A} → All P (x ∷ xs) → All P xs
  All-tail (also p h) = h

  pub All-of : (xs : List A) → ((x : A) → P x) → All P xs
  All-of [] h = none_left
  All-of (x ∷ xs) h = also (h x) (All-of xs h)

-- A member of a list, with its place.
pub data In {ℓ} {A : Type ℓ} (x : A) : List A → Type ℓ where
  here : {xs : List A} → In x (x ∷ xs)
  there : {y : A} {xs : List A} → In x xs → In x (y ∷ xs)

module _ {ℓ} {A : Type ℓ} {x : A} where
  pub In-append : (xs : List A) {ys : List A} → In x xs ⊎ In x ys → In x (xs ++ ys)
  In-append [] (inl i) = elim i [ ]
  In-append [] (inr i) = i
  In-append (y ∷ xs) (inl here) = here
  In-append (y ∷ xs) (inl (there i)) = there (In-append xs (inl i))
  In-append (y ∷ xs) (inr i) = there (In-append xs (inr i))

  pub In-of_append : (xs : List A) {ys : List A} → In x (xs ++ ys) → In x xs ⊎ In x ys
  In-of_append [] i = inr i
  In-of_append (y ∷ xs) here = inl here
  In-of_append (y ∷ xs) (there i) = elim (In-of_append xs i) [
    | inl j ↦ inl (there j)
    | inr j ↦ inr j
  ]
