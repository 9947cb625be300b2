-- ===== src/Prelude/Dict.antt =====
-- Python's dictionaries as association lists in insertion order. A key stands at most once in a
-- dictionary that the operations build; a write to a present key keeps its place.
use mathlib.Core.Path.{◌≡◌, refl, ◌∙◌}
use mathlib.Core.Bool.{Bool, true, false, not, ◌&&◌, ◌||◌}
use mathlib.Core.Logic.{◌↔◌}
use mathlib.Core.List.{List, [], ◌∷◌, ◌++◌}
use mathlib.Core.Option
use mathlib.Core.Option.{Option, none, some}
use native.Mathlib.Omega.{arith}
use Prim.Native.Nat.{ℕ}
use Prim.Native.String.{String}
use text.Mathlib.Text.{◌==◌ as str_eq}
use text.Mathlib.TextEquality.{eq_iff}
use package.cypherast.Prelude.Tests.{◌==◌, ==_iff, if◌then◌else◌}

-- The equality of keys.
pub record Eq {ℓ} (K : Type ℓ) : Type ℓ where
  pub beq : K → K → Bool
  pub beq_iff : (a b : K) → (beq a b ≡ true) ↔ (a ≡ b)

abbrev nat_beq : ℕ → ℕ → Bool
nat_beq a b = a == b

instance abbrev pub nat_eq : Eq ℕ
nat_eq = record { beq = nat_beq; beq_iff = ==_iff }

instance abbrev pub string_eq : Eq String
string_eq = record { beq = str_eq; beq_iff = eq_iff }

module _ {ℓ κ} {K : Type ℓ} {V : Type κ} ⦃e : Eq K⦄ where
  -- d.get(k)
  unfoldable pub lookup : K → List (K × V) → Option V
  lookup k [] = none
  lookup k ((j, v) ∷ m) = if e.beq j k then some v else lookup k m

  -- d[k] = v
  unfoldable pub insert : K → V → List (K × V) → List (K × V)
  insert k v [] = (k, v) ∷ []
  insert k v ((j, w) ∷ m) = if e.beq j k then (j, v) ∷ m else (j, w) ∷ insert k v m

  -- A change to the value at `k` in place, if the key is there.
  unfoldable pub modify : K → (V → V) → List (K × V) → List (K × V)
  modify k f [] = []
  modify k f ((j, w) ∷ m) = if e.beq j k then (j, f w) ∷ m else (j, w) ∷ modify k f m

  -- d.pop(k, None): a dictionary has one pair with the key, so removing all is the same.
  unfoldable pub remove : K → List (K × V) → List (K × V)
  remove k [] = []
  remove k ((j, w) ∷ m) = if e.beq j k then remove k m else (j, w) ∷ remove k m

  pub lookup-insert :
      (k j : K) (v : V) (m : List (K × V))
      → lookup j (insert k v m) ≡ (if e.beq k j then some v else lookup j m)
  unfolding lookup insert
  lookup-insert k j v [] = refl
  lookup-insert k j v ((i, w) ∷ m) =
      ground (arith, e.beq_iff k j, e.beq_iff i k, e.beq_iff i j, lookup-insert k j v m)

  pub lookup-remove :
      (k j : K) (m : List (K × V))
      → lookup j (remove k m) ≡ (if e.beq k j then none else lookup j m)
  unfolding lookup remove
  lookup-remove k j [] = ground arith
  lookup-remove k j ((i, w) ∷ m) =
      ground (arith, e.beq_iff k j, e.beq_iff i k, e.beq_iff i j, lookup-remove k j m)

  pub lookup-modify :
      (k j : K) (f : V → V) (m : List (K × V))
      → lookup j (modify k f m) ≡ (if e.beq k j then Option.map f (lookup k m) else lookup j m)
  unfolding lookup modify
  lookup-modify k j f [] = ground arith
  lookup-modify k j f ((i, w) ∷ m) =
      ground (arith, e.beq_iff k j, e.beq_iff i k, e.beq_iff i j, lookup-modify k j f m)

module _ {ℓ} {K : Type ℓ} ⦃e : Eq K⦄ where
  -- k in s, for a set or a list
  unfoldable pub has : K → List K → Bool
  has k [] = false
  has k (j ∷ s) = if e.beq j k then true else has k s

  -- s.add(k)
  unfoldable pub add : K → List K → List K
  add k [] = k ∷ []
  add k (j ∷ s) = if e.beq j k then j ∷ s else j ∷ add k s

  -- s.discard(k), and the removal of `k` from a list that has it once
  unfoldable pub discard : K → List K → List K
  discard k [] = []
  discard k (j ∷ s) = if e.beq j k then discard k s else j ∷ discard k s

  -- set(xs)
  unfoldable pub to_set : List K → List K
  unfolding add
  to_set [] = []
  to_set (x ∷ xs) = add x (to_set xs)

  pub has-add : (k j : K) (s : List K) → has j (add k s) ≡ (e.beq k j || has j s)
  unfolding has add
  has-add k j [] = ground arith
  has-add k j (i ∷ s) = ground (arith, e.beq_iff i k, e.beq_iff i j, e.beq_iff k j, has-add k j s)

  pub has-discard : (k j : K) (s : List K) → has j (discard k s) ≡ (not (e.beq k j) && has j s)
  unfolding has discard
  has-discard k j [] = ground arith
  has-discard k j (i ∷ s) =
      ground (arith, e.beq_iff i k, e.beq_iff i j, e.beq_iff k j, has-discard k j s)

  pub has-append : (j : K) (s t : List K) → has j (s ++ t) ≡ (has j s || has j t)
  unfolding has
  has-append j [] t = refl
  has-append j (i ∷ s) t = ground (arith, has-append j s t)

  pub has-to_set : (j : K) (s : List K) → has j (to_set s) ≡ has j s
  unfolding has to_set
  has-to_set j [] = refl
  has-to_set j (i ∷ s) = has-add i j (to_set s) ∙ ground (arith, has-to_set j s)

  pub beq_refl : (k : K) → e.beq k k ≡ true
  beq_refl k = (e.beq_iff k k).1 refl
