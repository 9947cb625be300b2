-- ===== src/Executor/Engine/Action.antt =====
-- Operations of the engine that change the graph: the graph stands as it is left when one raises.
-- `Hoare` says what an operation leaves, whether it raises or not.
use cypherast.Prelude.{List, [], ◌∷◌}
use cypherast.Prelude.Result.{Error, Result, ok, err}
use cypherast.Executor.Graph.{Graph}

abbrev pub Action {ℓ} : Type ℓ → Type ℓ
Action A = Graph → Result A × Graph

infixl 5 ◌>>=◌
-- One operation after another; an exception ends both and keeps the changes made before it.
unfoldable pub ◌>>=◌ {κ ℓ} : {B : Type κ} {A : Type ℓ} → Action A → (A → Action B) → Action B
(m >>= f) g = let (r, h) = m g in elim r [ err e ↦ (err e, h) | ok a ↦ f a h ]

module _ {ℓ} {A : Type ℓ} where
  abbrev pub done : A → Action A
  done a g = (ok a, g)

  abbrev pub raised : Error → Action A
  raised e g = (err e, g)

  -- An operation that only reads the graph.
  abbrev pub reading : (Graph → Result A) → Action A
  reading f g = (f g, g)

  -- The invariant `I` where the operation raises, and `Q` of its result where it does not.
  unfoldable pub Ends : (I : Graph → Type 0) → (A → Graph → Type 0) → Result A × Graph → Type 0
  Ends I Q (err e, h) = I h
  Ends I Q (ok a, h) = Q a h

module _ {ℓ κ} {A : Type ℓ} {B : Type κ} where
  -- [f(x) for x in xs]
  unfoldable pub each : (A → Action B) → List A → Action (List B)
  unfolding ◌>>=◌
  each f [] = done []
  each f (x ∷ xs) = f x >>= λ y. each f xs >>= λ ys. done (y ∷ ys)

-- From a graph with `P` the operation ends with `Q` of its result, or with `I` where it raises.
pub record Hoare {ℓ} {A : Type ℓ} (I P : Graph → Type 0) (m : Action A) (Q : A → Graph → Type 0)
    : Type ℓ where
  pub ends : (g : Graph) → P g → Ends I Q (m g)

module _ {ℓ κ} {A : Type ℓ} {B : Type κ} {I P : Graph → Type 0} {Q : A → Graph → Type 0}
    {R : B → Graph → Type 0} where
  -- The rule of composition.
  pub sequenced :
      {m : Action A} {f : A → Action B}
      → Hoare I P m Q
      → ((a : A) → Hoare I (Q a) (f a) R)
      → Hoare I P (m >>= f) R
  unfolding ◌>>=◌ Ends
  sequenced {m} {f} p k = record { ends = λ g h. after (m g) (p.ends g h) }
    where
      after :
          (r : Result A × Graph)
          → Ends I Q r
          → Ends I R (let (a, h) = r in elim a [ err e ↦ (err e, h) | ok a ↦ f a h ])
      after (err e, h) q = q
      after (ok a, h) q = (k a).ends h q
