-- ===== src/Planner/Enumeration/Cheapest.antt =====
-- The choice of `build_cost_plan` (cypherast/planner/plan.py): the sorting, the cut to eight and the
-- minimum, one after the other.
use Prim.Native.Nat.{ℕ, suc, ◌≤◌}
use cypherast.Prelude.{
  String, ◌≡◌, refl, sym, subst, Bool, In, here, there, Option, none, List, [], ◌∷◌, leb, arith,
  Bool-cases, inl, inr, All, also, none_left, All-head, All-tail,
}
use cypherast.Ast.{AstNodes, query, cypher}
use cypherast.Planner.PhysicalOps.{PhysicalOp}
use cypherast.Planner.Cost.{estimate}
use cypherast.Planner.Plan.{Texts, naive_plan, plan_query}
use cypherast.Executor.Python.{Floats}
use cypherast.Planner.Enumeration.{
  Schema, stays_before, of_clauses, insert_plan, sort_plans, take, cheapest, best, candidates,
  enumerate_plans, cost_plan,
}

-- No plan of the list costs less.
abbrev pub NoneCheaper : ℕ → List PhysicalOp → Type 0
NoneCheaper n = All (λ p. n ≤ estimate p)

cheapest-le : (p : PhysicalOp) (ps : List PhysicalOp) → estimate (cheapest p ps) ≤ estimate p
cheapest-le p [] = omega arith
cheapest-le p (q ∷ qs) = elim (Bool-cases (leb (estimate p) (estimate q))) [
  | inl t ↦ rw t (cheapest-le p qs)
  | inr f ↦ rw f (ground (arith, cheapest-le q qs))
]

NoneCheaper-mono : {m n : ℕ} {ps : List PhysicalOp} → m ≤ n → NoneCheaper n ps → NoneCheaper m ps
NoneCheaper-mono h none_left = none_left
NoneCheaper-mono h (also p ps) = also (omega arith) (NoneCheaper-mono h ps)

-- The sort without a schema.
abbrev before : PhysicalOp → PhysicalOp → Bool
before p q = leb (estimate p) (estimate q)

NoneCheaper-insert :
    {n : ℕ} (p : PhysicalOp) {ps : List PhysicalOp}
    → n ≤ estimate p
    → NoneCheaper n ps
    → NoneCheaper n (insert_plan before p ps)
NoneCheaper-insert p h none_left = also h none_left
NoneCheaper-insert p h (also {x = q} {xs = qs} k ks) =
    elim (Bool-cases (leb (estimate p) (estimate q))) [
      | inl t ↦ rw t (also h (also k ks))
      | inr f ↦ rw f (also k (NoneCheaper-insert p h ks))
    ]

NoneCheaper-of_insert :
    {n : ℕ} (p : PhysicalOp) (ps : List PhysicalOp)
    → NoneCheaper n (insert_plan before p ps)
    → NoneCheaper n (p ∷ ps)
NoneCheaper-of_insert p [] h = h
NoneCheaper-of_insert {n = n} p (q ∷ qs) h = elim (Bool-cases (leb (estimate p) (estimate q))) [
  | inl t ↦ rw t at h
  | inr f ↦
      let k : NoneCheaper n (q ∷ insert_plan before p qs) = rw f at h in
      let rest = NoneCheaper-of_insert p qs (All-tail k) in
      also (All-head rest) (also (All-head k) (All-tail rest))
]

NoneCheaper-of_sort :
    {n : ℕ} (ps : List PhysicalOp) → NoneCheaper n (sort_plans before ps) → NoneCheaper n ps
NoneCheaper-of_sort [] h = h
NoneCheaper-of_sort (p ∷ ps) h =
    let k = NoneCheaper-of_insert p (sort_plans before ps) h in
    also (All-head k) (NoneCheaper-of_sort ps (All-tail k))

-- The head of a sorted list is a plan that costs no more than any other.
abbrev HeadLeast : List PhysicalOp → Type 0
HeadLeast [] = Unit
HeadLeast (p ∷ ps) = NoneCheaper (estimate p) (p ∷ ps)

HeadLeast-insert :
    (p : PhysicalOp) (ps : List PhysicalOp) → HeadLeast ps → HeadLeast (insert_plan before p ps)
HeadLeast-insert p [] h = also (omega arith) none_left
HeadLeast-insert p (q ∷ qs) h = elim (Bool-cases (leb (estimate p) (estimate q))) [
  | inl t ↦ rw t (also (omega arith) (NoneCheaper-mono (ground arith) h))
  | inr f ↦ rw f (also (omega arith) (NoneCheaper-insert p (ground arith) (All-tail h)))
]

HeadLeast-sort : (ps : List PhysicalOp) → HeadLeast (sort_plans before ps)
HeadLeast-sort [] = tt
HeadLeast-sort (p ∷ ps) = HeadLeast-insert p (sort_plans before ps) (HeadLeast-sort ps)

NoneCheaper-best :
    (otherwise : PhysicalOp) (ps : List PhysicalOp)
    → HeadLeast ps
    → NoneCheaper (estimate (best otherwise (take 8 ps))) ps
NoneCheaper-best otherwise [] h = none_left
NoneCheaper-best otherwise (p ∷ ps) h = NoneCheaper-mono (cheapest-le p (take 7 ps)) h

In-under :
    {x p : PhysicalOp} {xs ys : List PhysicalOp}
    → (In x xs → In x ys)
    → In x (p ∷ xs)
    → In x (p ∷ ys)
In-under f here = here
In-under f (there i) = there (f i)

In-past : {x p q : PhysicalOp} {qs : List PhysicalOp} → In x (p ∷ qs) → In x (p ∷ q ∷ qs)
In-past i = In-under there i

In-swap :
    {x p q : PhysicalOp} {xs qs : List PhysicalOp}
    → (In x xs → In x (p ∷ qs))
    → In x (q ∷ xs)
    → In x (p ∷ q ∷ qs)
In-swap f here = there here
In-swap f (there i) = In-past (f i)

In-of_insert :
    {x : PhysicalOp} (b : PhysicalOp → PhysicalOp → Bool) (p : PhysicalOp) (ps : List PhysicalOp)
    → In x (insert_plan b p ps)
    → In x (p ∷ ps)
In-of_insert b p [] i = i
In-of_insert {x} b p (q ∷ qs) i = elim (Bool-cases (b p q)) [
  | inl t ↦ rw t at i
  | inr f ↦
      let j : In x (q ∷ insert_plan b p qs) = rw f at i in In-swap (λ k. In-of_insert b p qs k) j
]

In-of_sort :
    {x : PhysicalOp} (b : PhysicalOp → PhysicalOp → Bool) (ps : List PhysicalOp)
    → In x (sort_plans b ps)
    → In x ps
In-of_sort b [] i = i
In-of_sort b (p ∷ ps) i = In-under (λ j. In-of_sort b ps j) (In-of_insert b p (sort_plans b ps) i)

In-of_take : {x : PhysicalOp} (n : ℕ) (ps : List PhysicalOp) → In x (take n ps) → In x ps
In-of_take ℕ.zero ps i = elim i [ ]
In-of_take (suc n) [] i = i
In-of_take (suc n) (p ∷ ps) i = In-under (λ j. In-of_take n ps j) i

In-cheapest : (p : PhysicalOp) (ps : List PhysicalOp) → In (cheapest p ps) (p ∷ ps)
In-cheapest p [] = here
In-cheapest p (q ∷ qs) = elim (Bool-cases (leb (estimate p) (estimate q))) [
  | inl t ↦ rw t (In-past (In-cheapest p qs))
  | inr f ↦ rw f (there (In-cheapest q qs))
]

insert_plan-shape :
    (b : PhysicalOp → PhysicalOp → Bool) (p : PhysicalOp) (ps : List PhysicalOp)
    → (q : PhysicalOp) × (qs : List PhysicalOp) × (insert_plan b p ps ≡ q ∷ qs)
insert_plan-shape b p [] = (p, [], refl)
insert_plan-shape b p (q ∷ qs) = elim (Bool-cases (b p q)) [
  | inl t ↦ (p, q ∷ qs, rw t)
  | inr f ↦ (q, insert_plan b p qs, rw f)
]

best-In :
    (otherwise : PhysicalOp) (b : PhysicalOp → PhysicalOp → Bool) (p : PhysicalOp)
    (ps : List PhysicalOp)
    → In (best otherwise (take 8 (sort_plans b (p ∷ ps)))) (p ∷ ps)
best-In otherwise b p ps =
    let (q, qs, e) = insert_plan-shape b p (sort_plans b ps) in
    In-of_sort b (p ∷ ps) (
      In-of_take 8 (sort_plans b (p ∷ ps)) (
        subst (λ l. In (best otherwise (take 8 l)) (take 8 l)) (sym e) (In-cheapest q (take 7 qs))))

-- The plan that `build_cost_plan` chooses is one of the candidate plans of the query, with a schema
-- or without. Without a schema, none of all the candidates (not only of the eight that are kept)
-- costs less.
pub cost_plan-NoneCheaper :
    (floats : Floats) (texts : Texts) (schema : Option Schema) (clauses : AstNodes)
    (version : Option String)
    → In
        (cost_plan floats texts schema (cypher (query clauses) version))
        (candidates floats texts schema clauses)
      × NoneCheaper
          (estimate (cost_plan floats texts none (cypher (query clauses) version)))
          (candidates floats texts none clauses)
unfolding cost_plan enumerate_plans candidates stays_before
cost_plan-NoneCheaper floats texts schema clauses version =
    let root = naive_plan texts (cypher (query clauses) version) in
    let ps = sort_plans before (candidates floats texts none clauses) in
    (
      best-In root (stays_before floats schema) (plan_query texts clauses)
          (of_clauses floats texts schema clauses),
      NoneCheaper-of_sort (candidates floats texts none clauses)
          (NoneCheaper-best root ps (HeadLeast-sort (candidates floats texts none clauses))),
    )
