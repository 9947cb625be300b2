-- ===== src/Executor/Engine/Trails/Ends.antt =====
-- The search for trails ends.
use Prim.Native.Nat.{ℕ, zero, suc, ◌+◌, ◌-◌, ◌≤◌}
use cypherast.Prelude.{
  ◌≡◌, refl, ap, true, List, [], ◌∷◌, ◌++◌, some, arith, Bool-cases, inl, inr, leb,
}
use cypherast.Prelude.Result.{ok}
use cypherast.Executor.Graph.{Graph}
use cypherast.Executor.Engine.Trails.{
  Hops, Trail, sum_by, steps, children, found, search_queue, trails_from, start_at, var_expand,
  incident,
}

sum_by-append {ℓ} :
    {A : Type ℓ} (f : A → ℕ) (xs ys : List A) → sum_by f (xs ++ ys) ≡ sum_by f xs + sum_by f ys
sum_by-append f [] ys = omega arith
sum_by-append f (x ∷ xs) ys = omega (arith, sum_by-append f xs ys)

module _ (g : Graph) (hops : Hops) where
  abbrev left : Trail → ℕ
  left t = trails_from g hops (hops.max_hops - t.depth) t

  -- The trails that the entries of a queue start.
  abbrev work : List Trail → ℕ
  work = sum_by left

  work-steps :
      (t : Trail) (seen rs : List ℕ)
      → work (steps g hops t seen rs)
        ≡ sum_by (trails_from g hops (hops.max_hops - suc t.depth)) (steps g hops t seen rs)
  unfolding steps
  work-steps t seen [] = refl
  work-steps t seen (r ∷ rs) = ground (arith, work-steps t seen rs, work-steps t (r ∷ seen) rs)

  work-children :
      (t : Trail)
      → work (children g hops t)
        ≡ sum_by (trails_from g hops (hops.max_hops - suc t.depth)) (children g hops t)
  unfolding children
  work-children t = elim (Bool-cases (leb hops.max_hops t.depth)) [
    | inl e ↦ rw e
    | inr e ↦ rw e (work-steps t [] (incident g hops.direction t.node))
  ]

  no_children : (t : Trail) → hops.max_hops - t.depth ≡ 0 → children g hops t ≡ []
  unfolding children
  no_children t h = let e : leb hops.max_hops t.depth ≡ true = ground arith in rw e

  left_is :
      (t : Trail) (k : ℕ)
      → hops.max_hops - t.depth ≡ k
      → trails_from g hops k t ≡ suc (work (children g hops t))
  unfolding trails_from
  left_is t zero h = rw (no_children t h)
  left_is t (suc k) h =
      let e : hops.max_hops - suc t.depth ≡ k = omega arith in rw (work-children t, e)

  -- Taking one entry off the queue and putting its children on takes one trail away.
  work-step : (t : Trail) (q : List Trail) → work (t ∷ q) ≡ suc (work (q ++ children g hops t))
  work-step t q =
      omega
        (arith, left_is t (hops.max_hops - t.depth) refl, sum_by-append left q (children g hops t))

  search_queue_ends :
      (fuel : ℕ) (q : List Trail)
      → work q ≤ fuel
      → (rs : List (List ℕ × ℕ)) × (search_queue g hops fuel q ≡ some rs)
  unfolding search_queue
  search_queue_ends fuel [] h = ([], refl)
  search_queue_ends zero (t ∷ q) h = absurd (omega (arith, work-step t q))
  search_queue_ends (suc fuel) (t ∷ q) h =
      let (rs, e) =
        search_queue_ends fuel (q ++ children g hops t) (omega (arith, work-step t q)) in
      (found g hops t ++ rs, rw e)

minus_zero : (m : ℕ) → m - 0 ≡ m
minus_zero m = omega arith

-- The search for the trails of a variable-length pattern ends, whatever the graph: it takes as many
-- rounds as there are trails of at most `max_hops` relationships from the start.
pub var_expand_ends :
    (g : Graph) (hops : Hops) (n : ℕ) → (rs : List (List ℕ × ℕ)) × (var_expand g hops n ≡ ok rs)
unfolding var_expand
var_expand_ends g hops n =
    let (rs, e) =
      search_queue_ends g hops (trails_from g hops hops.max_hops (start_at n)) (start_at n ∷ [])
        (omega (arith, ap (λ k. trails_from g hops k (start_at n)) (minus_zero hops.max_hops))) in
    (rs, rw e)
