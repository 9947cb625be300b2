-- ===== src/Executor/Engine/Trails/Exact.antt =====
-- The search for trails finds exactly the trails that the pattern allows.
use Prim.Native.Nat.{ℕ, zero, suc, ◌≤◌}
use cypherast.Prelude.{
  ◌≡◌, refl, ap, ◌∙◌, ◌↔◌, true, ◌&&◌, ◌||◌, List, [], ◌∷◌, ◌++◌, Option, none, some, arith,
  Bool-cases, inl, inr, leb, ◌==◌, length, length-append, In, here, there, In-append, In-of_append,
}
use cypherast.Prelude.Dict.{nat_eq}
use cypherast.Prelude.Result.{ok}
use cypherast.Executor.Graph.{Graph}
use cypherast.Executor.Engine.Trails.{
  Hops, Trail, extended, children, found, search_queue, start_at, var_expand, more, non_empty,
  trails_from, returned,
}
use cypherast.Executor.Engine.Trails.Steps.{
  IsTrail, stay, go, IsEntry, children-IsEntry, children-In,
}

one_of {ℓ} : {A : Type ℓ} {x y : A} → In x (y ∷ []) → x ≡ y
one_of here = refl
one_of (there i) = elim i [ ]

more-some :
    (xs : List (List ℕ × ℕ)) (o : Option (List (List ℕ × ℕ))) (out : List (List ℕ × ℕ))
    → more xs o ≡ some out
    → (ys : List (List ℕ × ℕ)) × (o ≡ some ys) × (out ≡ xs ++ ys)
more-some xs none out e = cc
more-some xs (some ys) out e = (ys, refl, cc)

counts :
    (xs : List ℕ) (d low : ℕ)
    → length xs ≡ d
    → low ≤ d
    → (((d == 0) && (low == 0)) || non_empty xs) ≡ true
counts [] d low e h = ground arith
counts (x ∷ xs) d low e h = ground arith

module _ (g : Graph) (hops : Hops) (n : ℕ) where
  -- A trail that the pattern's bounds allow.
  abbrev pub Allowed : List ℕ × ℕ → Type 0
  Allowed (rs, m) =
      IsTrail g hops n rs m × (hops.min_hops ≤ length rs) × (length rs ≤ hops.max_hops)

  found-Allowed :
      (t : Trail) → IsEntry g hops n t → (x : List ℕ × ℕ) → In x (found g hops t) → Allowed x
  unfolding found
  found-Allowed t v x i = elim (Bool-cases (leb hops.min_hops t.depth)) [
    | inr e ↦ let j : In x [] = rw e at i in elim j [ ]
    | inl e ↦
        let some_hops = counts t.rel_path t.depth hops.min_hops v.hops_made (ground arith) in
        let same : x ≡ (t.rel_path, t.node) = one_of (rw (e, some_hops) at i) in
        rw same (v.trail, ground (arith, v.hops_made), ground (arith, v.hops_made, v.bounded))
  ]

  search_queue-Allowed :
      (fuel : ℕ) (q : List Trail) (out : List (List ℕ × ℕ))
      → search_queue g hops fuel q ≡ some out
      → ((t : Trail) → In t q → IsEntry g hops n t)
      → (x : List ℕ × ℕ) → In x out
      → Allowed x
  unfolding search_queue
  search_queue-Allowed fuel [] out e v x i =
      let none_out : [] ≡ out = cc in let j : In x [] = rw (← none_out) at i in elim j [ ]
  search_queue-Allowed zero (t ∷ q) out e v x i = cc
  search_queue-Allowed (suc fuel) (t ∷ q) out e v x i =
      let (ys, run, same) =
        more-some (found g hops t) (search_queue g hops fuel (q ++ children g hops t)) out e in
      elim (In-of_append (found g hops t) (rw same at i)) [
        | inl j ↦ found-Allowed t (v t here) x j
        | inr j ↦
            search_queue-Allowed fuel (q ++ children g hops t) ys run
              (λ c k. elim (In-of_append q k) [
                | inl l ↦ v c (there l)
                | inr l ↦ children-IsEntry g hops n t c (v t here) l
              ])
              x j
      ]

  start-IsEntry : (t : Trail) → In t (start_at n ∷ []) → IsEntry g hops n t
  start-IsEntry t i =
      rw (one_of i)
        (record { trail = stay; seen = λ r. refl; hops_made = refl; bounded = omega arith })

  -- The entry has been, or will be, taken off the queue, and the results are kept.
  record Reached (out : List (List ℕ × ℕ)) (t : Trail) : Type 0 where
    fuel : ℕ
    queue : List Trail
    rest : List (List ℕ × ℕ)
    run : search_queue g hops fuel queue ≡ some rest
    member : In t queue
    part : (x : List ℕ × ℕ) → In x rest → In x out

  abbrev Done : List (List ℕ × ℕ) → Trail → Type 0
  Done out t =
      ((x : List ℕ × ℕ) → In x (found g hops t) → In x out)
      × ((c : Trail) → In c (children g hops t) → Reached out c)

  first_or_later :
      {out : List (List ℕ × ℕ)} {t u : Trail} {q : List Trail}
      → Done out u
      → (In t q → Done out t)
      → In t (u ∷ q)
      → Done out t
  first_or_later first later here = first
  first_or_later first later (there i) = later i

  taken_off :
      (out : List (List ℕ × ℕ)) (fuel : ℕ) (q : List Trail) (rest : List (List ℕ × ℕ))
      → search_queue g hops fuel q ≡ some rest
      → {t : Trail} → In t q
      → ((x : List ℕ × ℕ) → In x rest → In x out)
      → ((x : List ℕ × ℕ) → In x (found g hops t) → In x out)
        × ((c : Trail) → In c (children g hops t) → Reached out c)
  unfolding search_queue
  taken_off out fuel [] rest e i part = elim i [ ]
  taken_off out zero (u ∷ q) rest e i part = cc
  taken_off out (suc fuel) (u ∷ q) rest e i part =
      let (ys, run, same) =
        more-some (found g hops u) (search_queue g hops fuel (q ++ children g hops u)) rest e in
      let later =
        (λ (x : List ℕ × ℕ) (j : In x ys). part x (rw same (In-append (found g hops u) (inr j)))) in
      first_or_later
        (
          λ x j. part x (rw same (In-append (found g hops u) (inl j))),
          λ c k. record {
            fuel = fuel;
            queue = q ++ children g hops u;
            rest = ys;
            run = run;
            member = In-append q (inr k);
            part = later;
          },
        )
        (λ j. taken_off out fuel (q ++ children g hops u) ys run (In-append q (inl j)) later) i

  Reached-Done : {out : List (List ℕ × ℕ)} {t : Trail} → Reached out t → Done out t
  Reached-Done {out} r = taken_off out r.fuel r.queue r.rest r.run r.member r.part

  found-In :
      (t : Trail)
      → IsEntry g hops n t
      → hops.min_hops ≤ t.depth
      → In (t.rel_path, t.node) (found g hops t)
  unfolding found
  found-In t v h =
      let e : leb hops.min_hops t.depth ≡ true = ground arith in
      rw (e, counts t.rel_path t.depth hops.min_hops v.hops_made h) here

  -- Every trail within the bounds is that of an entry.
  IsEntry-of :
      {out : List (List ℕ × ℕ)} {rs : List ℕ} {m : ℕ}
      → Reached out (start_at n)
      → IsTrail g hops n rs m
      → length rs ≤ hops.max_hops
      → (t : Trail) × Reached out t × IsEntry g hops n t × (t.rel_path ≡ rs) × (t.node ≡ m)
  IsEntry-of start stay h = (start_at n, start, start-IsEntry (start_at n) here, refl, refl)
  IsEntry-of start (go {rs} {m} r tr new k f p) h =
      let (t, reached, v, same, at) =
        IsEntry-of start tr (omega (arith, length-append rs (r ∷ []))) in
      let i =
        children-In g hops n t r
          (omega (arith, v.hops_made, length-append rs (r ∷ []), ap length same))
          (v.seen r ∙ rw same new) (rw at k) f (rw at p) in
      (
        extended g hops t r,
        (Reached-Done reached).1 (extended g hops t r) i,
        children-IsEntry g hops n t (extended g hops t r) v i,
        rw same,
        rw at,
      )

  returned-ok :
      (o : Option (List (List ℕ × ℕ))) (out : List (List ℕ × ℕ))
      → returned o ≡ ok out
      → o ≡ some out
  returned-ok none out e = cc
  returned-ok (some rs) out e = cc

-- The search returns a list of relationships with an end node exactly if they are a trail from the
-- start to that node: each relationship is incident in the pattern's direction to the node reached
-- before it, is of an allowed type, leads to a present node and is not repeated, and their number
-- is within the bounds.
pub var_expand-exact :
    (g : Graph) (hops : Hops) (n : ℕ) (out : List (List ℕ × ℕ))
    → var_expand g hops n ≡ ok out
    → (rs : List ℕ) (m : ℕ) → In (rs, m) out ↔ Allowed g hops n (rs, m)
unfolding var_expand
var_expand-exact g hops n out e rs m =
    let fuel = trails_from g hops hops.max_hops (start_at n) in
    let run = returned-ok g hops n (search_queue g hops fuel (start_at n ∷ [])) out e in
    (
      λ i.
          search_queue-Allowed g hops n fuel (start_at n ∷ []) out run (start-IsEntry g hops n)
            (rs, m) i,
      λ a.
          let start : Reached g hops n out (start_at n) = record {
            fuel = fuel;
            queue = start_at n ∷ [];
            rest = out;
            run = run;
            member = here;
            part = λ x i. i;
          } in
          let (t, reached, v, same, at) = IsEntry-of g hops n start a.0 a.2 in
          let i =
            (Reached-Done g hops n reached).0 (t.rel_path, t.node)
              (found-In g hops n t v (omega (arith, v.hops_made, ap length same, a.1))) in
          rw (same, at) at i,
    )
