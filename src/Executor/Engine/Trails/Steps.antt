-- ===== src/Executor/Engine/Trails/Steps.antt =====
-- The trails that a pattern allows, and the entries that one round puts into the queue.
use Prim.Native.Nat.{ℕ, suc, ◌≤◌}
use cypherast.Prelude.{
  ◌≡◌, refl, sym, ◌==◌, ◌∙◌, true, false, ◌||◌, List, [], ◌∷◌, ◌++◌, arith, Bool-cases, inl, inr,
  leb, length, length-append, In, here, there,
}
use cypherast.Prelude.Dict.{lookup, has, has-append, nat_eq}
use cypherast.Executor.Graph.{Graph}
use cypherast.Executor.Engine.Trails.{
  Hops, Trail, incident, type_allowed, other_end, extended, steps, children,
}

-- A trail from `n`: each relationship is incident, in the pattern's direction, to the node reached so
-- far, is of an allowed type, leads to a present node, and is not yet on the trail.
pub data IsTrail (g : Graph) (hops : Hops) (n : ℕ) : List ℕ → ℕ → Type 0 where
  stay : IsTrail g hops n [] n
  go :
      {rs : List ℕ} {m : ℕ} (r : ℕ)
      → IsTrail g hops n rs m
      → has r rs ≡ false
      → has r (incident g hops.direction m) ≡ true
      → type_allowed hops.types (lookup r g.rel_objects) ≡ true
      → has (other_end m (lookup r g.rel_objects)) g.nodes ≡ true
      → IsTrail g hops n (rs ++ (r ∷ [])) (other_end m (lookup r g.rel_objects))

module _ (g : Graph) (hops : Hops) (n : ℕ) where
  -- What holds of every entry of the queue.
  pub record IsEntry (t : Trail) : Type 0 where
    pub trail : IsTrail g hops n t.rel_path t.node
    pub seen : (r : ℕ) → has r t.visited ≡ has r t.rel_path
    pub hops_made : length t.rel_path ≡ t.depth
    pub bounded : t.depth ≤ hops.max_hops

  -- A relationship that the loop takes, and what it was taken on.
  pub record Taken (t : Trail) (rs : List ℕ) (c : Trail) : Type 0 where
    rel : ℕ
    is : c ≡ extended g hops t rel
    new : has rel t.visited ≡ false
    offered : has rel rs ≡ true
    allowed : type_allowed hops.types (lookup rel g.rel_objects) ≡ true
    live : has (other_end t.node (lookup rel g.rel_objects)) g.nodes ≡ true

  Taken-later : {t c : Trail} (r : ℕ) {rs : List ℕ} → Taken t rs c → Taken t (r ∷ rs) c
  unfolding has
  Taken-later r k = record {
    rel = k.rel;
    is = k.is;
    new = k.new;
    offered = ground (arith, k.offered);
    allowed = k.allowed;
    live = k.live;
  }

  first_or :
      {t c d : Trail} {rs : List ℕ} {ds : List Trail}
      → Taken t rs d
      → (In c ds → Taken t rs c)
      → In c (d ∷ ds)
      → Taken t rs c
  first_or k rest here = k
  first_or k rest (there i) = rest i

  Taken-first :
      {t : Trail} (taken : List ℕ) {rs : List ℕ} {r : ℕ}
      → (has r t.visited || has r taken) ≡ false
      → type_allowed hops.types (lookup r g.rel_objects) ≡ true
      → has (other_end t.node (lookup r g.rel_objects)) g.nodes ≡ true
      → Taken t (r ∷ rs) (extended g hops t r)
  unfolding has
  Taken-first taken {r = r} e f p = record {
    rel = r;
    is = refl;
    new = ground arith;
    offered = ground arith;
    allowed = f;
    live = p;
  }

  steps-Taken :
      (t : Trail) (taken rs : List ℕ) (c : Trail) → In c (steps g hops t taken rs) → Taken t rs c
  unfolding steps
  steps-Taken t taken [] c i = elim i [ ]
  steps-Taken t taken (r ∷ rs) c i = elim (Bool-cases (has r t.visited || has r taken)) [
    | inl e ↦ Taken-later r (steps-Taken t taken rs c (rw e at i))
    | inr e ↦ elim (Bool-cases (type_allowed hops.types (lookup r g.rel_objects))) [
      | inr f ↦ Taken-later r (steps-Taken t taken rs c (rw (e, f) at i))
      | inl f ↦ elim (Bool-cases (has (other_end t.node (lookup r g.rel_objects)) g.nodes)) [
        | inr p ↦ Taken-later r (steps-Taken t (r ∷ taken) rs c (rw (e, f, p) at i))
        | inl p ↦
            first_or (Taken-first taken e f p)
              (λ j. Taken-later r (steps-Taken t (r ∷ taken) rs c j)) (rw (e, f, p) at i)
      ]
    ]
  ]

  Taken-IsEntry :
      {t c : Trail}
      → IsEntry t
      → suc t.depth ≤ hops.max_hops
      → Taken t (incident g hops.direction t.node) c
      → IsEntry c
  unfolding has
  Taken-IsEntry {t} v b k = rw k.is (record {
    trail = go k.rel v.trail (sym (v.seen k.rel) ∙ k.new) k.offered k.allowed k.live;
    seen = λ r. ground (arith, v.seen r, has-append r t.rel_path (k.rel ∷ []));
    hops_made = omega (arith, length-append t.rel_path (k.rel ∷ []), v.hops_made);
    bounded = b;
  })

  pub children-IsEntry : (t c : Trail) → IsEntry t → In c (children g hops t) → IsEntry c
  unfolding children
  children-IsEntry t c v i = elim (Bool-cases (leb hops.max_hops t.depth)) [
    | inl e ↦ let j : In c [] = rw e at i in elim j [ ]
    | inr e ↦
        Taken-IsEntry v (ground arith)
          (steps-Taken t [] (incident g hops.direction t.node) c (rw e at i))
  ]

  steps-In :
      (t : Trail) (taken rs : List ℕ) (r : ℕ)
      → has r t.visited ≡ false
      → has r taken ≡ false
      → has r rs ≡ true
      → type_allowed hops.types (lookup r g.rel_objects) ≡ true
      → has (other_end t.node (lookup r g.rel_objects)) g.nodes ≡ true
      → In (extended g hops t r) (steps g hops t taken rs)
  unfolding steps has
  steps-In t taken [] r new free k f p = absurd (ground arith)
  steps-In t taken (q ∷ rs) r new free k f p = elim (Bool-cases (q == r)) [
    | inl same ↦ let e : q ≡ r = ground arith in rw (e, new, free, f, p) here
    | inr other ↦
        let rest = steps-In t taken rs r new free (ground arith) f p in
        let more_taken = steps-In t (q ∷ taken) rs r new (ground arith) (ground arith) f p in
        elim (Bool-cases (has q t.visited || has q taken)) [
          | inl e ↦ rw e rest
          | inr e ↦ elim (Bool-cases (type_allowed hops.types (lookup q g.rel_objects))) [
            | inr a ↦ rw (e, a) rest
            | inl a ↦ elim (Bool-cases (has (other_end t.node (lookup q g.rel_objects)) g.nodes)) [
              | inl b ↦ rw (e, a, b) (there more_taken)
              | inr b ↦ rw (e, a, b) more_taken
            ]
          ]
        ]
  ]

  pub children-In :
      (t : Trail) (r : ℕ)
      → suc t.depth ≤ hops.max_hops
      → has r t.visited ≡ false
      → has r (incident g hops.direction t.node) ≡ true
      → type_allowed hops.types (lookup r g.rel_objects) ≡ true
      → has (other_end t.node (lookup r g.rel_objects)) g.nodes ≡ true
      → In (extended g hops t r) (children g hops t)
  unfolding children
  children-In t r b new k f p =
      let e : leb hops.max_hops t.depth ≡ false = ground arith in
      rw e (steps-In t [] (incident g hops.direction t.node) r new refl k f p)
