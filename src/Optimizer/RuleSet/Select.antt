-- ===== src/Optimizer/RuleSet/Select.antt =====
-- What a chosen set of rules holds, and what it does to a tree.
use cypherast.Prelude.{
  String, ◌≡◌, refl, sym, true, false, List, [], ◌∷◌, ◌++◌, none, some, arith, Bool-cases, inl, inr,
  if◌then◌else◌,
}
use cypherast.Prelude.Text.{member}
use cypherast.Prelude.Result.{Result, ok, err, ◌>>=◌, map_result}
use package.text.Mathlib.Text.{◌==◌}
use package.text.Mathlib.TextEquality.{eq_iff}
use cypherast.Ast.{AstNode}
use cypherast.Optimizer.RuleSet.{
  Rule, RuleSet, unknown_rule, add, names, names_of, first_named, or_unknown, get, by_name, known,
  only, without, disable, run, apply, call,
}

>>=-assoc :
    (f g h : AstNode → Result AstNode) (m : Result AstNode)
    → ((t : AstNode) → f t ≡ (g t >>= h))
    → (m >>= f) ≡ (m >>= g >>= h)
>>=-assoc f g h (ok t) same = same t
>>=-assoc f g h (err e) same = refl

module _ {ℓ} {K : Type ℓ} where
  run-append :
      (rs ss : List (Rule K)) (kw : List (String × K)) (n : AstNode)
      → run (rs ++ ss) kw n ≡ (run rs kw n >>= run ss kw)
  run-append [] ss kw n = refl
  run-append (r ∷ rs) ss kw n =
      >>=-assoc _ (run rs kw) (run ss kw) (call r n kw) (λ t. run-append rs ss kw t)

  first_named-without :
      (drop : List String) (n : String) (rs : List (Rule K))
      → first_named n (without drop rs) ≡ (if member n drop then none else first_named n rs)
  first_named-without drop n [] = ground arith
  first_named-without drop n (r ∷ rs) = elim (Bool-cases (r.name == n)) [
    | inl t ↦
        let e = (eq_iff r.name n).0 t in
        elim (Bool-cases (member n drop)) [
          | inl d ↦ rw (e, d) (ground (arith, first_named-without drop n rs))
          | inr d ↦ rw (e, d) (ground (arith, e))
        ]
    | inr f ↦ ground (arith, first_named-without drop n rs)
  ]

  by_name-unknown :
      (n : String) (rs : List (Rule K)) → member n (names_of rs) ≡ false → by_name n rs ≡ none
  unfolding member
  by_name-unknown n [] h = refl
  by_name-unknown n (r ∷ rs) h =
      ground (arith, by_name-unknown n rs, eq_iff n r.name, eq_iff r.name n)

  by_name-member :
      (n : String) (rs : List (Rule K))
      → member n (names_of rs) ≡ true
      → (r : Rule K) × (by_name n rs ≡ some r) × (r.name ≡ n)
  unfolding member
  by_name-member n [] h = cc
  by_name-member n (r ∷ rs) h = elim (Bool-cases (member n (names_of rs))) [
    | inl t ↦ let (s, e, p) = by_name-member n rs t in (s, rw e, p)
    | inr f ↦
        let e : n ≡ r.name = ground (arith, eq_iff n r.name) in
        (r, rw (by_name-unknown n rs f) (ground (arith, eq_iff r.name n)), sym e)
  ]

  picked :
      (rs : List (Rule K)) (wanted : List String)
      → known wanted rs ≡ true
      → (kept : List (Rule K)) × (map_result (λ n. or_unknown (by_name n rs)) wanted ≡ ok kept)
        × (names_of kept ≡ wanted)
  picked rs [] h = ([], refl, refl)
  picked rs (n ∷ ns) h =
      let (r, e, p) = by_name-member n rs (ground arith) in
      let (kept, q, same) = picked rs ns (ground arith) in (r ∷ kept, rw (e, q), cc)

  -- Adding two sets runs the first, and then the second on its result.
  pub apply-add :
      (rs ss : RuleSet K) (schema : K) (kwargs : List (String × K)) (tree : AstNode)
      → apply (add rs ss) schema kwargs tree
        ≡ (apply rs schema kwargs tree >>= apply ss schema kwargs)
  unfolding apply add
  apply-add rs ss schema kwargs tree =
      run-append rs.rules ss.rules (("schema", schema) ∷ kwargs) tree

  -- Disabling raises KeyError if a name is unknown. Otherwise a disabled name is unknown
  -- from then on, and every other name gets the rule that it got before.
  pub get-disable :
      (drop : List String) (rs : RuleSet K)
      → (known drop rs.rules ≡ false → disable drop rs ≡ err unknown_rule)
        × (known drop rs.rules ≡ true
            → (left : RuleSet K) × (disable drop rs ≡ ok left)
              × ((n : String)
                  → get n left ≡ (if member n drop then err unknown_rule else get n rs)))
  unfolding disable get
  get-disable drop rs = (
    λ h. rw h,
    λ h. (
      record { rules = without drop rs.rules },
      rw h,
      λ n. rw (first_named-without drop n rs.rules) (ground arith),
    ),
  )

  -- Keeping only some names raises KeyError if one of them is unknown. Otherwise the set that is
  -- left has exactly those names, in the order asked for.
  pub names-only :
      (wanted : List String) (rs : RuleSet K)
      → (known wanted rs.rules ≡ false → only wanted rs ≡ err unknown_rule)
        × (known wanted rs.rules ≡ true
            → (kept : RuleSet K) × (only wanted rs ≡ ok kept) × (names kept ≡ wanted))
  unfolding only names
  names-only wanted rs = (
    λ h. rw h,
    λ h.
        let (kept, e, same) = picked rs.rules wanted h in
        (record { rules = kept }, rw (h, e), same),
  )
