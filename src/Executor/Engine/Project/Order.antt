-- ===== src/Executor/Engine/Project/Order.antt =====
-- ORDER BY rearranges the rows and loses none.
use cypherast.Prelude.{
  ◌≡◌, refl, sym, ap, ◌∙◌, subst, map, Bool, true, false, List, [], ◌∷◌, ◌++◌, if◌then◌else◌,
}
use mathlib.Core.List.{reverse, Perm, perm_append_comm, reverse_perm, perm_middle}
use mathlib.Core.List.Perm
use cypherast.Prelude.Result.{Result, ok, ◌>>=◌}
use cypherast.Ast.{AstNode, AstNodes, nil, cons, ordered}
use cypherast.Executor.Value.{Value}
use cypherast.Executor.Graph.{Graph}
use cypherast.Executor.Python.{is_null, py_lt}
use cypherast.Executor.Env.{Env, Builtins}
use cypherast.Executor.Engine.Row.{Row, env_of, updated}
use cypherast.Prelude.Result.{bound-ok, ok-injective}
use cypherast.Executor.Engine.Project.{
  Texts, insert_keyed, sort_keyed, pairs_in, nulls_in, keyed_rest, sorted_by, nulls_first, keyed,
  order_paired, order_all, sort_val,
}

module _ (py : Builtins) (texts : Texts) where
  insert_keyed-Perm :
      (p : Value × (Row × Row)) (qs : List (Value × (Row × Row))) {out : List (Value × (Row × Row))}
      → insert_keyed py texts p qs ≡ ok out
      → Perm out (p ∷ qs)
  unfolding insert_keyed
  insert_keyed-Perm p [] e = subst (λ o. Perm o (p ∷ [])) (ok-injective e) (Perm.refl (p ∷ []))
  insert_keyed-Perm p (q ∷ qs) {out} e =
      let (before, l, e1) = bound-ok (py_lt py.floats q.0 p.0) _ e in
      place (λ sorted s. insert_keyed-Perm p qs s) before e1
    where
      place :
          ((sorted : List (Value × (Row × Row)))
            → insert_keyed py texts p qs ≡ ok sorted
            → Perm sorted (p ∷ qs))
          → (b : Bool)
          → (if b
              then (insert_keyed py texts p qs >>= λ sorted. ok (q ∷ sorted))
              else ok (p ∷ q ∷ qs))
            ≡ ok out
          → Perm out (p ∷ q ∷ qs)
      place below true e =
          let (sorted, s, e1) = bound-ok (insert_keyed py texts p qs) _ e in
          subst (λ o. Perm o (p ∷ q ∷ qs)) (ok-injective e1)
            (Perm.trans (Perm.cons q (below sorted s)) (Perm.swap p q qs))
      place below false e =
          subst (λ o. Perm o (p ∷ q ∷ qs)) (ok-injective e) (Perm.refl (p ∷ q ∷ qs))

  sort_keyed-Perm :
      (ps : List (Value × (Row × Row))) {out : List (Value × (Row × Row))}
      → sort_keyed py texts ps ≡ ok out
      → Perm out ps
  unfolding sort_keyed
  sort_keyed-Perm [] e = subst (λ o. Perm o []) (ok-injective e) (Perm.refl [])
  sort_keyed-Perm (p ∷ ps) e =
      let (sorted, s, e1) = bound-ok (sort_keyed py texts ps) _ e in
      Perm.trans (insert_keyed-Perm p sorted e1) (Perm.cons p (sort_keyed-Perm ps s))

  pairs_in-map : (ps : List (Value × (Row × Row))) → map (λ p. p.1) ps ≡ pairs_in py texts ps
  pairs_in-map [] = refl
  pairs_in-map (p ∷ ps) = ap (λ rest. p.1 ∷ rest) (pairs_in-map ps)

  pairs_in-Perm :
      {ps qs : List (Value × (Row × Row))}
      → Perm ps qs
      → Perm (pairs_in py texts ps) (pairs_in py texts qs)
  pairs_in-Perm {ps} {qs} h =
      subst (λ x. Perm x (pairs_in py texts qs)) (pairs_in-map ps)
        (subst (λ x. Perm (map (λ p. p.1) ps) x) (pairs_in-map qs) (Perm.map (λ p. p.1) h))

  sorted_by-Perm :
      (desc : Bool) (ps : List (Value × (Row × Row))) {out : List (Value × (Row × Row))}
      → sorted_by py texts desc ps ≡ ok out
      → Perm out ps
  sorted_by-Perm false ps e = sort_keyed-Perm ps e
  sorted_by-Perm true ps e =
      let (qs, s, e1) = bound-ok (sort_keyed py texts (reverse ps)) _ e in
      subst (λ o. Perm o ps) (ok-injective e1)
        (Perm.trans (reverse_perm qs)
          (Perm.trans (sort_keyed-Perm (reverse ps) s) (reverse_perm ps)))

  -- The pairs with NULL and the others are all the pairs.
  parted-Perm :
      (ps : List (Value × (Row × Row)))
      → Perm
          (nulls_in py texts ps ++ pairs_in py texts (keyed_rest py texts ps))
          (pairs_in py texts ps)
  parted-Perm [] = Perm.refl []
  parted-Perm (p ∷ ps) = part (parted-Perm ps) (is_null p.0)
    where
      part :
          Perm
            (nulls_in py texts ps ++ pairs_in py texts (keyed_rest py texts ps))
            (pairs_in py texts ps)
          → (b : Bool)
          → Perm
              ((if b then p.1 ∷ nulls_in py texts ps else nulls_in py texts ps)
                ++ pairs_in py texts (
                    if b
                    then keyed_rest py texts ps
                    else (sort_val p.0, p.1) ∷ keyed_rest py texts ps))
              (p.1 ∷ pairs_in py texts ps)
      part rest true = Perm.cons p.1 rest
      part rest false =
          Perm.trans
            (perm_middle (nulls_in py texts ps) (pairs_in py texts (keyed_rest py texts ps)))
            (Perm.cons p.1 rest)

  module _ (ev : AstNode → Env → Result Value) (params : Row) (g : Graph) where
    keyed-pairs :
        (e : AstNode) (ps : List (Row × Row)) {ks : List (Value × (Row × Row))}
        → keyed py texts ev params g e ps ≡ ok ks
        → pairs_in py texts ks ≡ ps
    keyed-pairs e [] h = ap (pairs_in py texts) (sym (ok-injective h))
    keyed-pairs e ((row, new) ∷ ps) h =
        let (v, p, h1) = bound-ok (ev e (env_of params g (updated row new))) _ h in
        let (rest, q, h2) = bound-ok (keyed py texts ev params g e ps) _ h1 in
        sym (ap (pairs_in py texts) (ok-injective h2))
        ∙ ap (λ t. (row, new) ∷ t) (keyed-pairs e ps q)

    order_paired-Perm :
        (o : AstNode) (ps : List (Row × Row)) {out : List (Row × Row)}
        → order_paired py texts ev params g o ps ≡ ok out
        → Perm out ps
    unfolding order_paired
    order_paired-Perm (ordered e desc nulls) ps h =
        let (ks, k, h1) = bound-ok (keyed py texts ev params g e ps) _ h in
        let (rest, s, h2) = bound-ok (sorted_by py texts desc (keyed_rest py texts ks)) _ h1 in
        let same = pairs_in-Perm (sorted_by-Perm desc (keyed_rest py texts ks) s) in
        let first : Perm (nulls_in py texts ks ++ pairs_in py texts rest) ps =
          subst (λ x. Perm (nulls_in py texts ks ++ pairs_in py texts rest) x) (keyed-pairs e ps k)
            (Perm.trans (Perm.append_left (nulls_in py texts ks) same) (parted-Perm ks)) in
        subst (λ o. Perm o ps) (ok-injective h2)
          (either (nulls_first py texts nulls desc) (nulls_in py texts ks) (pairs_in py texts rest)
            first)
      where
        either :
            (b : Bool) (xs ys : List (Row × Row))
            → Perm (xs ++ ys) ps
            → Perm (if b then xs ++ ys else ys ++ xs) ps
        either true xs ys p = p
        either false xs ys p = Perm.trans (perm_append_comm ys xs) p
    order_paired-Perm _ ps h = cc

    -- ORDER BY that does not raise gives exactly the rows it was given, each as often, in some order.
    pub order_all-Perm :
        (os : AstNodes) (ps : List (Row × Row)) {out : List (Row × Row)}
        → order_all py texts ev params g os ps ≡ ok out
        → Perm out ps
    unfolding order_all
    order_all-Perm nil ps h = subst (λ o. Perm o ps) (ok-injective h) (Perm.refl ps)
    order_all-Perm (cons o os) ps h =
        let (qs, q, h1) = bound-ok (order_all py texts ev params g os ps) _ h in
        Perm.trans (order_paired-Perm o qs h1) (order_all-Perm os ps q)
