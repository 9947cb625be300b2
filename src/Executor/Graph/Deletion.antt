-- ===== src/Executor/Graph/Deletion.antt =====
-- Removing relationships and nodes.
use Prim.Native.Nat.{ℕ}
use cypherast.Prelude.{
  ◌≡◌, refl, ◌∙◌, sym, subst, Bool, true, false, not, ◌&&◌, ◌||◌, List, [], ◌∷◌, ◌++◌, Option, some,
  ◌==◌, arith, Bool-cases, inl, inr, Option-cases,
}
use cypherast.Prelude.Dict.{lookup, has, string_eq, nat_eq, has-append, has-discard}
use cypherast.Prelude.Result.{ok, err, value_error}
use cypherast.Executor.Graph.{
  Graph, RelObject, ids_at, labels_of, delete_rel, delete_rels, delete_node, drop_node, drop_rel,
  non_empty,
}
use cypherast.Executor.Graph.Indexes.{has-ids_at-modify, has-unindex_labels}
use cypherast.Executor.Graph.Invariant.{IsConsistent, starts_at, stops_at}

module _ (rid : ℕ) {g : Graph} (v : IsConsistent g) (rel : RelObject)
    (is : lookup rid g.rel_objects ≡ some rel) where
  drop_rel-IsConsistent : IsConsistent (drop_rel rid (some rel) g)
  drop_rel-IsConsistent = record {
    node_fresh = v.node_fresh;
    rel_fresh = λ r h. ground (arith, has-discard rid r g.relationships, v.rel_fresh r);
    label_fresh = v.label_fresh;
    node_known = v.node_known;
    rel_known = λ r h. ground (arith, has-discard rid r g.relationships, v.rel_known r);
    out_exact = λ n r. ground (
      arith,
      has-ids_at-modify n r rel.start rid g.out_index,
      has-discard rid r g.relationships,
      v.out_exact n r,
    );
    in_exact = λ n r. ground (
      arith,
      has-ids_at-modify n r rel.stop rid g.in_index,
      has-discard rid r g.relationships,
      v.in_exact n r,
    );
    label_exact = v.label_exact;
    start_present =
        λ r n h k. ground (arith, has-discard rid r g.relationships, v.start_present r n);
    stop_present = λ r n h k. ground (arith, has-discard rid r g.relationships, v.stop_present r n);
  }

module _ (rid : ℕ) {g : Graph} (v : IsConsistent g) where
  -- Deleting a relationship leaves a consistent graph consistent.
  pub delete_rel-IsConsistent : IsConsistent (delete_rel rid g)
  unfolding delete_rel
  delete_rel-IsConsistent = elim (Bool-cases (has rid g.relationships)) [
    | inl here ↦ elim (Option-cases (lookup rid g.rel_objects)) [
      | inl lost ↦ absurd (ground (arith, v.rel_known rid))
      | inr (rel, is) ↦ rw (here, is) (drop_rel-IsConsistent rid v rel is)
    ]
    | inr gone ↦ rw gone v
  ]

  delete_rel-nodes : (delete_rel rid g).nodes ≡ g.nodes
  unfolding delete_rel
  delete_rel-nodes = ground arith

  delete_rel-rel_objects : (delete_rel rid g).rel_objects ≡ g.rel_objects
  unfolding delete_rel
  delete_rel-rel_objects = ground arith

  has-delete_rel :
      (r : ℕ) → has r (delete_rel rid g).relationships ≡ (not (rid == r) && has r g.relationships)
  unfolding delete_rel
  has-delete_rel r = ground (arith, has-discard rid r g.relationships, v.rel_known rid)

delete_rels-IsConsistent :
    (rids : List ℕ) {g : Graph} → IsConsistent g → IsConsistent (delete_rels rids g)
unfolding delete_rels
delete_rels-IsConsistent [] v = v
delete_rels-IsConsistent (r ∷ rs) v = delete_rels-IsConsistent rs (delete_rel-IsConsistent r v)

delete_rels-nodes :
    (rids : List ℕ) {g : Graph} → IsConsistent g → (delete_rels rids g).nodes ≡ g.nodes
unfolding delete_rels
delete_rels-nodes [] v = refl
delete_rels-nodes (r ∷ rs) v =
    delete_rels-nodes rs (delete_rel-IsConsistent r v) ∙ delete_rel-nodes r v

has-delete_rels :
    (rids : List ℕ) {g : Graph} (r : ℕ)
    → IsConsistent g
    → has r (delete_rels rids g).relationships ≡ (not (has r rids) && has r g.relationships)
unfolding delete_rels has
has-delete_rels [] r v = refl
has-delete_rels (i ∷ rs) {g} r v =
    has-delete_rels rs r (delete_rel-IsConsistent i v) ∙ ground (arith, has-delete_rel i v r)

delete_rels-rel_objects :
    (rids : List ℕ) {g : Graph} → IsConsistent g → (delete_rels rids g).rel_objects ≡ g.rel_objects
unfolding delete_rels
delete_rels-rel_objects [] v = refl
delete_rels-rel_objects (r ∷ rs) v =
    delete_rels-rel_objects rs (delete_rel-IsConsistent r v) ∙ delete_rel-rel_objects r v

-- The relationship starts or ends at the node.
abbrev pub touches : ℕ → Option RelObject → Bool
touches n o = starts_at n o || stops_at n o

module _ (nid : ℕ) {g : Graph} (v : IsConsistent g)
    (free : (r : ℕ)
      → has r g.relationships ≡ true
      → touches nid (lookup r g.rel_objects) ≡ false) where
  drop_node-IsConsistent : IsConsistent (drop_node nid g)
  unfolding drop_node
  drop_node-IsConsistent = record {
    node_fresh = λ n h. ground (arith, has-discard nid n g.nodes, v.node_fresh n);
    rel_fresh = v.rel_fresh;
    label_fresh = λ l n h. ground (
      arith,
      has-unindex_labels nid n l (labels_of (lookup nid g.node_objects)) g.by_label,
      v.label_fresh l n,
    );
    node_known = λ n h. ground (arith, has-discard nid n g.nodes, v.node_known n);
    rel_known = v.rel_known;
    out_exact = v.out_exact;
    in_exact = v.in_exact;
    label_exact = λ l n h. ground (
      arith,
      has-discard nid n g.nodes,
      has-unindex_labels nid n l (labels_of (lookup nid g.node_objects)) g.by_label,
      v.label_exact l n,
    );
    start_present =
        λ r n h k. ground (arith, has-discard nid n g.nodes, v.start_present r n, free r h);
    stop_present =
        λ r n h k. ground (arith, has-discard nid n g.nodes, v.stop_present r n, free r h);
  }

module _ (nid : ℕ) {g : Graph} (v : IsConsistent g) where
  -- The ids that a detaching deletion removes are those of the relationships at the node.
  abbrev incident : List ℕ
  incident = ids_at nid g.out_index ++ ids_at nid g.in_index

  has-incident :
      (r : ℕ) → has r incident ≡ (has r g.relationships && touches nid (lookup r g.rel_objects))
  has-incident r = ground (
    arith,
    has-append r (ids_at nid g.out_index) (ids_at nid g.in_index),
    v.out_exact nid r,
    v.in_exact nid r,
  )

  detached-free :
      (r : ℕ)
      → has r (delete_rels incident g).relationships ≡ true
      → touches nid (lookup r (delete_rels incident g).rel_objects) ≡ false
  detached-free r h =
      rw (delete_rels-rel_objects incident v)
        (ground (arith, has-delete_rels incident r v, has-incident r))

  bare-free :
      non_empty (ids_at nid g.out_index) ≡ false
      → non_empty (ids_at nid g.in_index) ≡ false
      → (r : ℕ) → has r g.relationships ≡ true
      → touches nid (lookup r g.rel_objects) ≡ false
  unfolding has
  bare-free p q r h = ground (arith, v.out_exact nid r, v.in_exact nid r)

none_listed : (l : List ℕ) → ((r : ℕ) → has r l ≡ false) → non_empty l ≡ false
none_listed [] h = refl
none_listed (x ∷ xs) h = unfold has in ground (arith, h x)

some_listed : (r : ℕ) (l : List ℕ) → has r l ≡ true → non_empty l ≡ true
unfolding has
some_listed r [] h = cc
some_listed r (x ∷ xs) h = refl

-- What a deletion leaves.
pub record Deleted (nid : ℕ) (g h : Graph) : Type 0 where
  pub consistent : IsConsistent h
  pub nodes_left : (n : ℕ) → has n h.nodes ≡ (not (nid == n) && has n g.nodes)
  pub rels_left :
      (r : ℕ)
      → has r h.relationships
        ≡ (has r g.relationships && not (touches nid (lookup r g.rel_objects)))

module _ (nid : ℕ) {g : Graph} (v : IsConsistent g) (here : has nid g.nodes ≡ true) where
  -- A detaching deletion of a node that is present succeeds.
  delete_node-detach : (h : Graph) × (delete_node nid true g ≡ ok h) × Deleted nid g h
  unfolding delete_node
  delete_node-detach =
      let w = delete_rels-IsConsistent (incident nid v) v in
      (
        drop_node nid (delete_rels (incident nid v) g),
        rw here,
        record {
          consistent = drop_node-IsConsistent nid w (detached-free nid v);
          nodes_left = λ n.
              unfold drop_node in
              ground (
                arith,
                has-discard nid n (delete_rels (incident nid v) g).nodes,
                delete_rels-nodes (incident nid v) v,
              );
          rels_left = λ r.
              unfold drop_node in
              ground (arith, has-delete_rels (incident nid v) r v, has-incident nid v r);
        },
      )

  -- A plain deletion succeeds exactly where no relationship starts or ends at the node.
  delete_node-plain :
      ((r : ℕ) → has r g.relationships ≡ true → touches nid (lookup r g.rel_objects) ≡ false)
      → (h : Graph) × (delete_node nid false g ≡ ok h) × Deleted nid g h
  unfolding delete_node
  delete_node-plain free = (
    drop_node nid g,
    rw (
      here,
      none_listed (ids_at nid g.out_index) (λ r. ground (arith, v.out_exact nid r, free r)),
      none_listed (ids_at nid g.in_index) (λ r. ground (arith, v.in_exact nid r, free r)),
    ),
    record {
      consistent = drop_node-IsConsistent nid v free;
      nodes_left = λ n. unfold drop_node in ground (arith, has-discard nid n g.nodes);
      rels_left = λ r. unfold drop_node in ground (arith, free r);
    },
  )

  delete_node-refused :
      (r : ℕ)
      → has r g.relationships ≡ true
      → touches nid (lookup r g.rel_objects) ≡ true
      → delete_node nid false g ≡ err value_error
  unfolding delete_node
  delete_node-refused r hr t = ground (
    arith,
    some_listed r (ids_at nid g.out_index),
    some_listed r (ids_at nid g.in_index),
    v.out_exact nid r,
    v.in_exact nid r,
  )

ok-injective {ℓ} : {A : Type ℓ} {a b : A} → ok a ≡ ok b → a ≡ b
ok-injective p = cc

module _ (nid : ℕ) {g h : Graph} (v : IsConsistent g) where
  present-IsConsistent :
      (detach : Bool) → has nid g.nodes ≡ true → delete_node nid detach g ≡ ok h → IsConsistent h
  unfolding delete_node
  present-IsConsistent true here e =
      let (h', p, d) = delete_node-detach nid v here in
      subst IsConsistent (ok-injective (sym p ∙ e)) d.consistent
  present-IsConsistent false here e = elim (Bool-cases (non_empty (ids_at nid g.out_index))) [
    | inl busy ↦ ground arith
    | inr p ↦ elim (Bool-cases (non_empty (ids_at nid g.in_index))) [
      | inl busy ↦ ground arith
      | inr q ↦
          let (h', r, d) = delete_node-plain nid v here (bare-free nid v p q) in
          subst IsConsistent (ok-injective (sym r ∙ e)) d.consistent
    ]
  ]

  -- A deletion that does not raise leaves a consistent graph consistent, whether the node is there
  -- or not, detaching or not.
  pub delete_node-IsConsistent : (detach : Bool) → delete_node nid detach g ≡ ok h → IsConsistent h
  unfolding delete_node
  delete_node-IsConsistent detach e = elim (Bool-cases (has nid g.nodes)) [
    | inl here ↦ present-IsConsistent detach here e
    | inr gone ↦ subst IsConsistent (ok-injective (rw gone at e)) v
  ]

-- A detaching deletion of a present node of a consistent graph succeeds. The graph stays
-- consistent, so that no relationship dangles; exactly the node, and exactly the relationships that
-- start or end at it, are gone.
pub delete_node-detaches :
    (nid : ℕ) {g : Graph}
    → IsConsistent g
    → has nid g.nodes ≡ true
    → (h : Graph) × (delete_node nid true g ≡ ok h) × Deleted nid g h
delete_node-detaches nid v here = delete_node-detach nid v here

-- Without `detach`, deleting a present node raises ValueError if a relationship starts or ends at
-- it, and otherwise removes exactly that node and leaves the graph consistent.
pub delete_node-guards :
    (nid : ℕ) {g : Graph}
    → IsConsistent g
    → has nid g.nodes ≡ true
    → ((r : ℕ)
        → has r g.relationships ≡ true
        → touches nid (lookup r g.rel_objects) ≡ true
        → delete_node nid false g ≡ err value_error)
      × (((r : ℕ) → has r g.relationships ≡ true → touches nid (lookup r g.rel_objects) ≡ false)
          → (h : Graph) × (delete_node nid false g ≡ ok h) × Deleted nid g h)
delete_node-guards nid v here = (delete_node-refused nid v here, delete_node-plain nid v here)
