-- ===== src/Executor/Engine/Sound.antt =====
-- The invariant that the clauses keep: the graph is consistent and the ids of all its nodes, also of
-- those deleted, are used up. It does not depend on the properties.
use Prim.Native.Nat.{ℕ, ◌<◌}
use cypherast.Prelude.{
  String, ◌≡◌, refl, sym, ◌∙◌, Bool, true, not, ◌&&◌, ◌||◌, List, [], ◌∷◌, ◌++◌, Option, none, some,
  ◌==◌, arith, inl, inr, Option-cases,
}
use mathlib.Core.Option
use cypherast.Prelude.Dict.{
  lookup, modify, insert, has, add, discard, string_eq, nat_eq, lookup-modify, lookup-insert,
  has-add, has-discard, to_set,
}
use cypherast.Prelude.Result.{ok}
use cypherast.Executor.Value.{Value, node_ref, rel_ref}
use cypherast.Executor.Graph.{
  Graph, NodeObject, RelObject, ids_at, ids_with, labels_of, create_node, create_rel, delete_rel,
  delete_rels, delete_node, drop_node, index_labels, unindex_labels,
}
use cypherast.Executor.Graph.Indexes.{has-unindex_labels, has-index_labels}
use cypherast.Executor.Graph.Invariant.{
  IsConsistent, found, starts_at, stops_at, create_node-IsConsistent, create_rel-IsConsistent,
}
use cypherast.Executor.Graph.Deletion.{delete_rel-IsConsistent, delete_node-IsConsistent}
use cypherast.Executor.Engine.Write.{change_props, add_label, remove_label}

pub record IsSound (g : Graph) : Type 0 where
  pub consistent : IsConsistent g
  pub object_fresh : (n : ℕ) → found (lookup n g.node_objects) ≡ true → n < g.next_id

found-map : (f : NodeObject → NodeObject) (o : Option NodeObject) → found (Option.map f o) ≡ found o
found-map f none = refl
found-map f (some o) = refl

found_rel-map :
    (f : RelObject → RelObject) (o : Option RelObject) → found (Option.map f o) ≡ found o
found_rel-map f none = refl
found_rel-map f (some o) = refl

found-modify :
    (n k : ℕ) (f : NodeObject → NodeObject) (m : List (ℕ × NodeObject))
    → found (lookup n (modify k f m)) ≡ found (lookup n m)
found-modify n k f m = ground (arith, lookup-modify k n f m, found-map f (lookup k m))

-- The objects may change in their properties alone.
record SameShape (g h : Graph) : Type 0 where
  nodes_same : h.nodes ≡ g.nodes
  rels_same : h.relationships ≡ g.relationships
  out_same : h.out_index ≡ g.out_index
  in_same : h.in_index ≡ g.in_index
  label_same : h.by_label ≡ g.by_label
  next_same : h.next_id ≡ g.next_id
  found_same : (n : ℕ) → found (lookup n h.node_objects) ≡ found (lookup n g.node_objects)
  labels_same : (n : ℕ) → labels_of (lookup n h.node_objects) ≡ labels_of (lookup n g.node_objects)
  rel_found_same : (r : ℕ) → found (lookup r h.rel_objects) ≡ found (lookup r g.rel_objects)
  starts_same :
      (n r : ℕ) → starts_at n (lookup r h.rel_objects) ≡ starts_at n (lookup r g.rel_objects)
  stops_same : (n r : ℕ) → stops_at n (lookup r h.rel_objects) ≡ stops_at n (lookup r g.rel_objects)

module _ {g h : Graph} (s : SameShape g h) where
  same-IsConsistent : IsConsistent g → IsConsistent h
  same-IsConsistent v = record {
    node_fresh = λ n. rw (s.nodes_same, s.next_same) (v.node_fresh n);
    rel_fresh = λ r. rw (s.rels_same, s.next_same) (v.rel_fresh r);
    label_fresh = λ l n. rw (s.label_same, s.next_same) (v.label_fresh l n);
    node_known = λ n. rw (s.nodes_same, s.found_same n) (v.node_known n);
    rel_known = λ r. rw (s.rels_same, s.rel_found_same r) (v.rel_known r);
    out_exact = λ n r. rw (s.rels_same, s.out_same, s.starts_same n r) (v.out_exact n r);
    in_exact = λ n r. rw (s.rels_same, s.in_same, s.stops_same n r) (v.in_exact n r);
    label_exact = λ l n. rw (s.nodes_same, s.label_same, s.labels_same n) (v.label_exact l n);
    start_present = λ r n. rw (s.nodes_same, s.rels_same, s.starts_same n r) (v.start_present r n);
    stop_present = λ r n. rw (s.nodes_same, s.rels_same, s.stops_same n r) (v.stop_present r n);
  }

  same-IsSound : IsSound g → IsSound h
  same-IsSound v = record {
    consistent = same-IsConsistent v.consistent;
    object_fresh = λ n. rw (s.found_same n, s.next_same) (v.object_fresh n);
  }

abbrev Props : Type 0
Props = List (String × Value)

labels-map :
    (f : Props → Props) (o : Option NodeObject)
    → labels_of (Option.map (λ (o : NodeObject). record o { props = f o.props }) o) ≡ labels_of o
unfolding labels_of
labels-map f none = refl
labels-map f (some o) = refl

starts-map :
    (n : ℕ) (f : Props → Props) (o : Option RelObject)
    → starts_at n (Option.map (λ (o : RelObject). record o { props = f o.props }) o) ≡ starts_at n o
starts-map n f none = refl
starts-map n f (some o) = refl

stops-map :
    (n : ℕ) (f : Props → Props) (o : Option RelObject)
    → stops_at n (Option.map (λ (o : RelObject). record o { props = f o.props }) o) ≡ stops_at n o
stops-map n f none = refl
stops-map n f (some o) = refl

module _ (k : ℕ) (f : Props → Props) (g : Graph) where
  node_props-same : SameShape g (change_props (node_ref k) f g)
  unfolding change_props
  node_props-same = record {
    nodes_same = refl;
    rels_same = refl;
    out_same = refl;
    in_same = refl;
    label_same = refl;
    next_same = refl;
    found_same = λ n. found-modify n k (λ o. record o { props = f o.props }) g.node_objects;
    labels_same = λ n. ground (
      arith,
      lookup-modify k n (λ (o : NodeObject). record o { props = f o.props }) g.node_objects,
      labels-map f (lookup k g.node_objects),
    );
    rel_found_same = λ r. refl;
    starts_same = λ n r. refl;
    stops_same = λ n r. refl;
  }

  rel_props-same : SameShape g (change_props (rel_ref k) f g)
  unfolding change_props
  rel_props-same = record {
    nodes_same = refl;
    rels_same = refl;
    out_same = refl;
    in_same = refl;
    label_same = refl;
    next_same = refl;
    found_same = λ n. refl;
    labels_same = λ n. refl;
    rel_found_same = λ r. ground (
      arith,
      lookup-modify k r (λ (o : RelObject). record o { props = f o.props }) g.rel_objects,
      found_rel-map (λ o. record o { props = f o.props }) (lookup k g.rel_objects),
    );
    starts_same = λ n r. ground (
      arith,
      lookup-modify k r (λ (o : RelObject). record o { props = f o.props }) g.rel_objects,
      starts-map n f (lookup k g.rel_objects),
    );
    stops_same = λ n r. ground (
      arith,
      lookup-modify k r (λ (o : RelObject). record o { props = f o.props }) g.rel_objects,
      stops-map n f (lookup k g.rel_objects),
    );
  }

-- A change of properties keeps the invariant, whatever the value is.
pub change_props-IsSound :
    (v : Value) (f : Props → Props) {g : Graph} → IsSound g → IsSound (change_props v f g)
unfolding change_props
change_props-IsSound (node_ref k) f {g} s = same-IsSound (node_props-same k f g) s
change_props-IsSound (rel_ref k) f {g} s = same-IsSound (rel_props-same k f g) s
change_props-IsSound _ f s = s

labels-add :
    (l : String) (o : NodeObject)
    → labels_of (Option.map (λ (o : NodeObject). record o { labels = add l o.labels }) (some o))
      ≡ add l o.labels
unfolding labels_of
labels-add l o = refl

labels-discard :
    (k l : String) (o : Option NodeObject)
    → has l
        (labels_of (Option.map (λ (o : NodeObject). record o { labels = discard k o.labels }) o))
      ≡ (not (string_eq.beq k l) && has l (labels_of o))
unfolding labels_of has
labels-discard k l none = ground arith
labels-discard k l (some o) = has-discard k l o.labels

labels-added :
    (k l : String) (o : NodeObject)
    → has l
        (labels_of (Option.map (λ (o : NodeObject). record o { labels = add k o.labels }) (some o)))
      ≡ (string_eq.beq k l || has l (labels_of (some o)))
unfolding labels_of
labels-added k l o = has-add k l o.labels

module _ (nid : ℕ) (k : String) {g : Graph} (s : IsSound g) where
  abbrev v : IsConsistent g
  v = s.consistent

  has-labelled :
      (n : ℕ) (l : String)
      → has n (ids_with l (insert k (add nid (ids_with k g.by_label)) g.by_label))
        ≡ (((nid == n) && string_eq.beq k l) || has n (ids_with l g.by_label))
  has-labelled n l =
      unfold index_labels has in ground (arith, has-index_labels nid n l (k ∷ []) g.by_label)

  add_label-known :
      (o : NodeObject) → lookup nid g.node_objects ≡ some o → IsSound (add_label nid k g)
  unfolding add_label
  add_label-known o is =
      rw (is, add_label)
        (record {
          consistent = record {
            node_fresh = v.node_fresh;
            rel_fresh = v.rel_fresh;
            label_fresh =
                λ l n h. ground (arith, has-labelled n l, v.label_fresh l n, s.object_fresh nid);
            node_known = λ n h.
                found-modify n nid (λ o. record o { labels = add k o.labels }) g.node_objects
                ∙ v.node_known n h;
            rel_known = v.rel_known;
            out_exact = v.out_exact;
            in_exact = v.in_exact;
            label_exact = λ l n h. ground (
              arith,
              has-labelled n l,
              v.label_exact l n,
              lookup-modify nid n (λ (o : NodeObject). record o { labels = add k o.labels })
                  g.node_objects,
              labels-added k l o,
            );
            start_present = v.start_present;
            stop_present = v.stop_present;
          };
          object_fresh = λ n h. s.object_fresh n (
              sym (found-modify n nid (λ o. record o { labels = add k o.labels }) g.node_objects)
              ∙ h);
        })

  -- Adding a label keeps the invariant.
  pub add_label-IsSound : IsSound (add_label nid k g)
  unfolding add_label
  add_label-IsSound = elim (Option-cases (lookup nid g.node_objects)) [
    | inl lost ↦ rw (lost, add_label) s
    | inr (o, is) ↦ add_label-known o is
  ]

  -- Removing a label keeps the invariant.
  pub remove_label-IsSound : IsSound (remove_label nid k g)
  unfolding remove_label
  remove_label-IsSound = record {
    consistent = record {
      node_fresh = v.node_fresh;
      rel_fresh = v.rel_fresh;
      label_fresh = λ l n h. ground (arith, has-unlabelled n l, v.label_fresh l n);
      node_known = λ n h.
          found-modify n nid (λ o. record o { labels = discard k o.labels }) g.node_objects
          ∙ v.node_known n h;
      rel_known = v.rel_known;
      out_exact = v.out_exact;
      in_exact = v.in_exact;
      label_exact = λ l n h. ground (
        arith,
        has-unlabelled n l,
        v.label_exact l n,
        lookup-modify nid n (λ (o : NodeObject). record o { labels = discard k o.labels })
            g.node_objects,
        labels-discard k l (lookup nid g.node_objects),
      );
      start_present = v.start_present;
      stop_present = v.stop_present;
    };
    object_fresh = λ n h. s.object_fresh n (
        sym (found-modify n nid (λ o. record o { labels = discard k o.labels }) g.node_objects)
        ∙ h);
  }
    where
      has-unlabelled :
          (n : ℕ) (l : String)
          → has n (ids_with l (modify k (discard nid) g.by_label))
            ≡ (not ((nid == n) && string_eq.beq k l) && has n (ids_with l g.by_label))
      has-unlabelled n l =
          unfold unindex_labels has in
          ground (arith, has-unindex_labels nid n l (k ∷ []) g.by_label)

-- A step that adds no node object and takes no id back keeps them fresh.
record SameObjects (g h : Graph) : Type 0 where
  objects_same : h.node_objects ≡ g.node_objects
  next_same : h.next_id ≡ g.next_id

module _ {g h : Graph} (s : SameObjects g h) where
  objects-IsSound : IsSound g → IsConsistent h → IsSound h
  objects-IsSound v c = record {
    consistent = c;
    object_fresh = λ n. rw (s.objects_same, s.next_same) (v.object_fresh n);
  }

delete_rel-same : (r : ℕ) (g : Graph) → SameObjects g (delete_rel r g)
unfolding delete_rel
delete_rel-same r g = record { objects_same = ground arith; next_same = ground arith }

delete_rels-same : (rs : List ℕ) (g : Graph) → SameObjects g (delete_rels rs g)
unfolding delete_rels
delete_rels-same [] g = record { objects_same = refl; next_same = refl }
delete_rels-same (r ∷ rs) g =
    let one = delete_rel-same r g in
    let rest = delete_rels-same rs (delete_rel r g) in
    record {
      objects_same = rest.objects_same ∙ one.objects_same;
      next_same = rest.next_same ∙ one.next_same;
    }

-- Deleting a relationship keeps the invariant.
pub delete_rel-IsSound : (r : ℕ) {g : Graph} → IsSound g → IsSound (delete_rel r g)
delete_rel-IsSound r {g} v =
    objects-IsSound (delete_rel-same r g) v (delete_rel-IsConsistent r v.consistent)

delete_node-same :
    (n : ℕ) (detach : Bool) (g : Graph) {h : Graph}
    → delete_node n detach g ≡ ok h
    → SameObjects g h
unfolding delete_node drop_node
delete_node-same n detach g {h} e =
    let d = delete_rels-same (ids_at n g.out_index ++ ids_at n g.in_index) g in
    record {
      objects_same = ground (arith, d.objects_same);
      next_same = ground (arith, d.next_same);
    }

-- A deletion of a node that does not raise keeps the invariant.
pub delete_node-IsSound :
    (n : ℕ) (detach : Bool) {g h : Graph} → IsSound g → delete_node n detach g ≡ ok h → IsSound h
delete_node-IsSound n detach {g} {h} v e =
    objects-IsSound (delete_node-same n detach g e) v
      (delete_node-IsConsistent n v.consistent detach e)

module _ (labels : List String) (props : Props) {g : Graph} (v : IsSound g) where
  abbrev new_object : NodeObject
  new_object = record { id = g.next_id; labels = to_set labels; props = props }

  -- A new node keeps the invariant.
  pub create_node-IsSound : IsSound (create_node labels props g).1
  unfolding create_node
  create_node-IsSound = record {
    consistent = create_node-IsConsistent labels props v.consistent;
    object_fresh = λ n h.
        ground (arith, lookup-insert g.next_id n new_object g.node_objects, v.object_fresh n);
  }

-- A new relationship between nodes of the graph keeps the invariant.
pub create_rel-IsSound :
    (s e : ℕ) (type : String) (props : Props) {g : Graph}
    → IsSound g
    → has s g.nodes ≡ true
    → has e g.nodes ≡ true
    → IsSound (create_rel s e type props g).1
unfolding create_rel
create_rel-IsSound s e type props {g} v hs he = record {
  consistent = create_rel-IsConsistent s e type props v.consistent hs he;
  object_fresh = λ n h. ground (arith, v.object_fresh n);
}
