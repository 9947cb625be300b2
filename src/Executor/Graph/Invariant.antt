-- ===== src/Executor/Graph/Invariant.antt =====
-- The consistency of a graph: ids are fresh, every key has its object, each adjacency list holds
-- exactly the relationships that start (or end) at its node, each label set agrees with the
-- labels of the nodes, and no relationship has lost an endpoint.
use Prim.Native.Nat.{ℕ, ◌<◌}
use cypherast.Prelude.{
  String, ◌≡◌, Bool, true, false, ◌&&◌, List, [], ◌∷◌, ◌++◌, Option, none, some, ◌==◌, arith,
}
use cypherast.Prelude.Dict.{lookup, has, string_eq, nat_eq, lookup-insert, has-append, to_set}
use cypherast.Executor.Value.{Value}
use cypherast.Executor.Graph.{
  Graph, NodeObject, RelObject, ids_at, ids_with, labels_of, create_node, create_rel,
}
use cypherast.Executor.Graph.Indexes.{ids_at-insert, has-index_labels}

abbrev pub found {ℓ} : {A : Type ℓ} → Option A → Bool
found none = false
found (some _) = true

-- The object is a relationship that starts at `n`.
abbrev pub starts_at : ℕ → Option RelObject → Bool
starts_at n none = false
starts_at n (some rel) = rel.start == n

abbrev pub stops_at : ℕ → Option RelObject → Bool
stops_at n none = false
stops_at n (some rel) = rel.stop == n

pub record IsConsistent (g : Graph) : Type 0 where
  pub node_fresh : (n : ℕ) → has n g.nodes ≡ true → n < g.next_id
  pub rel_fresh : (r : ℕ) → has r g.relationships ≡ true → r < g.next_id
  pub label_fresh : (l : String) (n : ℕ) → has n (ids_with l g.by_label) ≡ true → n < g.next_id
  pub node_known : (n : ℕ) → has n g.nodes ≡ true → found (lookup n g.node_objects) ≡ true
  pub rel_known : (r : ℕ) → has r g.relationships ≡ true → found (lookup r g.rel_objects) ≡ true
  pub out_exact :
      (n r : ℕ)
      → has r (ids_at n g.out_index)
        ≡ (has r g.relationships && starts_at n (lookup r g.rel_objects))
  pub in_exact :
      (n r : ℕ)
      → has r (ids_at n g.in_index) ≡ (has r g.relationships && stops_at n (lookup r g.rel_objects))
  pub label_exact :
      (l : String) (n : ℕ)
      → has n g.nodes ≡ true
      → has n (ids_with l g.by_label) ≡ has l (labels_of (lookup n g.node_objects))
  pub start_present :
      (r n : ℕ)
      → has r g.relationships ≡ true
      → starts_at n (lookup r g.rel_objects) ≡ true
      → has n g.nodes ≡ true
  pub stop_present :
      (r n : ℕ)
      → has r g.relationships ≡ true
      → stops_at n (lookup r g.rel_objects) ≡ true
      → has n g.nodes ≡ true

module _ (labels : List String) (props : List (String × Value)) {g : Graph}
    (v : IsConsistent g) where
  abbrev made : NodeObject
  made = record { id = g.next_id; labels = to_set labels; props = props }

  -- A new node leaves a consistent graph consistent.
  pub create_node-IsConsistent : IsConsistent (create_node labels props g).1
  unfolding create_node labels_of has
  create_node-IsConsistent = record {
    node_fresh = λ n h. ground (arith, has-append n g.nodes (g.next_id ∷ []), v.node_fresh n);
    rel_fresh = λ r h. ground (arith, v.rel_fresh r);
    label_fresh = λ l n h.
        ground
          (arith, has-index_labels g.next_id n l (to_set labels) g.by_label, v.label_fresh l n);
    node_known = λ n h. ground (
      arith,
      has-append n g.nodes (g.next_id ∷ []),
      lookup-insert g.next_id n made g.node_objects,
      v.node_known n,
    );
    rel_known = v.rel_known;
    out_exact = λ n r. ground (
      arith,
      ids_at-insert n g.next_id (ids_at g.next_id g.out_index) g.out_index,
      v.out_exact n r,
    );
    in_exact = λ n r.
        ground (
          arith,
          ids_at-insert n g.next_id (ids_at g.next_id g.in_index) g.in_index,
          v.in_exact n r,
        );
    label_exact = λ l n h. ground (
      arith,
      has-append n g.nodes (g.next_id ∷ []),
      has-index_labels g.next_id n l (to_set labels) g.by_label,
      lookup-insert g.next_id n made g.node_objects,
      v.label_exact l n,
      v.label_fresh l n,
      v.node_fresh n,
    );
    start_present =
        λ r n h k. ground (arith, has-append n g.nodes (g.next_id ∷ []), v.start_present r n);
    stop_present =
        λ r n h k. ground (arith, has-append n g.nodes (g.next_id ∷ []), v.stop_present r n);
  }

module _ (s e : ℕ) (type : String) (props : List (String × Value)) {g : Graph}
    (v : IsConsistent g) where
  abbrev joined : RelObject
  joined = record { id = g.next_id; rel_type = type; start = s; stop = e; props = props }

  -- A new relationship between two nodes of a consistent graph leaves it consistent.
  pub create_rel-IsConsistent :
      has s g.nodes ≡ true → has e g.nodes ≡ true → IsConsistent (create_rel s e type props g).1
  unfolding create_rel has
  create_rel-IsConsistent hs he = record {
    node_fresh = λ n h. ground (arith, v.node_fresh n);
    rel_fresh = λ r h. ground (arith, has-append r g.relationships (g.next_id ∷ []), v.rel_fresh r);
    label_fresh = λ l n h. ground (arith, v.label_fresh l n);
    node_known = v.node_known;
    rel_known = λ r h. ground (
      arith,
      has-append r g.relationships (g.next_id ∷ []),
      lookup-insert g.next_id r joined g.rel_objects,
      v.rel_known r,
    );
    out_exact = λ n r. ground (
      arith,
      ids_at-insert n s (ids_at s g.out_index ++ (g.next_id ∷ [])) g.out_index,
      has-append r (ids_at n g.out_index) (g.next_id ∷ []),
      has-append r g.relationships (g.next_id ∷ []),
      lookup-insert g.next_id r joined g.rel_objects,
      v.out_exact n r,
      v.rel_fresh r,
    );
    in_exact = λ n r. ground (
      arith,
      ids_at-insert n e (ids_at e g.in_index ++ (g.next_id ∷ [])) g.in_index,
      has-append r (ids_at n g.in_index) (g.next_id ∷ []),
      has-append r g.relationships (g.next_id ∷ []),
      lookup-insert g.next_id r joined g.rel_objects,
      v.in_exact n r,
      v.rel_fresh r,
    );
    label_exact = v.label_exact;
    start_present = λ r n h k. ground (
      arith,
      has-append r g.relationships (g.next_id ∷ []),
      lookup-insert g.next_id r joined g.rel_objects,
      v.start_present r n,
    );
    stop_present = λ r n h k. ground (
      arith,
      has-append r g.relationships (g.next_id ∷ []),
      lookup-insert g.next_id r joined g.rel_objects,
      v.stop_present r n,
    );
  }
