-- ===== src/Executor/Graph/Queries.antt =====
-- What the lookups by label and by endpoint return.
use Prim.Native.Nat.{ℕ}
use cypherast.Prelude.{
  String, ◌≡◌, refl, ◌∙◌, Bool, true, ◌&&◌, List, [], ◌∷◌, Option, none, some, if◌then◌else◌, arith,
}
use cypherast.Prelude.Dict.{lookup, has, string_eq, nat_eq}
use cypherast.Executor.Graph.{
  Graph, RelObject, ids_at, ids_with, labels_of, present, nodes_with_label, present_rels, with_type,
  of_type, type_is, out_rels, in_rels,
}
use cypherast.Executor.Graph.Invariant.{IsConsistent, starts_at, stops_at}

has-present : (n : ℕ) (l : List ℕ) (g : Graph) → has n (present l g) ≡ (has n l && has n g.nodes)
unfolding has present
has-present n [] g = refl
has-present n (i ∷ l) g = ground (arith, has-present n l g, nat_eq.beq_iff i n)

has-present_rels :
    (r : ℕ) (l : List ℕ) (g : Graph) → has r (present_rels l g) ≡ (has r l && has r g.relationships)
unfolding has present_rels
has-present_rels r [] g = refl
has-present_rels r (i ∷ l) g = ground (arith, has-present_rels r l g, nat_eq.beq_iff i r)

has-with_type :
    (r : ℕ) (typ : String) (l : List ℕ) (g : Graph)
    → has r (with_type typ l g) ≡ (has r l && type_is typ (lookup r g.rel_objects))
unfolding has with_type
has-with_type r typ [] g = refl
has-with_type r typ (i ∷ l) g = ground (arith, has-with_type r typ l g, nat_eq.beq_iff i r)

-- In a consistent graph the nodes found by a label are exactly the nodes that carry it.
pub nodes_with_label-exact :
    (l : String) (n : ℕ) {g : Graph}
    → IsConsistent g
    → has n (nodes_with_label l g) ≡ (has n g.nodes && has l (labels_of (lookup n g.node_objects)))
unfolding nodes_with_label
nodes_with_label-exact l n {g} v =
    ground (arith, has-present n (ids_with l g.by_label) g, v.label_exact l n)

-- The test that a type filter makes: no type, and the empty text, let every relationship pass.
abbrev pub passes : Option String → Option RelObject → Bool
passes none o = true
passes (some typ) o = if string_eq.beq typ "" then true else type_is typ o

has-of_type :
    (typ : Option String) (r : ℕ) (l : List ℕ) (g : Graph)
    → has r (of_type typ l g) ≡ (has r l && passes typ (lookup r g.rel_objects))
has-of_type none r l g = ground arith
has-of_type (some typ) r l g = ground (arith, has-with_type r typ l g)

-- In a consistent graph the outgoing (incoming) relationships of a node are exactly the present ones
-- that start (end) at it and pass the type filter.
pub rels-exact :
    (n r : ℕ) (typ : Option String) {g : Graph}
    → IsConsistent g
    → (has r (out_rels n typ g) ≡ (
        (has r g.relationships && starts_at n (lookup r g.rel_objects))
        && passes typ (lookup r g.rel_objects)))
      × (has r (in_rels n typ g) ≡ (
          (has r g.relationships && stops_at n (lookup r g.rel_objects))
          && passes typ (lookup r g.rel_objects)))
unfolding out_rels in_rels
rels-exact n r typ {g} v = (
  has-of_type typ r (present_rels (ids_at n g.out_index) g) g
      ∙ ground (arith, has-present_rels r (ids_at n g.out_index) g, v.out_exact n r),
  has-of_type typ r (present_rels (ids_at n g.in_index) g) g
      ∙ ground (arith, has-present_rels r (ids_at n g.in_index) g, v.in_exact n r),
)
