-- ===== src/Executor/Graph.antt =====
-- cypherast/executor/graph.py: the mutable property graph with its adjacency and label indexes.
-- A Python `Node` or `Relationship` is an object that outlives its removal from the graph, so the
-- objects stand in `node_objects` and `rel_objects` under their ids; the dictionaries `nodes` and
-- `relationships`, which map an id to the object with that id, are the lists of their keys in
-- order. A set is the list of its members. `list.remove` is written `discard`; `Once` compares them.
pub mod Indexes
pub mod Invariant
pub mod Deletion
pub mod Queries
pub mod History
pub mod Once
pub mod Examples
use Prim.Native.Nat.{ℕ, suc}
use cypherast.Prelude.{
  String, Bool, true, false, ◌||◌, List, [], ◌∷◌, ◌++◌, Option, none, some, if◌then◌else◌,
}
use cypherast.Prelude.Dict.{lookup, insert, modify, has, add, discard, to_set, string_eq, nat_eq}
use cypherast.Prelude.Result.{Result, ok, err, value_error}
use cypherast.Executor.Value.{Value}

pub record NodeObject : Type 0 where
  pub id : ℕ
  pub labels : List String
  pub props : List (String × Value)

pub record RelObject : Type 0 where
  pub id : ℕ
  pub rel_type : String
  pub start : ℕ
  pub stop : ℕ
  pub props : List (String × Value)

pub record Graph : Type 0 where
  pub node_objects : List (ℕ × NodeObject)
  pub rel_objects : List (ℕ × RelObject)
  pub nodes : List ℕ
  pub relationships : List ℕ
  pub out_index : List (ℕ × List ℕ)
  pub in_index : List (ℕ × List ℕ)
  pub by_label : List (String × List ℕ)
  pub next_id : ℕ

abbrev pub empty_graph : Graph
empty_graph = record {
  node_objects = [];
  rel_objects = [];
  nodes = [];
  relationships = [];
  out_index = [];
  in_index = [];
  by_label = [];
  next_id = 1;
}

-- d.get(k, []) of an index
unfoldable pub ids : Option (List ℕ) → List ℕ
ids none = []
ids (some l) = l

unfoldable pub ids_at : ℕ → List (ℕ × List ℕ) → List ℕ
unfolding lookup ids
ids_at n m = ids (lookup n m)

unfoldable pub ids_with : String → List (String × List ℕ) → List ℕ
unfolding lookup ids
ids_with l m = ids (lookup l m)

-- for l in lab: self._by_label.setdefault(l, set()).add(nid)
unfoldable pub index_labels : ℕ → List String → List (String × List ℕ) → List (String × List ℕ)
unfolding insert add ids_with
index_labels nid [] m = m
index_labels nid (l ∷ ls) m = index_labels nid ls (insert l (add nid (ids_with l m)) m)

-- for l in node.labels: self._by_label.get(l, set()).discard(nid)
unfoldable pub unindex_labels : ℕ → List String → List (String × List ℕ) → List (String × List ℕ)
unfolding modify discard
unindex_labels nid [] m = m
unindex_labels nid (l ∷ ls) m = unindex_labels nid ls (modify l (discard nid) m)

-- The id given to the new node, and the graph with it.
unfoldable pub create_node : List String → List (String × Value) → Graph → ℕ × Graph
unfolding to_set index_labels insert ids_at
create_node labels props g =
    let nid = g.next_id in
    let lab = to_set labels in
    (
      nid,
      record g {
        node_objects = insert nid (record { id = nid; labels = lab; props = props }) g.node_objects;
        nodes = g.nodes ++ (nid ∷ []);
        out_index = insert nid (ids_at nid g.out_index) g.out_index;
        in_index = insert nid (ids_at nid g.in_index) g.in_index;
        by_label = index_labels nid lab g.by_label;
        next_id = suc nid;
      },
    )

unfoldable pub create_rel : ℕ → ℕ → String → List (String × Value) → Graph → ℕ × Graph
unfolding insert ids_at
create_rel s e type props g =
    let rid = g.next_id in
    (
      rid,
      record g {
        rel_objects =
            insert rid (record { id = rid; rel_type = type; start = s; stop = e; props = props })
              g.rel_objects;
        relationships = g.relationships ++ (rid ∷ []);
        out_index = insert s (ids_at s g.out_index ++ (rid ∷ [])) g.out_index;
        in_index = insert e (ids_at e g.in_index ++ (rid ∷ [])) g.in_index;
        next_id = suc rid;
      },
    )

-- The relationship is popped, and its id taken from the two lists that hold it.
abbrev drop_rel : ℕ → Option RelObject → Graph → Graph
drop_rel rid none g = g
drop_rel rid (some rel) g = record g {
  relationships = discard rid g.relationships;
  out_index = modify rel.start (discard rid) g.out_index;
  in_index = modify rel.stop (discard rid) g.in_index;
}

unfoldable pub delete_rel : ℕ → Graph → Graph
unfolding lookup modify discard has
delete_rel rid g = if has rid g.relationships then drop_rel rid (lookup rid g.rel_objects) g else g

-- for rid in rids: self.delete_rel(rid)
unfoldable pub delete_rels : List ℕ → Graph → Graph
unfolding delete_rel
delete_rels [] g = g
delete_rels (rid ∷ rids) g = delete_rels rids (delete_rel rid g)

unfoldable pub labels_of : Option NodeObject → List String
labels_of none = []
labels_of (some node) = node.labels

-- node = self.nodes.pop(nid), and its id taken from the sets of its labels
unfoldable pub drop_node : ℕ → Graph → Graph
unfolding discard unindex_labels lookup labels_of
drop_node nid g = record g {
  nodes = discard nid g.nodes;
  by_label = unindex_labels nid (labels_of (lookup nid g.node_objects)) g.by_label;
}

-- bool(l) of a list
abbrev pub non_empty {ℓ} : {A : Type ℓ} → List A → Bool
non_empty [] = false
non_empty (_ ∷ _) = true

unfoldable pub delete_node : ℕ → (detach : Bool) → Graph → Result Graph
unfolding drop_node delete_rels has ids_at
delete_node nid detach g =
    if has nid g.nodes
    then if detach
      then ok (drop_node nid (delete_rels (ids_at nid g.out_index ++ ids_at nid g.in_index) g))
      else if non_empty (ids_at nid g.out_index) || non_empty (ids_at nid g.in_index)
      then err value_error
      else ok (drop_node nid g)
    else ok g

-- [self.nodes[i] for i in ids if i in self.nodes]
unfoldable pub present : List ℕ → Graph → List ℕ
unfolding has
present [] g = []
present (i ∷ is) g = if has i g.nodes then i ∷ present is g else present is g

unfoldable pub nodes_with_label : String → Graph → List ℕ
unfolding present ids_with
nodes_with_label l g = present (ids_with l g.by_label) g

unfoldable pub all_nodes : Graph → List ℕ
all_nodes g = g.nodes

-- [self.relationships[r] for r in ids if r in self.relationships], and of them those of the type
-- `typ`, if it is given and not empty
unfoldable pub present_rels : List ℕ → Graph → List ℕ
unfolding has
present_rels [] g = []
present_rels (r ∷ rs) g = if has r g.relationships then r ∷ present_rels rs g else present_rels rs g

abbrev type_is : String → Option RelObject → Bool
type_is typ none = false
type_is typ (some rel) = (string_eq).beq rel.rel_type typ

unfoldable pub with_type : String → List ℕ → Graph → List ℕ
unfolding lookup
with_type typ [] g = []
with_type typ (r ∷ rs) g =
    if type_is typ (lookup r g.rel_objects) then r ∷ with_type typ rs g else with_type typ rs g

abbrev of_type : Option String → List ℕ → Graph → List ℕ
of_type none rs g = rs
of_type (some typ) rs g = if string_eq.beq typ "" then rs else with_type typ rs g

unfoldable pub out_rels : ℕ → Option String → Graph → List ℕ
unfolding present_rels ids_at with_type
out_rels nid typ g = of_type typ (present_rels (ids_at nid g.out_index) g) g

unfoldable pub in_rels : ℕ → Option String → Graph → List ℕ
unfolding present_rels ids_at with_type
in_rels nid typ g = of_type typ (present_rels (ids_at nid g.in_index) g) g
