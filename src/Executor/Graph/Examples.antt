-- ===== src/Executor/Graph/Examples.antt =====
-- A small graph, run through the operations: two people and a relationship from the first to the
-- second.
use Prim.Native.Nat.{ℕ}
use cypherast.Prelude.{◌≡◌, refl, true, false, ◌&&◌, [], ◌∷◌, some}
use cypherast.Prelude.Dict.{has, nat_eq, string_eq, lookup}
use cypherast.Prelude.Result.{ok, err, value_error}
use cypherast.Executor.Graph.{
  Graph, empty_graph, create_node, create_rel, delete_node, nodes_with_label, out_rels, in_rels,
  labels_of,
}
use cypherast.Executor.Graph.Invariant.{IsConsistent, starts_at, stops_at}
use cypherast.Executor.Graph.Deletion.{Deleted, delete_node-detaches, delete_node-guards, touches}
use cypherast.Executor.Graph.Queries.{nodes_with_label-exact, rels-exact, passes}
use cypherast.Executor.Graph.History.{
  History, began, then_step, node_created, rel_created, History-IsConsistent,
}

abbrev two_people : Graph
two_people =
    (create_node ("Person" ∷ []) [] (create_node ("Person" ∷ "Admin" ∷ []) [] empty_graph).1).1

abbrev pub acquainted : Graph
acquainted = (create_rel 1 2 "KNOWS" [] two_people).1

made : History acquainted
unfolding create_node has
made =
    then_step
      (then_step (then_step began (node_created ("Person" ∷ "Admin" ∷ []) []))
        (node_created ("Person" ∷ []) []))
      (rel_created 1 2 "KNOWS" [] refl refl)

pub acquainted-IsConsistent : IsConsistent acquainted
acquainted-IsConsistent = History-IsConsistent made

History-IsConsistent_example : IsConsistent acquainted
History-IsConsistent_example = History-IsConsistent made

first_present : has 1 acquainted.nodes ≡ true
unfolding create_node create_rel has
first_present = refl

delete_node-detaches_example :
    (h : Graph) × (delete_node 1 true acquainted ≡ ok h) × Deleted 1 acquainted h
delete_node-detaches_example = delete_node-detaches 1 acquainted-IsConsistent first_present

delete_node-guards_example :
    ((r : ℕ)
      → has r acquainted.relationships ≡ true
      → touches 1 (lookup r acquainted.rel_objects) ≡ true
      → delete_node 1 false acquainted ≡ err value_error)
    × (((r : ℕ)
          → has r acquainted.relationships ≡ true
          → touches 1 (lookup r acquainted.rel_objects) ≡ false)
        → (h : Graph) × (delete_node 1 false acquainted ≡ ok h) × Deleted 1 acquainted h)
delete_node-guards_example = delete_node-guards 1 acquainted-IsConsistent first_present

nodes_with_label-exact_example :
    has 1 (nodes_with_label "Admin" acquainted)
    ≡ (has 1 acquainted.nodes && has "Admin" (labels_of (lookup 1 acquainted.node_objects)))
nodes_with_label-exact_example = nodes_with_label-exact "Admin" 1 acquainted-IsConsistent

rels-exact_example :
    (has 3 (out_rels 1 (some "KNOWS") acquainted) ≡ (
      (has 3 acquainted.relationships && starts_at 1 (lookup 3 acquainted.rel_objects))
      && passes (some "KNOWS") (lookup 3 acquainted.rel_objects)))
    × (has 3 (in_rels 1 (some "KNOWS") acquainted) ≡ (
        (has 3 acquainted.relationships && stops_at 1 (lookup 3 acquainted.rel_objects))
        && passes (some "KNOWS") (lookup 3 acquainted.rel_objects)))
rels-exact_example = rels-exact 1 3 (some "KNOWS") acquainted-IsConsistent

refused : delete_node 1 false acquainted ≡ err value_error
unfolding delete_node create_node create_rel
refused = refl

persons : nodes_with_label "Person" acquainted ≡ 1 ∷ 2 ∷ []
unfolding nodes_with_label create_node create_rel
persons = refl
