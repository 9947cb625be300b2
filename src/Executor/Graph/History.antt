-- ===== src/Executor/Graph/History.antt =====
-- Graphs as the operations build them: every history from the empty graph ends in a consistent one.
use Prim.Native.Nat.{ℕ}
use cypherast.Prelude.{String, ◌≡◌, refl, Bool, true, List}
use cypherast.Prelude.Dict.{has, nat_eq}
use cypherast.Prelude.Result.{ok}
use cypherast.Executor.Value.{Value}
use cypherast.Executor.Graph.{
  Graph, empty_graph, ids_at, ids_with, create_node, create_rel, delete_rel, delete_node,
}
use cypherast.Executor.Graph.Invariant.{
  IsConsistent, create_node-IsConsistent, create_rel-IsConsistent,
}
use cypherast.Executor.Graph.Deletion.{delete_rel-IsConsistent, delete_node-IsConsistent}

-- One operation on the graph. The executor creates a relationship between nodes of the graph.
pub data Step (g : Graph) : Graph → Type 0 where
  node_created :
      (labels : List String) (props : List (String × Value)) → Step g (create_node labels props g).1
  rel_created :
      (s e : ℕ) (type : String) (props : List (String × Value))
      → has s g.nodes ≡ true
      → has e g.nodes ≡ true
      → Step g (create_rel s e type props g).1
  rel_deleted : (rid : ℕ) → Step g (delete_rel rid g)
  node_deleted : (nid : ℕ) (detach : Bool) {h : Graph} → delete_node nid detach g ≡ ok h → Step g h

pub data History : Graph → Type 0 where
  began : History empty_graph
  then_step : {g h : Graph} → History g → Step g h → History h

pub empty_graph-IsConsistent : IsConsistent empty_graph
unfolding has ids_at ids_with
empty_graph-IsConsistent = record {
  node_fresh = λ n h. cc;
  rel_fresh = λ r h. cc;
  label_fresh = λ l n h. cc;
  node_known = λ n h. cc;
  rel_known = λ r h. cc;
  out_exact = λ n r. refl;
  in_exact = λ n r. refl;
  label_exact = λ l n h. cc;
  start_present = λ r n h k. cc;
  stop_present = λ r n h k. cc;
}

Step-IsConsistent : {g h : Graph} → IsConsistent g → Step g h → IsConsistent h
Step-IsConsistent v (node_created labels props) = create_node-IsConsistent labels props v
Step-IsConsistent v (rel_created s e type props hs he) =
    create_rel-IsConsistent s e type props v hs he
Step-IsConsistent v (rel_deleted rid) = delete_rel-IsConsistent rid v
Step-IsConsistent v (node_deleted nid detach e) = delete_node-IsConsistent nid v detach e

-- Every graph that the operations build from the empty one, in any order and whatever they delete,
-- is consistent, if each relationship is created between nodes of the graph.
pub History-IsConsistent : {g : Graph} → History g → IsConsistent g
History-IsConsistent began = empty_graph-IsConsistent
History-IsConsistent (then_step h s) = Step-IsConsistent (History-IsConsistent h) s
