-- ===== src/Executor/Graph/Indexes.antt =====
-- What the updates of the adjacency and label indexes leave at each key.
use Prim.Native.Nat.{ℕ}
use cypherast.Prelude.{String, ◌≡◌, ◌∙◌, not, ◌&&◌, ◌||◌, List, [], ◌∷◌, if◌then◌else◌, ◌==◌, arith}
use cypherast.Prelude.Dict.{
  lookup, insert, modify, has, add, discard, string_eq, nat_eq, lookup-insert, lookup-modify,
  has-add, has-discard,
}
use cypherast.Executor.Graph.{ids, ids_at, ids_with, index_labels, unindex_labels}

pub ids_at-insert :
    (n k : ℕ) (l : List ℕ) (m : List (ℕ × List ℕ))
    → ids_at n (insert k l m) ≡ (if k == n then l else ids_at n m)
unfolding ids_at
ids_at-insert n k l m = ground (arith, lookup-insert k n l m)

pub has-ids_at-modify :
    (n r k s : ℕ) (m : List (ℕ × List ℕ))
    → has r (ids_at n (modify k (discard s) m)) ≡ (not ((k == n) && (s == r)) && has r (ids_at n m))
unfolding ids_at has
has-ids_at-modify n r k s m =
    ground (arith, lookup-modify k n (discard s) m, has-discard s r (ids (lookup n m)))

has-index_label :
    (nid n : ℕ) (l k : String) (m : List (String × List ℕ))
    → has n (ids_with l (insert k (add nid (ids_with k m)) m))
      ≡ (((nid == n) && string_eq.beq k l) || has n (ids_with l m))
unfolding ids_with has
has-index_label nid n l k m = ground (
  arith,
  lookup-insert k l (add nid (ids_with k m)) m,
  has-add nid n (ids_with k m),
  string_eq.beq_iff k l,
)

has-unindex_label :
    (nid n : ℕ) (l k : String) (m : List (String × List ℕ))
    → has n (ids_with l (modify k (discard nid) m))
      ≡ (not ((nid == n) && string_eq.beq k l) && has n (ids_with l m))
unfolding ids_with has
has-unindex_label nid n l k m = ground (
  arith,
  lookup-modify k l (discard nid) m,
  has-discard nid n (ids (lookup l m)),
  string_eq.beq_iff k l,
)

pub has-index_labels :
    (nid n : ℕ) (l : String) (ls : List String) (m : List (String × List ℕ))
    → has n (ids_with l (index_labels nid ls m))
      ≡ (((nid == n) && has l ls) || has n (ids_with l m))
unfolding has index_labels
has-index_labels nid n l [] m = ground arith
has-index_labels nid n l (k ∷ ls) m =
    has-index_labels nid n l ls (insert k (add nid (ids_with k m)) m)
    ∙ ground (arith, has-index_label nid n l k m)

pub has-unindex_labels :
    (nid n : ℕ) (l : String) (ls : List String) (m : List (String × List ℕ))
    → has n (ids_with l (unindex_labels nid ls m))
      ≡ (not ((nid == n) && has l ls) && has n (ids_with l m))
unfolding has unindex_labels
has-unindex_labels nid n l [] m = ground arith
has-unindex_labels nid n l (k ∷ ls) m =
    has-unindex_labels nid n l ls (modify k (discard nid) m)
    ∙ ground (arith, has-unindex_label nid n l k m)
