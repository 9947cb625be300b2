-- ===== src/Executor/Graph/Once.antt =====
-- `list.remove` of `delete_rel` (cypherast/executor/graph.py), which takes the first occurrence of an
-- id away, beside the `discard` of the model.
use Prim.Native.Nat.{ℕ}
use cypherast.Prelude.{◌≡◌, Bool, true, not, ◌&&◌, List, [], ◌∷◌, if◌then◌else◌, ◌==◌}
use cypherast.Prelude.Dict.{has, nat_eq}
use cypherast.Executor.Value.{Value}
use cypherast.Executor.Graph.{Graph, ids_at}
use cypherast.Executor.Graph.History.{History}

abbrev pub distinct : List ℕ → Bool
distinct [] = true
distinct (x ∷ xs) = not (has x xs) && distinct xs

-- xs.remove(k), where `k` is in the list
abbrev pub remove_first : ℕ → List ℕ → List ℕ
remove_first k [] = []
remove_first k (x ∷ xs) = if x == k then xs else x ∷ remove_first k xs

-- No list of the index holds an id twice.
abbrev pub IsDistinct : List (ℕ × List ℕ) → Type 0
IsDistinct m = (n : ℕ) → distinct (ids_at n m) ≡ true

-- No adjacency list of the graph holds an id twice.
pub record HasOnce (g : Graph) : Type 0 where
  pub out_once : IsDistinct g.out_index
  pub in_once : IsDistinct g.in_index
