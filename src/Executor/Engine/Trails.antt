-- ===== src/Executor/Engine/Trails.antt =====
-- `_var_expand` of cypherast/executor/engine.py: the trails of a variable-length pattern, breadth
-- first. A trail is the list of the ids of its relationships; `visited` is the set of them. The
-- queue is run on fuel, the number of trails there are, which `Trails/Ends` shows to be enough.
pub mod Ends
pub mod Steps
pub mod Exact
use Prim.Native.Nat.{ℕ, zero, suc, ◌+◌, ◌-◌}
use cypherast.Prelude.{
  String, Bool, true, false, not, ◌&&◌, ◌||◌, List, [], ◌∷◌, ◌++◌, Option, none, some,
  if◌then◌else◌, leb, ◌==◌,
}
use cypherast.Prelude.Dict.{lookup, has, nat_eq, string_eq}
use cypherast.Prelude.Result.{Result, ok, err, nontermination}
use cypherast.Ast.{Direction, outgoing, incoming, both}
use cypherast.Executor.Graph.{Graph, RelObject, out_rels, in_rels}

-- What the search reads of a relationship pattern.
pub record Hops : Type 0 where
  pub direction : Direction
  pub types : List String
  pub min_hops : ℕ
  pub max_hops : ℕ

-- An entry of the queue: a node, the depth, the relationships that lead there, and their ids.
pub record Trail : Type 0 where
  pub node : ℕ
  pub depth : ℕ
  pub rel_path : List ℕ
  pub visited : List ℕ

abbrev pub start_at : ℕ → Trail
start_at n = record { node = n; depth = 0; rel_path = []; visited = [] }

abbrev pub goes_out : Direction → Bool
goes_out incoming = false
goes_out _ = true

abbrev pub goes_in : Direction → Bool
goes_in outgoing = false
goes_in _ = true

-- The candidates at a node, outgoing ones first.
unfoldable pub incident : Graph → Direction → ℕ → List ℕ
unfolding out_rels in_rels
incident g direction n =
    (if goes_out direction then out_rels n none g else [])
    ++ (if goes_in direction then in_rels n none g else [])

-- not (types and rel.type not in types)
abbrev pub type_allowed : List String → Option RelObject → Bool
type_allowed [] o = true
type_allowed (t ∷ ts) none = false
type_allowed (t ∷ ts) (some rel) = has rel.rel_type (t ∷ ts)

-- rel.end if rel.start == n else rel.start
abbrev pub other_end : ℕ → Option RelObject → ℕ
other_end n none = n
other_end n (some rel) = if rel.start == n then rel.stop else rel.start

abbrev pub non_empty : List ℕ → Bool
non_empty [] = false
non_empty (_ ∷ _) = true

abbrev pub more : List (List ℕ × ℕ) → Option (List (List ℕ × ℕ)) → Option (List (List ℕ × ℕ))
more xs none = none
more xs (some ys) = some (xs ++ ys)

abbrev pub returned : Option (List (List ℕ × ℕ)) → Result (List (List ℕ × ℕ))
returned none = err nontermination
returned (some rs) = ok rs

abbrev pub sum_by {ℓ} : {A : Type ℓ} → (A → ℕ) → List A → ℕ
sum_by f [] = 0
sum_by f (x ∷ xs) = f x + sum_by f xs

module _ (g : Graph) (hops : Hops) where
  abbrev pub extended : Trail → ℕ → Trail
  extended t r = record {
    node = other_end t.node (lookup r g.rel_objects);
    depth = suc t.depth;
    rel_path = t.rel_path ++ (r ∷ []);
    visited = r ∷ t.visited;
  }

  -- The loop over the candidates; `seen_step` are those that it has taken.
  unfoldable pub steps : Trail → (seen_step candidates : List ℕ) → List Trail
  unfolding has lookup
  steps t seen [] = []
  steps t seen (r ∷ rs) =
      if has r t.visited || has r seen
      then steps t seen rs
      else if not (type_allowed hops.types (lookup r g.rel_objects))
      then steps t seen rs
      else if has (other_end t.node (lookup r g.rel_objects)) g.nodes
      then extended t r ∷ steps t (r ∷ seen) rs
      else steps t (r ∷ seen) rs

  -- What one entry puts into the queue.
  unfoldable pub children : Trail → List Trail
  unfolding steps incident
  children t =
      if leb hops.max_hops t.depth then [] else steps t [] (incident g hops.direction t.node)

  -- What one entry adds to the results.
  unfoldable pub found : Trail → List (List ℕ × ℕ)
  found t =
      if leb hops.min_hops t.depth
      then if ((t.depth == 0) && (hops.min_hops == 0)) || non_empty t.rel_path
        then (t.rel_path, t.node) ∷ []
        else []
      else []

  -- while q: ...
  unfoldable pub search_queue : (fuel : ℕ) → List Trail → Option (List (List ℕ × ℕ))
  unfolding children found
  search_queue fuel [] = some []
  search_queue zero (t ∷ q) = none
  search_queue (suc fuel) (t ∷ q) = more (found t) (search_queue fuel (q ++ children t))

  -- The number of trails that start with `t` and have at most `k` more relationships.
  unfoldable pub trails_from : (k : ℕ) → Trail → ℕ
  unfolding children
  trails_from zero t = 1
  trails_from (suc k) t = suc (sum_by (trails_from k) (children t))

  -- `_var_expand`
  unfoldable pub var_expand : ℕ → Result (List (List ℕ × ℕ))
  unfolding search_queue trails_from
  var_expand n = returned (search_queue (trails_from hops.max_hops (start_at n)) (start_at n ∷ []))
