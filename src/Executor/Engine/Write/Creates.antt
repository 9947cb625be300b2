-- ===== src/Executor/Engine/Write/Creates.antt =====
-- CREATE keeps the invariant of the graph where the nodes that its rows are bound to are in the
-- graph. `kept` are nodes that have to stay: those of the rows that follow.
use cypherast.Prelude.{
  ℕ, String, ◌≡◌, refl, ◌∙◌, subst, Bool, true, false, List, [], ◌∷◌, Option, none, some, arith,
  if◌then◌else◌, In, here, there,
}
use cypherast.Prelude.Dict.{lookup, has, has-append, lookup-insert, string_eq, nat_eq}
use cypherast.Prelude.Result.{Result, ok, err, type_error}
use cypherast.Ast.{
  AstNode, AstNodes, OptNode, Direction, incoming, outgoing, both, nil, cons, node_pattern,
  relationship_pattern, path_pattern, pattern,
}
use cypherast.Executor.Value.{Value, node_ref, rel_ref}
use cypherast.Executor.Graph.{Graph, create_node, create_rel}
use cypherast.Executor.Env.{Env}
use cypherast.Executor.Engine.Row.{Row, variable_of, labels_in, entries_in}
use cypherast.Executor.Engine.Action.{Action, done, reading, each, ◌>>=◌, Ends, Hoare, sequenced}
use cypherast.Executor.Engine.Sound.{IsSound, create_node-IsSound, create_rel-IsSound}
use cypherast.Executor.Engine.Write.{
  Props, without_nulls, bound_to, bound_node, clash, new_node, new_rel, first_type, eval_props,
  node_for, rel_for, started, create_path, create_paths, create_pattern, create_rows,
}

-- The nodes that a row is bound to are in the graph.
abbrev pub IsBoundIn : Row → Graph → Type 0
IsBoundIn row g = (x : String) (n : ℕ) → lookup x row ≡ some (node_ref n) → has n g.nodes ≡ true

-- The invariant, the nodes to be kept, and a row bound in the graph.
pub record Holds (kept : List ℕ) (row : Row) (g : Graph) : Type 0 where
  pub sound : IsSound g
  pub held : (n : ℕ) → has n kept ≡ true → has n g.nodes ≡ true
  pub row_in : IsBoundIn row g

abbrev Arrived : Option ℕ → Graph → Type 0
Arrived prev g = (n : ℕ) → prev ≡ some n → has n g.nodes ≡ true

arrived : (n : ℕ) (g : Graph) → has n g.nodes ≡ true → Arrived (some n) g
arrived n g h m p = let e : n ≡ m = cc in subst (λ k. has k g.nodes ≡ true) e h

module _ {kept : List ℕ} {row : Row} where
  grown :
      {g h : Graph}
      → ((n : ℕ) → has n g.nodes ≡ true → has n h.nodes ≡ true)
      → IsSound h
      → Holds kept row g
      → Holds kept row h
  grown up s v = record {
    sound = s;
    held = λ n p. up n (v.held n p);
    row_in = λ x n p. up n (v.row_in x n p);
  }

  bound_to-Holds :
      (x : Option String) (n : ℕ) {g : Graph}
      → has n g.nodes ≡ true
      → Holds kept row g
      → Holds kept (bound_to x (node_ref n) row) g
  bound_to-Holds none n p v = v
  bound_to-Holds (some x) n {g} p v = record {
    sound = v.sound;
    held = v.held;
    row_in = λ y m q. ground (arith, lookup-insert x y (node_ref n) row, v.row_in y m);
  }

  bound_rel-Holds :
      (x : Option String) (r : ℕ) {g : Graph}
      → Holds kept row g
      → Holds kept (bound_to x (rel_ref r) row) g
  bound_rel-Holds none r v = v
  bound_rel-Holds (some x) r {g} v = record {
    sound = v.sound;
    held = v.held;
    row_in = λ y m q. ground (arith, lookup-insert x y (rel_ref r) row, v.row_in y m);
  }

create_node-grows :
    (labels : List String) (props : Props) (g : Graph) (n : ℕ)
    → has n g.nodes ≡ true
    → has n (create_node labels props g).1.nodes ≡ true
unfolding create_node
create_node-grows labels props g n h = ground (arith, has-append n g.nodes (g.next_id ∷ []))

create_node-there :
    (labels : List String) (props : Props) (g : Graph)
    → has (create_node labels props g).0 (create_node labels props g).1.nodes ≡ true
unfolding create_node has
create_node-there labels props g = ground (arith, has-append g.next_id g.nodes (g.next_id ∷ []))

create_rel-grows :
    (s e : ℕ) (t : String) (props : Props) (g : Graph) (n : ℕ)
    → has n g.nodes ≡ true
    → has n (create_rel s e t props g).1.nodes ≡ true
unfolding create_rel
create_rel-grows s e t props g n h = h

module _ (kept : List ℕ) (row : Row) (prev : Option ℕ) where
  abbrev Before : Graph → Type 0
  Before g = Holds kept row g × Arrived prev g

  -- After an operation that gives a node of the graph.
  abbrev Given : ℕ → Graph → Type 0
  Given n g = Before g × (has n g.nodes ≡ true)

  new_node-Given :
      (labels : List String) (props : Props) → Hoare IsSound Before (new_node labels props) Given
  unfolding new_node Ends
  new_node-Given labels props = record {
    ends = λ g h. made g h (clash ("self" ∷ "labels" ∷ []) props);
  }
    where
      made :
          (g : Graph)
          → Before g
          → (b : Bool)
          → Ends IsSound Given (
              if b
              then (err type_error, g)
              else (let (n, h) = create_node labels props g in (ok n, h)))
      made g (v, a) true = v.sound
      made g (v, a) false = (
        (
          grown (create_node-grows labels props g) (create_node-IsSound labels props v.sound) v,
          λ n p. create_node-grows labels props g n (a n p),
        ),
        create_node-there labels props g,
      )

  reading-Before {ℓ} :
      {A : Type ℓ} (f : Graph → Result A) → Hoare IsSound Before (reading f) (λ a. Before)
  unfolding Ends
  reading-Before {A = A} f = record { ends = λ g h. read g h (f g) }
    where
      read : (g : Graph) → Before g → (r : Result A) → Ends IsSound (λ a. Before) (r, g)
      read g h (ok a) = h
      read g (v, a) (err e) = v.sound

  bound_node-there :
      (x : Option String) (n : ℕ) {g : Graph}
      → bound_node x row ≡ some n
      → Holds kept row g
      → has n g.nodes ≡ true
  bound_node-there none n p v = cc
  bound_node-there (some x) n {g} p v = at (lookup x row) refl p
    where
      at :
          (o : Option Value)
          → lookup x row ≡ o
          → elim o [ some (node_ref n) ↦ some n | _ ↦ none ] ≡ some n
          → has n g.nodes ≡ true
      at (some (node_ref m)) is p = v.row_in x n (is ∙ cc)
      at none is p = cc
      at (some _) is p = cc

module _ (ev : AstNode → Env → Result Value) (params : Row) (kept : List ℕ) where
  module _ (row : Row) (prev : Option ℕ) where
    node_for-Given :
        (variable labels properties : OptNode)
        → Hoare IsSound
            (Before kept row prev)
            (node_for ev params variable labels properties row)
            (Given kept row prev)
    unfolding node_for
    node_for-Given variable labels properties = pick (bound_node (variable_of variable) row) refl
      where
        pick :
            (o : Option ℕ)
            → bound_node (variable_of variable) row ≡ o
            → Hoare IsSound
                (Before kept row prev)
                (elim o [
                  | some n ↦ done n
                  | none ↦ reading (eval_props ev params (entries_in properties) row []) >>= λ m.
                      new_node (labels_in labels) (without_nulls m)
                ])
                (Given kept row prev)
        pick (some n) is =
            unfold Ends in
            record {
              ends = λ g h. (h, bound_node-there kept row prev (variable_of variable) n is h.0);
            }
        pick none is =
            sequenced
              (reading-Before kept row prev (eval_props ev params (entries_in properties) row []))
              (λ m. new_node-Given kept row prev (labels_in labels) (without_nulls m))

  module _ (row : Row) (s e : ℕ) where
    -- Both ends of a relationship are in the graph.
    abbrev Joined : Graph → Type 0
    Joined g = Holds kept row g × (has s g.nodes ≡ true) × (has e g.nodes ≡ true)

    reading-Joined {ℓ} :
        {A : Type ℓ} (f : Graph → Result A) → Hoare IsSound Joined (reading f) (λ a. Joined)
    unfolding Ends
    reading-Joined {A = A} f = record { ends = λ g h. read g h (f g) }
      where
        read : (g : Graph) → Joined g → (r : Result A) → Ends IsSound (λ a. Joined) (r, g)
        read g h (ok a) = h
        read g h (err e) = h.0.sound

    -- From `a` to `b`, which are the two ends in one order or the other.
    new_rel-Joined :
        (a b : ℕ) (t : String) (props : Props)
        → ((g : Graph) → Joined g → (has a g.nodes ≡ true) × (has b g.nodes ≡ true))
        → Hoare IsSound Joined (new_rel a b t props) (λ r. Joined)
    unfolding new_rel Ends
    new_rel-Joined a b t props ends_in = record {
      ends = λ g h. made g h (clash ("self" ∷ "start" ∷ "end" ∷ "type" ∷ []) props);
    }
      where
        made :
            (g : Graph)
            → Joined g
            → (c : Bool)
            → Ends IsSound
                (λ r. Joined)
                (if c
                  then (err type_error, g)
                  else (let (r, h) = create_rel a b t props g in (ok r, h)))
        made g (v, p, q) true = v.sound
        made g (v, p, q) false =
            let (pa, pb) = ends_in g (v, p, q) in
            let up = create_rel-grows a b t props g in
            (grown up (create_rel-IsSound a b t props v.sound pa pb) v, up s p, up e q)

    rel_for-Joined :
        (types : List String) (properties : OptNode) (direction : Direction)
        → Hoare IsSound Joined (rel_for ev params types properties direction s e row) (λ r. Joined)
    unfolding rel_for
    rel_for-Joined types properties incoming =
        sequenced (reading-Joined (eval_props ev params (entries_in properties) row []))
          (λ m. new_rel-Joined e s (first_type types) (without_nulls m) (λ g j. (j.2, j.1)))
    rel_for-Joined types properties outgoing =
        sequenced (reading-Joined (eval_props ev params (entries_in properties) row []))
          (λ m. new_rel-Joined s e (first_type types) (without_nulls m) (λ g j. (j.1, j.2)))
    rel_for-Joined types properties both =
        sequenced (reading-Joined (eval_props ev params (entries_in properties) row []))
          (λ m. new_rel-Joined s e (first_type types) (without_nulls m) (λ g j. (j.1, j.2)))

  weaker {ℓ} :
      {A : Type ℓ} {P R : Graph → Type 0} {m : Action A} {Q : A → Graph → Type 0}
      → ((g : Graph) → R g → P g)
      → Hoare IsSound P m Q
      → Hoare IsSound R m Q
  weaker f p = record { ends = λ g h. p.ends g (f g h) }

  started-Joined :
      (row : Row) (x : Option String) (prev : Option ℕ) (n : ℕ)
      → Hoare IsSound
          (Given kept row prev n)
          (started prev)
          (λ t. Joined (bound_to x (node_ref n) row) t n)
  unfolding Ends
  started-Joined row x none n = record { ends = λ g h. h.0.0.sound }
  started-Joined row x (some s) n = record {
    ends = λ g h. (bound_to-Holds x n h.1 h.0.0, h.0.1 s refl, h.1);
  }

  -- `create_path` on every list of elements.
  create_path-Holds :
      (es : AstNodes) (prev : Option ℕ) (row : Row)
      → Hoare IsSound (Before kept row prev) (create_path ev params es prev row) (λ r. Holds kept r)
  unfolding create_path
  create_path-Holds nil prev row = unfold Ends in record { ends = λ g h. h.0 }
  create_path-Holds (cons (node_pattern v labels properties c) rest) prev row =
      sequenced (node_for-Given row prev v labels properties) (λ n.
        weaker (λ g h. (bound_to-Holds (variable_of v) n h.1 h.0.0, arrived n g h.1))
          (create_path-Holds rest (some n) (bound_to (variable_of v) (node_ref n) row)))
  create_path-Holds (cons (relationship_pattern v types rp d low high l c q w z) nil) prev row =
      unfold Ends in record { ends = λ g h. h.0.sound }
  create_path-Holds
        (cons
          (relationship_pattern v types rp d low high l c q w z)
          (cons (node_pattern nv labels np nc) rest))
        prev row =
      sequenced (node_for-Given row prev nv labels np) (λ n.
        let row1 = bound_to (variable_of nv) (node_ref n) row in
        sequenced (started-Joined row (variable_of nv) prev n) (λ t.
          sequenced (rel_for-Joined row1 t n types rp d) (λ r.
            weaker (λ g h. (bound_rel-Holds (variable_of v) r h.0, arrived n g h.2))
              (create_path-Holds rest (some n) (bound_to (variable_of v) (rel_ref r) row1)))))
  create_path-Holds (cons (relationship_pattern v types rp d low high l c q w z) (cons _ rest)) prev
        row =
      unfold Ends in record { ends = λ g h. h.0.sound }
  create_path-Holds (cons _ rest) prev row = create_path-Holds rest prev row

  create_paths-Holds :
      (ps : AstNodes) (row : Row)
      → Hoare IsSound (Holds kept row) (create_paths ev params ps row) (λ r. Holds kept r)
  unfolding create_paths
  create_paths-Holds nil row = unfold Ends in record { ends = λ g h. h }
  create_paths-Holds (cons (path_pattern v es) ps) row =
      sequenced (weaker (λ g h. (h, λ n p. cc)) (create_path-Holds es none row))
        (λ r. create_paths-Holds ps r)
  create_paths-Holds (cons _ ps) row = unfold Ends in record { ends = λ g h. h.sound }

  pub create_pattern-Holds :
      (pat : AstNode) (row : Row)
      → Hoare IsSound (Holds kept row) (create_pattern ev params pat row) (λ r. Holds kept r)
  create_pattern-Holds (pattern paths) row = create_paths-Holds paths row
  create_pattern-Holds _ row = unfold Ends in record { ends = λ g h. h.sound }

  bare : {row : Row} {g : Graph} → Holds kept row g → Holds kept [] g
  unfolding lookup
  bare v = record { sound = v.sound; held = v.held; row_in = λ x n p. cc }

  created_all :
      (pat : AstNode) (rows : List Row)
      → ((row : Row)
          → In row rows
          → (x : String) (n : ℕ) → lookup x row ≡ some (node_ref n)
          → has n kept ≡ true)
      → Hoare IsSound
          (Holds kept [])
          (each (create_pattern ev params pat) rows)
          (λ rs. Holds kept [])
  unfolding each
  created_all pat [] inside = unfold Ends in record { ends = λ g h. h }
  created_all pat (row ∷ rows) inside =
      sequenced
        (weaker
          (λ g h. record {
            sound = h.sound;
            held = h.held;
            row_in = λ x n p. h.held n (inside row here x n p);
          })
          (create_pattern-Holds pat row))
        (λ r.
          weaker (λ g h. bare h)
            (sequenced (created_all pat rows (λ row i. inside row (there i)))
              (λ rs. finish (r ∷ rs))))
    where
      finish : (rs : List Row) → Hoare IsSound (Holds kept []) (done rs) (λ rs. Holds kept [])
      finish rs = unfold Ends in record { ends = λ g h. h }

  created :
      (pat : AstNode) (rows : List Row)
      → ((row : Row)
          → In row rows
          → (x : String) (n : ℕ) → lookup x row ≡ some (node_ref n)
          → has n kept ≡ true)
      → Hoare IsSound (Holds kept []) (create_rows ev params pat rows) (λ rs. Holds kept [])
  unfolding create_rows
  created pat [] inside =
      sequenced (create_pattern-Holds pat []) (λ r. weaker (λ g h. bare h) (finish (r ∷ [])))
    where
      finish : (rs : List Row) → Hoare IsSound (Holds kept []) (done rs) (λ rs. Holds kept [])
      finish rs = unfold Ends in record { ends = λ g h. h }
  created pat (row ∷ rows) inside = created_all pat (row ∷ rows) inside

pub ended {ℓ} :
    {A : Type ℓ} (Q : A → Graph → Type 0)
    → ((a : A) (g : Graph) → Q a g → IsSound g)
    → (r : Result A × Graph) → Ends IsSound Q r
    → IsSound r.1
unfolding Ends
ended Q f (err e, h) p = p
ended Q f (ok a, h) p = f a h p

-- CREATE on any rows whose node bindings are nodes of the graph leaves a sound graph sound, whether
-- it raises or not: adjacency, label sets and ids agree, and no relationship has an end outside.
pub create_rows-IsSound :
    (ev : AstNode → Env → Result Value) (params : Row) (pat : AstNode) (rows : List Row) {g : Graph}
    → IsSound g
    → ((row : Row) → In row rows → IsBoundIn row g)
    → IsSound (create_rows ev params pat rows g).1
create_rows-IsSound ev params pat rows {g} s inside =
    ended (λ rs. Holds g.nodes []) (λ rs h v. v.sound) (create_rows ev params pat rows g)
      ((created ev params g.nodes pat rows inside).ends g
        (record { sound = s; held = λ n h. h; row_in = λ x n p. unfold lookup in cc }))
