-- ===== src/Optimizer/Pushdown/Kept.antt =====
-- Putting an entry in a pattern: one node pattern of the variable gets it, and nothing else changes.
use cypherast.Prelude.{String, ◌≡◌, refl, sym, subst, Bool, true, false, none, some, if◌then◌else◌}
use package.text.Mathlib.Text.{◌==◌}
use cypherast.Prelude.Dict.{string_eq}
use cypherast.Prelude.Result.{Result, ok, err, ◌>>=◌}
use cypherast.Ast.{
  AstNode, AstNodes, OptNode, Entries, nil, cons, absent, present, end, entry, pattern,
  path_pattern, node_pattern, identifier, property, binary, eq, map_literal,
}
use cypherast.Optimizer.Pushdown.{
  Injection, elsewhere, blocked, injected, entries_of, has_key, with_entry, inject_element,
  inject_elements, inject_paths, path_after, inject_prop,
}

-- The second map is the first with the entry at its end.
pub data Extended (k : String) (v : AstNode) : Entries → Entries → Type 0 where
  at_end : Extended k v end (entry k v end)
  further_on :
      {j : String} {e : AstNode} {es fs : Entries}
      → Extended k v es fs
      → Extended k v (entry j e es) (entry j e fs)

abbrev pub is_map : AstNode → Bool
is_map (map_literal _) = true
is_map _ = false

-- The properties of a node pattern, before and after: a map is extended; where there are none, the
-- entry is the only one; properties that are no map (a parameter) give way to the entry.
pub data Grows (k : String) (v : AstNode) : OptNode → OptNode → Type 0 where
  extends :
      {es fs : Entries}
      → Extended k v es fs
      → Grows k v (present (map_literal es)) (present (map_literal fs))
  begins : Grows k v absent (present (map_literal (entry k v end)))
  replaces :
      {n : AstNode}
      → is_map n ≡ false
      → Grows k v (present n) (present (map_literal (entry k v end)))

-- One element of the path, a node pattern of `x`, has new properties; its variable, its labels and
-- its own predicate stay, and so does every other element.
pub data PutOnPath (x k : String) (v : AstNode) : AstNodes → AstNodes → Type 0 where
  at_node :
      {labels properties after condition : OptNode} {es : AstNodes}
      → Grows k v properties after
      → PutOnPath x k v
          (cons (node_pattern (present (identifier x)) labels properties condition) es)
          (cons (node_pattern (present (identifier x)) labels after condition) es)
  past_node :
      {e : AstNode} {es fs : AstNodes}
      → PutOnPath x k v es fs
      → PutOnPath x k v (cons e es) (cons e fs)

-- One path has it, and the others stay.
pub data PutInPaths (x k : String) (v : AstNode) : AstNodes → AstNodes → Type 0 where
  in_path :
      {p : OptNode} {es fs ps : AstNodes}
      → PutOnPath x k v es fs
      → PutInPaths x k v (cons (path_pattern p es) ps) (cons (path_pattern p fs) ps)
  past_path :
      {p : AstNode} {ps qs : AstNodes}
      → PutInPaths x k v ps qs
      → PutInPaths x k v (cons p ps) (cons p qs)

-- The equation `x.k = v` has become an entry of the pattern, and nothing else of it has changed.
pub data Put : AstNode → AstNode → AstNode → Type 0 where
  puts :
      {x k : String} {v : AstNode} {ps qs : AstNodes}
      → PutInPaths x k v ps qs
      → Put (binary eq (property (identifier x) k) v) (pattern ps) (pattern qs)

with_entry-Extended :
    (es : Entries) (k : String) (v : AstNode) → Extended k v es (with_entry es k v)
with_entry-Extended end k v = at_end
with_entry-Extended (entry j e es) k v = further_on (with_entry-Extended es k v)

injected-injective {ℓ} : {A : Type ℓ} {a b : A} → injected a ≡ injected b → a ≡ b
injected-injective p = cc

module _ (var prop : String) (value : AstNode) where
  entries-Grows :
      (o : OptNode)
      → Grows prop value o (present (map_literal (with_entry (entries_of o) prop value)))
  entries-Grows absent = begins
  entries-Grows (present (map_literal es)) = extends (with_entry-Extended es prop value)
  entries-Grows (present n) = replaces refl

  -- The element that the entry has been put in.
  element-put :
      (e f : AstNode) (es : AstNodes)
      → inject_element var prop value e ≡ injected f
      → PutOnPath var prop value (cons e es) (cons f es)
  unfolding inject_element
  element-put (node_pattern (present (identifier x)) labels properties condition) f es h =
      named (x == var) refl (has_key prop (entries_of properties)) h
    where
      after : OptNode
      after = present (map_literal (with_entry (entries_of properties) prop value))

      same_name :
          var ≡ x
          → PutOnPath var prop value
              (cons (node_pattern (present (identifier x)) labels properties condition) es)
              (cons (node_pattern (present (identifier x)) labels after condition) es)
      same_name i =
          subst
            (λ y.
              PutOnPath var prop value
                (cons (node_pattern (present (identifier y)) labels properties condition) es)
                (cons (node_pattern (present (identifier y)) labels after condition) es))
            i (at_node (entries-Grows properties))

      named :
          (a : Bool)
          → (x == var) ≡ a
          → (b : Bool)
          → (if a
              then if b
                then blocked
                else injected (node_pattern (present (identifier x)) labels after condition)
              else elsewhere)
            ≡ injected f
          → PutOnPath var prop value
              (cons (node_pattern (present (identifier x)) labels properties condition) es)
              (cons f es)
      named true i true e = cc
      named false i b e = cc
      named true i false e =
          subst
            (λ n.
              PutOnPath var prop value
                (cons (node_pattern (present (identifier x)) labels properties condition) es)
                (cons n es))
            (injected-injective e) (same_name (sym ((string_eq.beq_iff x var).0 i)))
  element-put _ f es h = cc

  elements-put :
      (es fs : AstNodes)
      → inject_elements var prop value es ≡ injected fs
      → PutOnPath var prop value es fs
  unfolding inject_elements
  elements-put nil fs h = cc
  elements-put (cons e es) fs h =
      pick (inject_element var prop value e) refl (inject_elements var prop value es) refl h
        (λ gs p. elements-put es gs p)
    where
      pick :
          (i : Injection AstNode)
          → inject_element var prop value e ≡ i
          → (r : Injection AstNodes) → inject_elements var prop value es ≡ r
          → elim i [
            | injected n ↦ injected (cons n es)
            | blocked ↦ blocked
            | elsewhere ↦ elim r [
              | injected ns ↦ injected (cons e ns)
              | blocked ↦ blocked
              | elsewhere ↦ elsewhere
            ]
          ]
            ≡ injected fs
          → ((gs : AstNodes)
              → inject_elements var prop value es ≡ injected gs
              → PutOnPath var prop value es gs)
          → PutOnPath var prop value (cons e es) fs
      pick (injected n) i r j h below =
          subst (PutOnPath var prop value (cons e es)) (injected-injective h) (element-put e n es i)
      pick blocked i r j h below = cc
      pick elsewhere i (injected ns) j h below =
          subst (PutOnPath var prop value (cons e es)) (injected-injective h)
            (past_node (below ns j))
      pick elsewhere i blocked j h below = cc
      pick elsewhere i elsewhere j h below = cc

  paths-put :
      (ps qs : AstNodes)
      → inject_paths var prop value ps ≡ ok (injected qs)
      → PutInPaths var prop value ps qs
  unfolding inject_paths
  paths-put nil qs h = cc
  paths-put (cons (path_pattern p es) ps) qs h =
      pick (inject_elements var prop value es) refl (inject_paths var prop value ps) refl h
        (λ rs e. paths-put ps rs e)
    where
      pick :
          (i : Injection AstNodes)
          → inject_elements var prop value es ≡ i
          → (r : Result (Injection AstNodes)) → inject_paths var prop value ps ≡ r
          → path_after p es ps i r ≡ ok (injected qs)
          → ((rs : AstNodes)
              → inject_paths var prop value ps ≡ ok (injected rs)
              → PutInPaths var prop value ps rs)
          → PutInPaths var prop value (cons (path_pattern p es) ps) qs
      pick (injected ns) i r j h below =
          let e : cons (path_pattern p ns) ps ≡ qs = cc in
          subst (PutInPaths var prop value (cons (path_pattern p es) ps)) e
            (in_path (elements-put es ns i))
      pick blocked i r j h below = cc
      pick elsewhere i (ok (injected rs)) j h below =
          let e : cons (path_pattern p es) rs ≡ qs = cc in
          subst (PutInPaths var prop value (cons (path_pattern p es) ps)) e (past_path (below rs j))
      pick elsewhere i (ok blocked) j h below = cc
      pick elsewhere i (ok elsewhere) j h below = cc
      pick elsewhere i (err x) j h below = cc
  paths-put (cons _ ps) qs h = cc

  pub inject_prop-Put :
      (pat new : AstNode)
      → inject_prop var prop value pat ≡ ok (some new)
      → Put (binary eq (property (identifier var) prop) value) pat new
  unfolding inject_prop
  inject_prop-Put (pattern ps) new h = pick (inject_paths var prop value ps) refl h
    where
      pick :
          (r : Result (Injection AstNodes))
          → inject_paths var prop value ps ≡ r
          → (r >>= λ i. elim i [
            | injected qs ↦ ok (some (pattern qs))
            | blocked ↦ ok none
            | elsewhere ↦ ok none
          ])
            ≡ ok (some new)
          → Put (binary eq (property (identifier var) prop) value) (pattern ps) new
      pick (ok (injected qs)) j h =
          let e : pattern qs ≡ new = cc in
          subst (Put (binary eq (property (identifier var) prop) value) (pattern ps)) e
            (puts (paths-put ps qs j))
      pick (ok blocked) j h = cc
      pick (ok elsewhere) j h = cc
      pick (err x) j h = cc
  inject_prop-Put _ new h = cc
