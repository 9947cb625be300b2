-- ===== src/Optimizer/Pushdown/Conjuncts.antt =====
-- Pushing predicates down moves some conjuncts into the pattern and leaves the others.
use cypherast.Prelude.{
  String, ◌≡◌, refl, subst, Bool, true, false, ◌||◌, List, [], ◌∷◌, ◌++◌, Option, none, some,
  if◌then◌else◌,
}
use cypherast.Prelude.Result.{ok, ◌>>=◌, bound-ok, ok-injective}
use cypherast.Ast.{AstNode, identifier, property, binary, and, eq}
use cypherast.Optimizer.Pushdown.{
  inject_prop, Folded, try_fold, kept, both_of, folded_into, is_literal,
}
use cypherast.Optimizer.Pushdown.Kept.{Put, inject_prop-Put}

-- The operands of the conjunction that a predicate is.
abbrev pub conjuncts : AstNode → List AstNode
conjuncts (binary and l r) = conjuncts l ++ conjuncts r
conjuncts p = p ∷ []

abbrev pub conjuncts_left : Option AstNode → List AstNode
conjuncts_left none = []
conjuncts_left (some p) = conjuncts p

-- The first list falls into the two others, each in its order.
pub data Parted {ℓ} {A : Type ℓ} : List A → List A → List A → Type ℓ where
  done : Parted [] [] []
  moves : {x : A} {xs ms ls : List A} → Parted xs ms ls → Parted (x ∷ xs) (x ∷ ms) ls
  stays : {x : A} {xs ms ls : List A} → Parted xs ms ls → Parted (x ∷ xs) ms (x ∷ ls)

-- The equations become entries of the pattern, one after the other.
pub data PutAll : List AstNode → AstNode → AstNode → Type 0 where
  none_put : {p : AstNode} → PutAll [] p p
  put_next :
      {e p q r : AstNode} {es : List AstNode} → Put e p q → PutAll es q r → PutAll (e ∷ es) p r

abbrev pub any_moved : List AstNode → Bool
any_moved [] = false
any_moved (_ ∷ _) = true

-- What `_try_fold` makes of a predicate: the equations that moved into the pattern, in order.
pub record NoneLost (pred pat : AstNode) (f : Folded) : Type 0 where
  pub moved : List AstNode
  pub parted : Parted (conjuncts pred) moved (conjuncts_left f.remaining)
  pub put_all : PutAll moved pat f.left_pattern
  pub said : f.folded ≡ any_moved moved

module _ {ℓ} {A : Type ℓ} where
  Parted-append :
      {xs ms ls ys ns ks : List A}
      → Parted xs ms ls
      → Parted ys ns ks
      → Parted (xs ++ ys) (ms ++ ns) (ls ++ ks)
  Parted-append done q = q
  Parted-append (moves p) q = moves (Parted-append p q)
  Parted-append (stays p) q = stays (Parted-append p q)

  Parted-left : (xs : List A) → Parted xs [] xs
  Parted-left [] = done
  Parted-left (x ∷ xs) = stays (Parted-left xs)

  append_nil : (xs : List A) → (xs ++ []) ≡ xs
  append_nil [] = refl
  append_nil (x ∷ xs) = rw (append_nil xs)

PutAll-append :
    {es ds : List AstNode} {p q r : AstNode} → PutAll es p q → PutAll ds q r → PutAll (es ++ ds) p r
PutAll-append none_put g = g
PutAll-append (put_next e f) g = put_next e (PutAll-append f g)

any_moved-append : (es ds : List AstNode) → (any_moved es || any_moved ds) ≡ any_moved (es ++ ds)
any_moved-append [] ds = refl
any_moved-append (e ∷ es) ds = refl

both_of-conjuncts :
    (a b : Option AstNode) → (conjuncts_left a ++ conjuncts_left b) ≡ conjuncts_left (both_of a b)
both_of-conjuncts none b = refl
both_of-conjuncts (some l) none = append_nil (conjuncts l)
both_of-conjuncts (some l) (some r) = refl

kept-NoneLost : (pred pat : AstNode) → NoneLost pred pat (kept pred pat)
kept-NoneLost pred pat = record {
  moved = [];
  parted = Parted-left (conjuncts pred);
  put_all = none_put;
  said = refl;
}

and-NoneLost :
    (l r pat : AstNode) (a b : Folded)
    → NoneLost l pat a
    → NoneLost r a.left_pattern b
    → NoneLost (binary and l r) pat (record {
      remaining = both_of a.remaining b.remaining;
      folded = a.folded || b.folded;
      left_pattern = b.left_pattern;
    })
and-NoneLost l r pat a b p q = record {
  moved = p.moved ++ q.moved;
  parted =
      subst (Parted (conjuncts l ++ conjuncts r) (p.moved ++ q.moved))
        (both_of-conjuncts a.remaining b.remaining) (Parted-append p.parted q.parted);
  put_all = PutAll-append p.put_all q.put_all;
  said = rw (p.said, q.said, any_moved-append p.moved q.moved);
}

equation-NoneLost :
    (x prop : String) (value pat : AstNode) (o : Option AstNode)
    → inject_prop x prop value pat ≡ ok o
    → NoneLost
        (binary eq (property (identifier x) prop) value)
        pat
        (folded_into (binary eq (property (identifier x) prop) value) pat o)
equation-NoneLost x prop value pat none e =
    kept-NoneLost (binary eq (property (identifier x) prop) value) pat
equation-NoneLost x prop value pat (some new) e = record {
  moved = binary eq (property (identifier x) prop) value ∷ [];
  parted = moves done;
  put_all = put_next (inject_prop-Put x prop value pat new e) none_put;
  said = refl;
}

either_way :
    (b : Bool) (x prop : String) (value pat : AstNode) {f : Folded}
    → (if b
        then inject_prop x prop value pat
          >>= (λ new. ok (folded_into (binary eq (property (identifier x) prop) value) pat new))
        else ok (kept (binary eq (property (identifier x) prop) value) pat))
      ≡ ok f
    → NoneLost (binary eq (property (identifier x) prop) value) pat f
either_way true x prop value pat {f} e =
    let (new, i, e1) = bound-ok (inject_prop x prop value pat) _ e in
    subst (NoneLost (binary eq (property (identifier x) prop) value) pat) (ok-injective e1)
      (equation-NoneLost x prop value pat new i)
either_way false x prop value pat {f} e =
    subst (NoneLost (binary eq (property (identifier x) prop) value) pat) (ok-injective e)
      (kept-NoneLost (binary eq (property (identifier x) prop) value) pat)

-- Folding a MATCH's predicate into its pattern parts its conjuncts, in order, into those that are
-- left and equations that move into the pattern. The new pattern is the old one with one entry for
-- each equation that moved, at the end of the properties of a node pattern of its variable, and
-- nothing else of it changes, but that properties that are no map give way to the entry. The flag
-- says whether any moved.
pub try_fold-NoneLost :
    (pred pat : AstNode) {f : Folded} → try_fold pred pat ≡ ok f → NoneLost pred pat f
unfolding try_fold
try_fold-NoneLost (binary and l r) pat {f} e =
    let (a, p, e1) = bound-ok (try_fold l pat) _ e in
    let (b, q, e2) = bound-ok (try_fold r a.left_pattern) _ e1 in
    subst (NoneLost (binary and l r) pat) (ok-injective e2)
      (and-NoneLost l r pat a b (try_fold-NoneLost l pat p) (try_fold-NoneLost r a.left_pattern q))
try_fold-NoneLost (binary eq (property (identifier x) prop) value) pat e =
    either_way (is_literal value) x prop value pat e
try_fold-NoneLost pred pat e = subst (NoneLost pred pat) (ok-injective e) (kept-NoneLost pred pat)
