-- ===== src/Planner/Cache.antt =====
-- cypherast/planner/cache.py: the plan cache, which drops its oldest entry when it is full. The
-- normalisation of the key (`cache_key`) is two regular expressions, and is not modelled.
use Prim.Native.Nat.{ℕ, suc, ◌<◌, ◌≤◌}
use cypherast.Prelude.{
  String, ◌≡◌, refl, List, [], ◌∷◌, Option, some, if◌then◌else◌, leb, length, arith, Bool-cases,
  inl, inr,
}
use cypherast.Prelude.Dict.{lookup, insert, string_eq, lookup-insert}
use cypherast.Prelude.Result.{Result, ok, err, stop_iteration, ◌>>=◌}
use cypherast.Planner.PhysicalOps.{PhysicalOp}

pub record PlanCache : Type 0 where
  pub max_size : ℕ
  pub store : List (String × PhysicalOp)

-- self._store.pop(next(iter(self._store))), where `next` raises on an empty store
abbrev evict : List (String × PhysicalOp) → Result (List (String × PhysicalOp))
evict [] = err stop_iteration
evict (p ∷ ps) = ok ps

unfoldable pub get : String → PlanCache → Option PhysicalOp
unfolding lookup
get key c = lookup key c.store

unfoldable pub put : String → PhysicalOp → PlanCache → Result PlanCache
unfolding insert
put key plan c =
    if leb c.max_size (length c.store)
    then evict c.store >>= (λ left. ok (record c { store = insert key plan left }))
    else ok (record c { store = insert key plan c.store })

unfoldable pub clear : PlanCache → PlanCache
clear c = record c { store = [] }

length-insert-le :
    (k : String) (v : PhysicalOp) (m : List (String × PhysicalOp))
    → length (insert k v m) ≤ suc (length m)
unfolding insert
length-insert-le k v [] = omega arith
length-insert-le k v ((j, w) ∷ m) = ground (arith, length-insert-le k v m)

evict-length :
    (m : List (String × PhysicalOp))
    → 0 < length m
    → (left : List (String × PhysicalOp)) × (evict m ≡ ok left) × (suc (length left) ≡ length m)
evict-length [] h = absurd (omega arith)
evict-length (p ∷ ps) h = (ps, refl, refl)

-- A put into a cache of positive size that is not overfull succeeds; it keeps the number of plans
-- within the size, and what was put is found.
pub put-bounded :
    (key : String) (plan : PhysicalOp) (c : PlanCache)
    → 0 < c.max_size
    → length c.store ≤ c.max_size
    → (d : PlanCache) × (put key plan c ≡ ok d)
      × (length d.store ≤ d.max_size)
      × (get key d ≡ some plan)
unfolding put get
put-bounded key plan c pos h = elim (Bool-cases (leb c.max_size (length c.store))) [
  | inr room ↦ (
    record c { store = insert key plan c.store },
    rw room,
    ground (arith, length-insert-le key plan c.store),
    ground (arith, lookup-insert key key plan c.store, string_eq.beq_iff key key),
  )
  | inl full ↦
      let (left, e, n) = evict-length c.store (ground arith) in
      (
        record c { store = insert key plan left },
        rw (full, e),
        ground (arith, length-insert-le key plan left),
        ground (arith, lookup-insert key key plan left, string_eq.beq_iff key key),
      )
]
