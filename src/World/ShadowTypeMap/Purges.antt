-- ===== src/World/ShadowTypeMap/Purges.antt =====
-- `purge_range` and `defer_write` of the type map of engine/src/world.rs.
use rtmap.Base.{
  ℕ, ◌+◌, ◌≡◌, ap, ◌∙◌, [], ◌∷◌, none, arith, if◌then◌else◌, length, retain, All, All-retain,
  length-retain-le,
}
use rtmap.Base.TreeMap.{TreeMap, get, get-retain, retain-cong, retain-Above}
use rtmap.Circular.{keep_last, evict-keep_last, length-keep_last}
use rtmap.World.ShadowTypeMap.{
  TypeProjection, ShadowTypeMap, DeferredWrite, purge_range, lookup, outside, defer_write,
  deferred_cap,
}
use rtmap.World.ShadowTypeMap.Stamps.{IsValid, IsKeyed}

-- Freeing a range drops exactly the projections whose base lies in it, keeps the map valid, and
-- answers how many were dropped.
pub lookup-purge_range :
    (addr size : ℕ) (m : ShadowTypeMap)
    → IsValid m
    → let (m', dropped) = purge_range addr size m in
      IsValid m'
      × ((a : ℕ) → lookup a m' ≡ (if outside addr size a then lookup a m else none))
      × (length m'.projections + dropped ≡ length m.projections)
unfolding purge_range lookup
lookup-purge_range addr size m v = (
  record {
    ordered = retain-Above _ 0 m.projections v.ordered;
    keyed = All-retain IsKeyed _ m.projections v.keyed;
    buffered = v.buffered;
  },
  λ a. ap (get a) by_key ∙ get-retain (outside addr size) a m.projections,
  omega (
    arith,
    length-retain-le (λ (e : ℕ × TypeProjection). outside addr size e.1.base_addr) m.projections,
  ),
)
  where
    agree :
        (xs : TreeMap TypeProjection)
        → All IsKeyed xs
        → All (λ e. outside addr size e.1.base_addr ≡ outside addr size e.0) xs
    agree [] k = tt
    agree (e ∷ xs) k = (ap (outside addr size) k.0.0, agree xs k.1)

    by_key :
        retain (λ (e : ℕ × TypeProjection). outside addr size e.1.base_addr) m.projections
        ≡ retain (λ e. outside addr size e.0) m.projections
    by_key = retain-cong _ _ m.projections (agree m.projections v.keyed)

-- The waiting writes are a bounded history: a new one comes last, the oldest goes exactly when the
-- buffer is full, and the map stays valid.
pub deferred-defer_write :
    (addr value seq : ℕ) (m : ShadowTypeMap)
    → IsValid m
    → let m' = defer_write addr value seq m in
      IsValid m'
      × (m'.deferred
          ≡ keep_last deferred_cap m.deferred
              (record { write_addr = addr; write_value = value; seq = seq }))
unfolding defer_write
deferred-defer_write addr value seq m v =
    let e : DeferredWrite = record { write_addr = addr; write_value = value; seq = seq } in
    let evicted = evict-keep_last deferred_cap m.deferred e (omega arith) v.buffered in
    (
      record {
        ordered = v.ordered;
        keyed = v.keyed;
        buffered = omega (arith, ap length evicted, length-keep_last deferred_cap m.deferred e);
      },
      evicted,
    )
