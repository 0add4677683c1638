-- ===== src/World/ShadowTypeMap/Propagate/Safety.antt =====
-- What `propagate_field_write` of engine/src/world.rs may change.
use Prim.Native.String.{String}
use rtmap.Base.{ℕ, ◌-◌, ◌≡◌, refl, ap, ◌∙◌, not, ◌||◌, Option, none, some, arith, ◌==◌, if_rule}
use rtmap.Base.TreeMap.{get}
use rtmap.Dwarf.{TypeInfo, FieldInfo, name, is_pointer, field_type, field_name}
use rtmap.World.HeapAllocTracker.{HeapAllocTracker, alloc_seq}
use rtmap.World.ShadowTypeMap.{TypeProjection, StampResult, ShadowTypeMap, stamp_type, lookup}
use rtmap.World.ShadowTypeMap.Stamps.{
  IsValid, Effect, unchanged-Effect, stamp_type-Effect, Stamping, stamp_type-Stamping, refused,
  fresh, same, stale, conflicting, reused,
}
use rtmap.World.ShadowTypeMap.Propagate.{
  Registry, indirect_lookup, stamp_element, count_indirect, stamp_pointee, register_element,
  follow_named, follow_field, propagate_struct, propagate_by, propagate_field_write, other_type,
  is_new, predates, strip_star, starts_with_star, nearest_covering, field_at,
}

-- The map `m'` has the projections and the waiting writes of `m`.
abbrev SameTypes : ShadowTypeMap → ShadowTypeMap → Type 0
SameTypes m m' = (m'.projections ≡ m.projections) × (m'.deferred ≡ m.deferred)

-- A predicate that a pointer write of `value` keeps: `stamp_type` at `value` keeps it, and it does
-- not look at the indirect map and the counters.
record IsKept {ℓ} (value : ℕ) (P : ShadowTypeMap → Type ℓ) : Type ℓ where
  by_stamp :
      (t : TypeInfo) (source : String) (seq : ℕ) (m : ShadowTypeMap)
      → P m
      → P (stamp_type value t source seq m).0
  by_types : (m m' : ShadowTypeMap) → SameTypes m m' → P m → P m'

module _ {ℓ} (value : ℕ) (P : ShadowTypeMap → Type ℓ) (kept : IsKept value P) where
  abbrev Keeps {κ} : {A : Type κ} → ShadowTypeMap × A → Type ℓ
  Keeps out = P out.0

  stamp_element-kept :
      (t : TypeInfo) (seq : ℕ) (m : ShadowTypeMap) → P m → P (stamp_element value t seq m).0
  unfolding stamp_element
  stamp_element-kept t seq m h =
      counted (stamp_type value t "<indirect>" seq m) (kept.by_stamp t "<indirect>" seq m h)
    where
      counted : (out : ShadowTypeMap × StampResult) → P out.0 → P (count_indirect out).0
      counted (m', res) h' = if_rule Keeps (is_new res) (kept.by_types m' _ (refl, refl) h') h'

  stamp_pointee-kept :
      (t : TypeInfo) (source : String) (seq : ℕ) (m : ShadowTypeMap)
      → P m
      → P (stamp_pointee value t source seq m).0
  unfolding stamp_pointee
  stamp_pointee-kept t source seq m h =
      if_rule Keeps (other_type t (get value m.projections)) h (kept.by_stamp t source seq m h)

  register_element-kept :
      (o : Option TypeInfo) (m : ShadowTypeMap) → P m → P (register_element value o m).0
  unfolding register_element
  register_element-kept none m h = h
  register_element-kept (some inner) m h = kept.by_types m _ (refl, refl) h

  follow_field-kept :
      (registry : Registry) (seq : ℕ) (m : ShadowTypeMap) (o : Option FieldInfo)
      → P m
      → P (follow_field registry value seq m o).0
  unfolding follow_field follow_named
  follow_field-kept registry seq m none h = h
  follow_field-kept registry seq m (some f) h =
      if_rule Keeps (is_pointer (field_type f)) (by_name (strip_star (name (field_type f)))) h
    where
      named :
          (pointee : String) (o : Option TypeInfo)
          → P (follow_named registry value f seq m pointee o).0
      named pointee (some t) = stamp_pointee-kept t (field_name f) seq m h
      named pointee none =
          if_rule Keeps (starts_with_star pointee)
            (register_element-kept (registry (strip_star pointee)) m h) h

      by_name :
          (pointee : String) → P (follow_named registry value f seq m pointee (registry pointee)).0
      by_name pointee = named pointee (registry pointee)

  propagate_by-kept :
      (registry : Registry) (t : HeapAllocTracker) (addr size seq : ℕ) (m : ShadowTypeMap)
      (o : Option TypeInfo)
      → P m
      → P (propagate_by registry t addr value size seq m o).0
  unfolding propagate_by propagate_struct
  propagate_by-kept registry t addr size seq m (some e) h = stamp_element-kept e seq m h
  propagate_by-kept registry t addr size seq m none h = in_struct (nearest_covering addr m)
    where
      in_struct :
          (o : Option TypeProjection) → P (propagate_struct registry t addr value size seq m o).0
      in_struct none = h
      in_struct (some p) =
          if_rule Keeps (predates p (alloc_seq p.base_addr t)) h
            (follow_field-kept registry seq m (field_at p.type_info (addr - p.base_addr) size) h)

  propagate-kept :
      (registry : Registry) (t : HeapAllocTracker) (addr size seq : ℕ) (m : ShadowTypeMap)
      → P m
      → P (propagate_field_write registry t addr value size seq m).0
  unfolding propagate_field_write
  propagate-kept registry t addr size seq m h =
      if_rule Keeps (not (size == 8) || value == 0) h
        (propagate_by-kept registry t addr size seq m (indirect_lookup addr t m) h)

-- A write of a pointer leaves the buffer of waiting writes alone.
stamp_type-deferred :
    (target : ℕ) (t : TypeInfo) (source : String) (seq : ℕ) (m : ShadowTypeMap)
    → (stamp_type target t source seq m).0.deferred ≡ m.deferred
stamp_type-deferred target t source seq m = by_case (stamp_type-Stamping target t source seq m)
  where
    by_case :
        {out : ShadowTypeMap × StampResult}
        → Stamping target t source seq m out
        → out.0.deferred ≡ m.deferred
    by_case (refused why q) = rw q
    by_case (fresh addr size e q) = rw q
    by_case (same old e n q) = rw q
    by_case (stale old e n late q) = rw q
    by_case (conflicting old addr size e n le first q) = rw q
    by_case (reused old addr size e n le again q) = rw q

Effect-trans :
    (value : ℕ) (m m' m'' : ShadowTypeMap)
    → Effect value m m'
    → Effect value m' m''
    → Effect value m m''
Effect-trans value m m' m'' a b = record {
  valid = b.valid;
  elsewhere = λ x ne. b.elsewhere x ne ∙ a.elsewhere x ne;
  newer = λ old e.
      let (mid, p, q) = a.newer old e in let (now, r, s) = b.newer mid p in (now, r, omega arith);
}

Effect-kept :
    (value : ℕ) (m : ShadowTypeMap)
    → IsKept value (λ m'. Effect value m m' × (m'.deferred ≡ m.deferred))
unfolding lookup
Effect-kept value m = record {
  by_stamp = λ t source seq m' h. (
    Effect-trans value m m' _ h.0 (stamp_type-Effect value t source seq m' h.0.valid),
    stamp_type-deferred value t source seq m' ∙ h.1,
  );
  by_types = λ m' m'' e h. (
    record {
      valid = record {
        ordered = rw e.0 h.0.valid.ordered;
        keyed = rw e.0 h.0.valid.keyed;
        buffered = rw e.1 h.0.valid.buffered;
      };
      elsewhere = λ x ne. ap (get x) e.0 ∙ h.0.elsewhere x ne;
      newer = λ old p. let (now, q, le) = h.0.newer old p in (now, ap (get value) e.0 ∙ q, le);
    },
    e.1 ∙ h.1,
  );
}

-- A pointer write keeps the map valid, changes no projection but that of the pointer's target,
-- never replaces it by an older stamp, and leaves the waiting writes alone.
pub propagate-Effect :
    (registry : Registry) (t : HeapAllocTracker) (addr value size seq : ℕ) (m : ShadowTypeMap)
    → IsValid m
    → let m' = (propagate_field_write registry t addr value size seq m).0 in
      Effect value m m' × (m'.deferred ≡ m.deferred)
propagate-Effect registry t addr value size seq m v =
    propagate-kept value _ (Effect-kept value m) registry t addr size seq m
      (unchanged-Effect value m v, refl)
