-- ===== src/World/ShadowTypeMap/Propagate/Quiet.antt =====
-- A propagation of engine/src/world.rs that types nothing new leaves the projections as they are.
use Prim.Native.String.{String}
use text.Mathlib.TextEquality.{eq_iff}
use rtmap.Base.{
  ℕ, ◌-◌, ◌≡◌, ◌≢◌, refl, inl, inr, Bool, false, not, ◌||◌, Option, none, some, arith, ◌==◌,
  Bool-cases, if_rule,
}
use rtmap.Base.TreeMap.{get}
use rtmap.Dwarf.{TypeInfo, FieldInfo, name, is_pointer, field_type, field_name}
use rtmap.World.HeapAllocTracker.{HeapAllocTracker, alloc_seq}
use rtmap.World.ShadowTypeMap.{TypeProjection, StampResult, ShadowTypeMap, lookup}
use rtmap.World.ShadowTypeMap.Stamps.{
  Stamping, stamp_type-Stamping, refused, fresh, same, stale, conflicting, reused,
}
use rtmap.World.ShadowTypeMap.Propagate.{
  Registry, indirect_lookup, stamp_element, count_indirect, stamp_pointee, register_element,
  follow_named, follow_field, propagate_struct, propagate_by, propagate_field_write, other_type,
  predates, strip_star, starts_with_star, nearest_covering, field_at, is_stamped,
}

-- The step typed something new, or every projection is as it was.
abbrev pub Quiet : ShadowTypeMap → ShadowTypeMap × Bool → Type 0
Quiet m out = out.1 ≡ false → out.0.projections ≡ m.projections

module _ (registry : Registry) (value seq : ℕ) (m : ShadowTypeMap) where
  stamp_element-Quiet : (t : TypeInfo) → Quiet m (stamp_element value t seq m)
  unfolding stamp_element count_indirect
  stamp_element-Quiet t = by_case (stamp_type-Stamping value t "<indirect>" seq m)
    where
      by_case :
          {out : ShadowTypeMap × StampResult}
          → Stamping value t "<indirect>" seq m out
          → Quiet m (count_indirect out)
      by_case (refused why q) = rw q (λ h. refl)
      by_case (fresh addr size e q) = rw q (λ h. cc)
      by_case (same old e n q) = rw q (λ h. refl)
      by_case (stale old e n late q) = rw q (λ h. refl)
      by_case (conflicting old addr size e n le first q) = rw q (λ h. cc)
      by_case (reused old addr size e n le again q) = rw q (λ h. cc)

  stamp_pointee-Quiet :
      (t : TypeInfo) (source : String) → Quiet m (stamp_pointee value t source seq m)
  unfolding stamp_pointee lookup
  stamp_pointee-Quiet t source = elim (Bool-cases (other_type t (get value m.projections))) [
    | inl other ↦ rw other (λ h. refl)
    | inr agrees ↦ rw agrees (by_case agrees (stamp_type-Stamping value t source seq m))
  ]
    where
      agree :
          other_type t (get value m.projections) ≡ false
          → (old : TypeProjection) → get value m.projections ≡ some old
          → name old.type_info ≢ name t
          → ⊥
      agree agrees old e n = n ((eq_iff (name old.type_info) (name t)).0 (ground arith))

      by_case :
          {out : ShadowTypeMap × StampResult}
          → other_type t (get value m.projections) ≡ false
          → Stamping value t source seq m out
          → Quiet m (out.0, is_stamped out.1)
      by_case agrees (refused why q) = rw q (λ h. refl)
      by_case agrees (fresh addr size e q) = rw q (λ h. cc)
      by_case agrees (same old e n q) = rw q (λ h. refl)
      by_case agrees (stale old e n late q) = rw q (λ h. refl)
      by_case agrees (conflicting old addr size e n le first q) = absurd (agree agrees old e n)
      by_case agrees (reused old addr size e n le again q) = absurd (agree agrees old e n)

  register_element-Quiet : (o : Option TypeInfo) → Quiet m (register_element value o m)
  unfolding register_element
  register_element-Quiet none = λ h. refl
  register_element-Quiet (some inner) = λ h. refl

  follow_named-Quiet :
      (f : FieldInfo) (pointee : String) (o : Option TypeInfo)
      → Quiet m (follow_named registry value f seq m pointee o)
  unfolding follow_named
  follow_named-Quiet f pointee (some t) = stamp_pointee-Quiet t (field_name f)
  follow_named-Quiet f pointee none =
      if_rule (Quiet m) (starts_with_star pointee)
        (register_element-Quiet (registry (strip_star pointee))) (λ h. refl)

  follow_field-Quiet : (o : Option FieldInfo) → Quiet m (follow_field registry value seq m o)
  unfolding follow_field
  follow_field-Quiet none = λ h. refl
  follow_field-Quiet (some f) =
      if_rule (Quiet m) (is_pointer (field_type f))
        (follow_named-Quiet f (strip_star (name (field_type f)))
          (registry (strip_star (name (field_type f)))))
        (λ h. refl)

  propagate_struct-Quiet :
      (t : HeapAllocTracker) (addr size : ℕ) (o : Option TypeProjection)
      → Quiet m (propagate_struct registry t addr value size seq m o)
  unfolding propagate_struct
  propagate_struct-Quiet t addr size none = λ h. refl
  propagate_struct-Quiet t addr size (some p) =
      if_rule (Quiet m) (predates p (alloc_seq p.base_addr t)) (λ h. refl)
        (follow_field-Quiet (field_at p.type_info (addr - p.base_addr) size))

  propagate_by-Quiet :
      (t : HeapAllocTracker) (addr size : ℕ) (o : Option TypeInfo)
      → Quiet m (propagate_by registry t addr value size seq m o)
  unfolding propagate_by
  propagate_by-Quiet t addr size (some element) = stamp_element-Quiet element
  propagate_by-Quiet t addr size none = propagate_struct-Quiet t addr size (nearest_covering addr m)

  pub propagate-Quiet :
      (t : HeapAllocTracker) (addr size : ℕ)
      → Quiet m (propagate_field_write registry t addr value size seq m)
  unfolding propagate_field_write
  propagate-Quiet t addr size =
      if_rule (Quiet m) (not (size == 8) || value == 0) (λ h. refl)
        (propagate_by-Quiet t addr size (indirect_lookup addr t m))
