-- ===== src/World/ShadowTypeMap/Propagate/Replay.antt =====
-- `propagate_field_write` outside arrays of pointers, and `replay_deferred`, of engine/src/world.rs.
use Prim.Native.String.{String}
use text.Mathlib.TextEquality.{eq_iff}
use rtmap.Base.{
  ℕ, zero, suc, ◌+◌, ◌-◌, ◌≤◌, ◌≡◌, ◌≢◌, refl, sym, ap, ◌∙◌, inl, inr, Bool, false, not, ◌||◌, List,
  [], ◌∷◌, Option, none, some, arith, add64, leb, ◌==◌, ==_iff, if◌then◌else◌, length, retain,
  Bool-cases, Option-cases, if_rule, length-retain-le,
}
use rtmap.Base.TreeMap.{get, get-insert}
use rtmap.Dwarf.{TypeInfo, FieldInfo, name, is_pointer, field_type, field_name}
use rtmap.World.HeapAllocTracker.{HeapAllocTracker, alloc_seq, containing_alloc}
use rtmap.World.ShadowTypeMap.{
  TypeProjection, StampResult, ShadowTypeMap, DeferredWrite, stamp_type, lookup,
}
use rtmap.World.ShadowTypeMap.Stamps.{
  IsValid, Stamping, stamp_type-Stamping, projection, refused, fresh, same, stale, conflicting,
  reused,
}
use rtmap.World.ShadowTypeMap.Propagate.{
  Registry, indirect_lookup, stamp_pointee, register_element, follow_named, follow_field,
  propagate_struct, indirect_from, propagate_by, propagate_field_write, replay_hits, replay_pass,
  replay_passes, replay_deferred, is_covered, still_waiting, other_type, predates, strip_star,
  starts_with_star, nearest_covering, field_at, replay_max_passes,
}
use rtmap.World.ShadowTypeMap.Propagate.Safety.{propagate-Effect}

-- Every typed address keeps its projection, and no conflict is counted.
pub record Keeps (m m' : ShadowTypeMap) : Type 0 where
  pub types : (a : ℕ) (p : TypeProjection) → lookup a m ≡ some p → lookup a m' ≡ some p
  pub schisms : m'.schism_count ≡ m.schism_count
  pub reuses : m'.pool_reuse_count ≡ m.pool_reuse_count

Keeps-refl : (m : ShadowTypeMap) → Keeps m m
Keeps-refl m = record { types = λ a p e. e; schisms = refl; reuses = refl }

-- The target has no projection, or one of the same type.
stamp_type-Keeps :
    (value : ℕ) (t : TypeInfo) (source : String) (seq : ℕ) (m : ShadowTypeMap)
    → other_type t (get value m.projections) ≡ false
    → Keeps m (stamp_type value t source seq m).0
unfolding lookup
stamp_type-Keeps value t source seq m agrees = by_case (stamp_type-Stamping value t source seq m)
  where
    agree :
        (old : TypeProjection)
        → get value m.projections ≡ some old
        → name old.type_info ≢ name t
        → ⊥
    agree old e n = n ((eq_iff (name old.type_info) (name t)).0 (ground arith))

    apart :
        (a : ℕ) (p : TypeProjection)
        → get a m.projections ≡ some p
        → get value m.projections ≡ none
        → (if value == a then some (projection value t source seq) else get a m.projections)
          ≡ some p
    apart a p f e = elim (Bool-cases (value == a)) [
      | inl at ↦
          let both : get a m.projections ≡ none =
            ap (λ x. get x m.projections) (sym ((==_iff value a).0 at)) ∙ e in
          cc
      | inr off ↦ rw off f
    ]

    by_case :
        {out : ShadowTypeMap × StampResult} → Stamping value t source seq m out → Keeps m out.0
    by_case (refused why q) = rw q (Keeps-refl m)
    by_case (fresh addr size e q) = rw q (record {
      types =
          λ a p f. get-insert value a (projection value t source seq) m.projections ∙ apart a p f e;
      schisms = refl;
      reuses = refl;
    })
    by_case (same old e n q) = rw q (Keeps-refl m)
    by_case (stale old e n late q) = rw q (Keeps-refl m)
    by_case (conflicting old addr size e n le first q) = absurd (agree old e n)
    by_case (reused old addr size e n le again q) = absurd (agree old e n)

module _ (registry : Registry) (value seq : ℕ) (m : ShadowTypeMap) where
  abbrev Kept : ShadowTypeMap × Bool → Type 0
  Kept out = Keeps m out.0

  stamp_pointee-Keeps : (t : TypeInfo) (source : String) → Kept (stamp_pointee value t source seq m)
  unfolding stamp_pointee
  stamp_pointee-Keeps t source = elim (Bool-cases (other_type t (get value m.projections))) [
    | inl e ↦ rw e (Keeps-refl m)
    | inr e ↦ rw e (stamp_type-Keeps value t source seq m e)
  ]

  register_element-Keeps : (o : Option TypeInfo) → Kept (register_element value o m)
  unfolding register_element lookup
  register_element-Keeps none = Keeps-refl m
  register_element-Keeps (some inner) = record { types = λ a p e. e; schisms = refl; reuses = refl }

  follow_named-Keeps :
      (f : FieldInfo) (pointee : String) (o : Option TypeInfo)
      → Kept (follow_named registry value f seq m pointee o)
  unfolding follow_named
  follow_named-Keeps f pointee (some t) = stamp_pointee-Keeps t (field_name f)
  follow_named-Keeps f pointee none =
      if_rule Kept (starts_with_star pointee)
        (register_element-Keeps (registry (strip_star pointee))) (Keeps-refl m)

  follow_field-Keeps : (o : Option FieldInfo) → Kept (follow_field registry value seq m o)
  unfolding follow_field
  follow_field-Keeps none = Keeps-refl m
  follow_field-Keeps (some f) =
      if_rule Kept (is_pointer (field_type f))
        (follow_named-Keeps f (strip_star (name (field_type f)))
          (registry (strip_star (name (field_type f)))))
        (Keeps-refl m)

  propagate_struct-Keeps :
      (t : HeapAllocTracker) (addr size : ℕ) (o : Option TypeProjection)
      → Kept (propagate_struct registry t addr value size seq m o)
  unfolding propagate_struct
  propagate_struct-Keeps t addr size none = Keeps-refl m
  propagate_struct-Keeps t addr size (some p) =
      if_rule Kept (predates p (alloc_seq p.base_addr t)) (Keeps-refl m)
        (follow_field-Keeps (field_at p.type_info (addr - p.base_addr) size))

-- No address lies in an array of pointers where none is registered.
pub indirect_lookup-none :
    (addr : ℕ) (t : HeapAllocTracker) (m : ShadowTypeMap)
    → m.indirect ≡ []
    → indirect_lookup addr t m ≡ none
unfolding indirect_lookup indirect_from
indirect_lookup-none addr t m empty = elim (Option-cases (containing_alloc addr t)) [
  | inl e ↦ rw e refl
  | inr ((base, size), e) ↦
      rw (e, empty) (if_rule (λ o. o ≡ none) (leb (add64 base size) addr) refl refl)
]

-- Outside the arrays of pointers, a pointer write never retypes an address: every projection stays
-- as it is, and neither a schism nor a reuse is counted.
pub propagate-Keeps :
    (registry : Registry) (t : HeapAllocTracker) (addr value size seq : ℕ) (m : ShadowTypeMap)
    → indirect_lookup addr t m ≡ none
    → Keeps m (propagate_field_write registry t addr value size seq m).0
unfolding propagate_field_write propagate_by
propagate-Keeps registry t addr value size seq m direct =
    if_rule (Kept registry value seq m) (not (size == 8) || value == 0) (Keeps-refl m) (
      rw direct (propagate_struct-Keeps registry value seq m t addr size (nearest_covering addr m)))

length-partition {ℓ} :
    {A : Type ℓ} (p : A → Bool) (xs : List A)
    → length (retain p xs) + length (retain (λ x. not (p x)) xs) ≡ length xs
length-partition p [] = omega arith
length-partition p (x ∷ xs) = ground (arith, length-partition p xs)

-- One pass keeps the map valid and the buffer, and uses each hit at most once.
replay_hits_lem :
    (registry : Registry) (t : HeapAllocTracker) (ds : List DeferredWrite) (m : ShadowTypeMap)
    → IsValid m
    → let (m', n) = replay_hits registry t ds m in
      IsValid m' × (m'.deferred ≡ m.deferred) × (n ≤ length ds)
unfolding replay_hits
replay_hits_lem registry t [] m v = (v, refl, omega arith)
replay_hits_lem registry t (d ∷ ds) m v =
    let e = propagate-Effect registry t d.write_addr d.write_value 8 d.seq m v in
    let out = propagate_field_write registry t d.write_addr d.write_value 8 d.seq m in
    let rest = replay_hits_lem registry t ds out.0 e.0.valid in
    (rest.0, rest.1 ∙ e.1, ground (arith, rest.2))

pub still_waiting-IsValid : (m : ShadowTypeMap) → IsValid m → IsValid (still_waiting m)
still_waiting-IsValid m v = record {
  ordered = v.ordered;
  keyed = v.keyed;
  buffered = omega (arith, v.buffered, length-retain-le (λ d. not (is_covered m d)) m.deferred);
}

abbrev Conserves : ShadowTypeMap → ShadowTypeMap × ℕ → Type 0
Conserves m out = IsValid out.0 × (out.1 + length out.0.deferred ≤ length m.deferred)

module _ (registry : Registry) (t : HeapAllocTracker) where
  replay_pass_lem :
      (next : ShadowTypeMap → ShadowTypeMap × ℕ)
      → ((m : ShadowTypeMap) → IsValid m → Conserves m (next m))
      → (m : ShadowTypeMap) (hits : List DeferredWrite) → IsValid m
      → retain (is_covered m) m.deferred ≡ hits
      → Conserves m (replay_pass registry t next m hits)
  unfolding replay_pass
  replay_pass_lem next conserves m [] v e = (
    still_waiting-IsValid m v,
    omega (arith, length-retain-le (λ d. not (is_covered m d)) m.deferred),
  )
  replay_pass_lem next conserves m (d ∷ ds) v e =
      let out = replay_hits registry t (d ∷ ds) (still_waiting m) in
      let pass =
        replay_hits_lem registry t (d ∷ ds) (still_waiting m) (still_waiting-IsValid m v) in
      let later = conserves out.0 pass.0 in
      let parts = length-partition (is_covered m) m.deferred in
      if_rule (Conserves m) (out.1 == 0) (pass.0, omega (arith, parts, ap length pass.1))
        (later.0, omega (arith, parts, ap length pass.1, ap length e, pass.2, later.1))

  replay_passes_lem :
      (passes : ℕ) (m : ShadowTypeMap) → IsValid m → Conserves m (replay_passes registry t passes m)
  unfolding replay_passes
  replay_passes_lem zero m v = (v, omega arith)
  replay_passes_lem (suc passes) m v =
      replay_pass_lem (replay_passes registry t passes) (replay_passes_lem passes) m
        (retain (is_covered m) m.deferred) v refl

-- However long the chains of waiting writes are, the replay ends; it keeps the map valid, and the
-- writes it replayed and those that still wait are no more than waited before.
pub replay_deferred-IsValid :
    (registry : Registry) (t : HeapAllocTracker) (m : ShadowTypeMap)
    → IsValid m
    → let (m', total) = replay_deferred registry t m in
      IsValid m' × (total + length m'.deferred ≤ length m.deferred)
unfolding replay_deferred
replay_deferred-IsValid registry t m v =
    let c = replay_passes_lem registry t replay_max_passes m v in
    (record { ordered = c.0.ordered; keyed = c.0.keyed; buffered = c.0.buffered }, c.1)
