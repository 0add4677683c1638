-- ===== src/World/ShadowTypeMap/Propagate.antt =====
-- Types that spread along pointers: a pointer written into a typed region gives its target the
-- pointee's type, at once or, from the buffer, when a stamp covers the written address.
-- The type registry is the hash map of the debug information's types by name.
pub mod Safety
pub mod Replay
pub mod Quiet
pub mod Rounds
use Prim.Native.String.{String}
use Prim.Native.Char.{Char, code}
use text.Mathlib.Text.{◌==◌ as str_eq}
use rtmap.Base.{
  ℕ, zero, suc, ◌+◌, ◌-◌, Bool, true, false, not, ◌&&◌, ◌||◌, List, [], ◌∷◌, Option, none, some,
  add64, ltb, leb, ◌==◌, if◌then◌else◌, length, find, retain, is_some,
}
use rtmap.Base.TreeMap.{TreeMap, get, insert, last_le}
use rtmap.Dwarf.{
  TypeInfo, FieldInfo, name, byte_size, is_pointer, fields, byte_offset, field_name, field_size,
  field_type,
}
use rtmap.World.HeapAllocTracker.{HeapAllocTracker, containing_alloc, alloc_seq}
use rtmap.World.ShadowTypeMap.{
  TypeProjection, StampResult, stamped, restamped, rejected, schism, pool_reuse, ShadowTypeMap,
  DeferredWrite, stamp_type, in_reach,
}

abbrev pub Registry : Type 0
Registry = String → Option TypeInfo

is_star : Char → Bool
is_star c = code c == b'*'

-- `strip_prefix('*').unwrap_or("")`
pub strip_star : String → String
unfolding is_star
strip_star String.[] = ""
strip_star (String.◌∷◌ c s) = if is_star c then s else ""

pub starts_with_star : String → Bool
unfolding is_star
starts_with_star String.[] = false
starts_with_star (String.◌∷◌ c s) = is_star c

indirect_from : ℕ → ShadowTypeMap → Option (ℕ × ℕ) → Option TypeInfo
indirect_from addr m none = none
indirect_from addr m (some (base, size)) =
    if leb (add64 base size) addr then none else get base m.indirect

-- The element type of the allocation around the address, if it is known to hold pointers.
pub indirect_lookup : ℕ → HeapAllocTracker → ShadowTypeMap → Option TypeInfo
unfolding indirect_from
indirect_lookup addr t m = indirect_from addr m (containing_alloc addr t)

-- The projection under the last base up to the address, if it reaches the address.
in_reach_of : ℕ → Option (ℕ × TypeProjection) → Option TypeProjection
in_reach_of addr none = none
in_reach_of addr (some (k, p)) = if in_reach addr p then some p else none

pub nearest_covering : ℕ → ShadowTypeMap → Option TypeProjection
unfolding in_reach_of
nearest_covering addr m = in_reach_of addr (last_le addr m.projections)

-- `max_by_key(byte_size)`: the last of the largest.
largest : List FieldInfo → Option FieldInfo
largest [] = none
largest (f ∷ fs) = elim (largest fs) [
  | none ↦ some f
  | some g ↦ some (if ltb (field_size g) (field_size f) then f else g)
]

-- The field at an offset: the only one there, or in a union one of the written size, or the largest.
choose_field : ℕ → List FieldInfo → Option FieldInfo
unfolding largest
choose_field write_size [] = none
choose_field write_size (f ∷ []) = some f
choose_field write_size (f ∷ g ∷ fs) = elim (find (λ h. field_size h == write_size) (f ∷ g ∷ fs)) [
  | some h ↦ some h
  | none ↦ largest (f ∷ g ∷ fs)
]

pub field_at : TypeInfo → ℕ → ℕ → Option FieldInfo
unfolding choose_field
field_at ti offset write_size =
    choose_field write_size (
      retain (λ f. (byte_offset f == offset) && not (str_eq (field_name f) "<pointee>"))
        (fields ti))

abbrev pub is_new : StampResult → Bool
is_new stamped = true
is_new (schism t s n) = true
is_new (pool_reuse t s n) = true
is_new restamped = false
is_new rejected = false

-- Path 1: the written pointer is an element of an array of pointers.
count_indirect : ShadowTypeMap × StampResult → ShadowTypeMap × Bool
count_indirect (m, res) =
    if is_new res
    then (record m { indirect_stamps = add64 m.indirect_stamps 1 }, true)
    else (m, false)

pub stamp_element : ℕ → TypeInfo → ℕ → ShadowTypeMap → ShadowTypeMap × Bool
unfolding count_indirect
stamp_element value element seq m = count_indirect (stamp_type value element "<indirect>" seq m)

-- A target that has another type keeps it.
abbrev pub other_type : TypeInfo → Option TypeProjection → Bool
other_type t none = false
other_type t (some existing) = not (str_eq (name existing.type_info) (name t))

abbrev pub is_stamped : StampResult → Bool
is_stamped stamped = true
is_stamped _ = false

pub stamp_pointee : ℕ → TypeInfo → String → ℕ → ShadowTypeMap → ShadowTypeMap × Bool
stamp_pointee value t source seq m =
    if other_type t (get value m.projections)
    then (m, false)
    else (let (m', res) = stamp_type value t source seq m in (m', is_stamped res))

register_element : ℕ → Option TypeInfo → ShadowTypeMap → ShadowTypeMap × Bool
register_element value none m = (m, false)
register_element value (some inner) m = (
  record m {
    indirect = insert value inner m.indirect;
    indirect_registrations = add64 m.indirect_registrations 1;
  },
  false,
)

follow_named :
    Registry → ℕ → FieldInfo → ℕ → ShadowTypeMap → String → Option TypeInfo → ShadowTypeMap × Bool
unfolding stamp_pointee register_element strip_star starts_with_star
follow_named registry value f seq m pointee (some t) = stamp_pointee value t (field_name f) seq m
follow_named registry value f seq m pointee none =
    if starts_with_star pointee
    then register_element value (registry (strip_star pointee)) m
    else (m, false)

pub follow_field : Registry → ℕ → ℕ → ShadowTypeMap → Option FieldInfo → ShadowTypeMap × Bool
unfolding follow_named strip_star
follow_field registry value seq m none = (m, false)
follow_field registry value seq m (some f) =
    let pointee = strip_star (name (field_type f)) in
    if is_pointer (field_type f)
    then follow_named registry value f seq m pointee (registry pointee)
    else (m, false)

-- Whether the projection is older than the allocation at its base.
abbrev predates : TypeProjection → Option ℕ → Bool
predates p none = false
predates p (some alloc) = ltb p.stamp_seq alloc

-- Path 2: the written pointer is a field of a typed region.
pub propagate_struct :
    Registry
    → HeapAllocTracker
    → ℕ
    → ℕ
    → ℕ
    → ℕ
    → ShadowTypeMap
    → Option TypeProjection
    → ShadowTypeMap × Bool
unfolding follow_field field_at
propagate_struct registry t addr value write_size seq m none = (m, false)
propagate_struct registry t addr value write_size seq m (some p) =
    if predates p (alloc_seq p.base_addr t)
    then (m, false)
    else follow_field registry value seq m (field_at p.type_info (addr - p.base_addr) write_size)

propagate_by :
    Registry
    → HeapAllocTracker
    → ℕ
    → ℕ
    → ℕ
    → ℕ
    → ShadowTypeMap
    → Option TypeInfo
    → ShadowTypeMap × Bool
unfolding propagate_struct stamp_element nearest_covering
propagate_by registry t addr value write_size seq m (some element) =
    stamp_element value element seq m
propagate_by registry t addr value write_size seq m none =
    propagate_struct registry t addr value write_size seq m (nearest_covering addr m)

-- The answer is whether a new region was typed.
pub propagate_field_write :
    Registry → HeapAllocTracker → ℕ → ℕ → ℕ → ℕ → ShadowTypeMap → ShadowTypeMap × Bool
unfolding propagate_by indirect_lookup
propagate_field_write registry t addr value write_size seq m =
    if not (write_size == 8) || value == 0
    then (m, false)
    else propagate_by registry t addr value write_size seq m (indirect_lookup addr t m)

-- One pass over the writes that a projection now covers, oldest first.
pub replay_hits :
    Registry → HeapAllocTracker → List DeferredWrite → ShadowTypeMap → ShadowTypeMap × ℕ
unfolding propagate_field_write
replay_hits registry t [] m = (m, 0)
replay_hits registry t (d ∷ ds) m =
    let (m', done) = propagate_field_write registry t d.write_addr d.write_value 8 d.seq m in
    let (m'', n) = replay_hits registry t ds m' in (m'', if done then n + 1 else n)

abbrev pub is_covered : ShadowTypeMap → DeferredWrite → Bool
is_covered m d = is_some (nearest_covering d.write_addr m)

-- The writes without a covering projection stay.
abbrev pub still_waiting : ShadowTypeMap → ShadowTypeMap
still_waiting m = record m { deferred = retain (λ d. not (is_covered m d)) m.deferred }

-- A pass that typed nothing new is the last one; `next` makes the passes that are left.
abbrev pub after_pass : (ShadowTypeMap → ShadowTypeMap × ℕ) → ShadowTypeMap × ℕ → ShadowTypeMap × ℕ
after_pass next (m, n) = let (m', k) = next m in if n == 0 then (m, 0) else (m', n + k)

pub replay_pass :
    Registry
    → HeapAllocTracker
    → (ShadowTypeMap → ShadowTypeMap × ℕ)
    → ShadowTypeMap
    → List DeferredWrite
    → ShadowTypeMap × ℕ
unfolding replay_hits
replay_pass registry t next m [] = (still_waiting m, 0)
replay_pass registry t next m (d ∷ ds) =
    after_pass next (replay_hits registry t (d ∷ ds) (still_waiting m))

pub replay_passes : Registry → HeapAllocTracker → ℕ → ShadowTypeMap → ShadowTypeMap × ℕ
unfolding replay_pass
replay_passes registry t zero m = (m, 0)
replay_passes registry t (suc passes) m =
    replay_pass registry t (replay_passes registry t passes) m (retain (is_covered m) m.deferred)

abbrev pub replay_max_passes : ℕ
replay_max_passes = 8

pub replay_deferred : Registry → HeapAllocTracker → ShadowTypeMap → ShadowTypeMap × ℕ
unfolding replay_passes
replay_deferred registry t m =
    let (m', total) = replay_passes registry t replay_max_passes m in
    (record m' { deferred_replays = add64 m'.deferred_replays total }, total)
