-- ===== src/World/HeapAllocTracker.antt =====
-- `HeapAllocTracker` of engine/src/world.rs: the live heap allocations, and the check of each write
-- against them.
pub mod Balance
pub mod Bounds
use Prim.Native.String.{String}
use rtmap.Base.{
  ℕ, suc, ◌+◌, ◌-◌, ◌*◌, Bool, true, false, ◌&&◌, List, [], ◌∷◌, ◌++◌, Option, none, some, add64,
  u64_mod, saturating_add64, u64_max, ltb, leb, ◌==◌, if◌then◌else◌, length, find,
}
use rtmap.Base.TreeMap.{TreeMap, get, insert, remove, last_le, last_entry}
use rtmap.Dwarf.{TypeInfo, FieldInfo, name, byte_size, fields, byte_offset, field_name}
use rtmap.World.ShadowTypeMap.{ShadowTypeMap, TypeProjection, covering}

pub record SizeMismatch : Type 0 where
  pub addr : ℕ
  pub alloc_size : ℕ
  pub type_size : ℕ
  pub type_name : String

-- An allocation is its size with its sequence number.
pub record HeapAllocTracker : Type 0 where
  pub allocs : TreeMap (ℕ × ℕ)
  pub total_allocs : ℕ
  pub total_frees : ℕ
  pub orphan_frees : ℕ
  pub size_mismatches : List SizeMismatch

pub data HazardKind : Type 0 where
  out_of_bounds heap_hole : HazardKind

-- (`pc` and `reg_snapshot` are filled in by the event loop: 0 and None here.)
pub record HeapHazard : Type 0 where
  pub kind : HazardKind
  pub write_addr : ℕ
  pub write_size : ℕ
  pub alloc_base : ℕ
  pub alloc_size : ℕ
  pub overflow_bytes : ℕ
  pub type_name : Option String
  pub field_name : Option String
  pub pc : ℕ
  pub reg_snapshot : Option (List ℕ)

pub new : HeapAllocTracker
new = record {
  allocs = [];
  total_allocs = 0;
  total_frees = 0;
  orphan_frees = 0;
  size_mismatches = [];
}

-- `map(|(sz, _)| sz)`
abbrev pub size_of : Option (ℕ × ℕ) → Option ℕ
size_of none = none
size_of (some (size, seq)) = some size

abbrev seq_of : Option (ℕ × ℕ) → Option ℕ
seq_of none = none
seq_of (some (size, seq)) = some seq

pub on_alloc : ℕ → ℕ → HeapAllocTracker → HeapAllocTracker × Option ℕ
on_alloc addr size t = (
  record t {
    allocs = insert addr (size, t.total_allocs) t.allocs;
    total_allocs = add64 t.total_allocs 1;
  },
  size_of (get addr t.allocs),
)

pub on_free : ℕ → HeapAllocTracker → HeapAllocTracker × Option ℕ
on_free addr t = (
  record t {
    allocs = remove addr t.allocs;
    total_frees = add64 t.total_frees 1;
    orphan_frees = elim (get addr t.allocs) [
      | none ↦ add64 t.orphan_frees 1
      | some a ↦ t.orphan_frees
    ];
  },
  size_of (get addr t.allocs),
)

pub alloc_size : ℕ → HeapAllocTracker → Option ℕ
alloc_size addr t = size_of (get addr t.allocs)

pub alloc_seq : ℕ → HeapAllocTracker → Option ℕ
alloc_seq addr t = seq_of (get addr t.allocs)

unfoldable pub live_count : HeapAllocTracker → ℕ
live_count t = length t.allocs

containing_from : ℕ → Option (ℕ × (ℕ × ℕ)) → Option (ℕ × ℕ)
containing_from addr none = none
containing_from addr (some (base, (size, seq))) =
    if ltb addr (saturating_add64 base size) then some (base, size) else none

pub containing_alloc : ℕ → HeapAllocTracker → Option (ℕ × ℕ)
unfolding containing_from
containing_alloc addr t = containing_from addr (last_le addr t.allocs)

-- The projection over the address names the type, and the field that starts there.
abbrev pub hazard_type : Option TypeProjection → Option String
hazard_type none = none
hazard_type (some p) = some (name p.type_info)

abbrev named : Option FieldInfo → Option String
named none = none
named (some f) = some (field_name f)

abbrev pub hazard_field : ℕ → Option TypeProjection → Option String
hazard_field addr none = none
hazard_field addr (some p) =
    named (find (λ f. byte_offset f == addr - p.base_addr) (fields p.type_info))

-- The lowest live base and the end of the highest allocation, `u64::MAX` and 0 where none is live.
abbrev pub lowest : TreeMap (ℕ × ℕ) → ℕ
lowest [] = u64_max
lowest ((base, a) ∷ m) = base

abbrev pub end_of : Option (ℕ × (ℕ × ℕ)) → ℕ
end_of none = 0
end_of (some (base, (size, seq))) = add64 base size

abbrev pub highest : TreeMap (ℕ × ℕ) → ℕ
highest m = end_of (last_entry m)

abbrev pub overflow_hazard : ℕ → ℕ → ShadowTypeMap → ℕ → ℕ → HeapHazard
overflow_hazard addr write_size stm base size = record {
  kind = out_of_bounds;
  write_addr = addr;
  write_size = write_size;
  alloc_base = base;
  alloc_size = size;
  overflow_bytes = addr + write_size - saturating_add64 base size;
  type_name = hazard_type (covering addr stm);
  field_name = hazard_field addr (covering addr stm);
  pc = 0;
  reg_snapshot = none;
}

abbrev pub hole_hazard : ℕ → ℕ → ShadowTypeMap → HeapHazard
hole_hazard addr write_size stm = record {
  kind = heap_hole;
  write_addr = addr;
  write_size = write_size;
  alloc_base = 0;
  alloc_size = 0;
  overflow_bytes = 0;
  type_name = hazard_type (covering addr stm);
  field_name = none;
  pc = 0;
  reg_snapshot = none;
}

-- A write that starts inside an allocation.
check_inside : ℕ → ℕ → ShadowTypeMap → ℕ × ℕ → Option HeapHazard
check_inside addr write_size stm (base, size) =
    if ltb (saturating_add64 base size) (addr + write_size)
    then some (overflow_hazard addr write_size stm base size)
    else none

-- A write that starts in no allocation: a hazard only between the lowest and the highest of them.
check_hole : ℕ → ℕ → ShadowTypeMap → HeapAllocTracker → Option HeapHazard
check_hole addr write_size stm t =
    if leb (lowest t.allocs) addr && ltb addr (highest t.allocs)
    then some (hole_hazard addr write_size stm)
    else none

check_from : ℕ → ℕ → ShadowTypeMap → HeapAllocTracker → Option (ℕ × ℕ) → Option HeapHazard
unfolding check_inside check_hole
check_from addr write_size stm t none = check_hole addr write_size stm t
check_from addr write_size stm t (some a) = check_inside addr write_size stm a

-- `checked_add` answers None where the end of the write does not fit in 64 bits.
pub check_write_bounds : ℕ → ℕ → ShadowTypeMap → HeapAllocTracker → Option HeapHazard
unfolding check_from
check_write_bounds addr write_size stm t =
    if ltb (addr + write_size) u64_mod
    then check_from addr write_size stm t (containing_alloc addr t)
    else none

check_size_from : ℕ → TypeInfo → HeapAllocTracker → Option (ℕ × ℕ) → HeapAllocTracker × Bool
check_size_from addr ti t none = (t, true)
check_size_from addr ti t (some (size, seq)) =
    if ltb size (byte_size ti)
    then (
      record t {
        size_mismatches =
            t.size_mismatches
            ++ record {
              addr = addr;
              alloc_size = size;
              type_size = byte_size ti;
              type_name = name ti;
            }
              ∷ [];
      },
      false,
    )
    else (t, true)

pub check_size : ℕ → TypeInfo → HeapAllocTracker → HeapAllocTracker × Bool
unfolding check_size_from
check_size addr ti t = check_size_from addr ti t (get addr t.allocs)
