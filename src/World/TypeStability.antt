-- ===== src/World/TypeStability.antt =====
-- `TypeStabilityMonitor` of engine/src/world.rs: writes to stamped memory that do not fit the fields
-- of the type.
pub mod Balance
use Prim.Native.String.{String}
use text.Mathlib.Text.{◌==◌ as str_eq}
use text.Mathlib.TextEquality.{eq_iff}
use rtmap.Base.{
  ℕ, suc, ◌+◌, ◌-◌, Bool, true, false, not, ◌&&◌, ◌||◌, List, [], ◌∷◌, ◌++◌, Option, none, some,
  add64, sub64, ltb, leb, ◌==◌, if◌then◌else◌, length, find, any,
}
use rtmap.Base.KeyMap.{Key, KeyMap, get, insert}
use rtmap.Dwarf.{TypeInfo, FieldInfo, name, byte_size, fields, field_name, byte_offset, field_size}
use rtmap.World.ShadowTypeMap.{TypeProjection}

instance abbrev pub string_key : Key String
string_key = record { same = str_eq; same_iff = eq_iff }

pub data ViolationKind : Type 0 where
  interstitial_write spanning_write : ViolationKind

pub record TypeViolation : Type 0 where
  pub kind : ViolationKind
  pub write_addr : ℕ
  pub write_size : ℕ
  pub base_addr : ℕ
  pub offset : ℕ
  pub type_name : String
  pub expected_field : Option String
  pub expected_size : Option ℕ
  pub pc : ℕ

pub record TypeStabilityTally : Type 0 where
  pub interstitial : ℕ
  pub spanning : ℕ
  pub aligned : ℕ
  pub synthesized : ℕ

pub record TypeStabilityMonitor : Type 0 where
  pub tally : KeyMap String TypeStabilityTally
  pub violations : List TypeViolation
  pub total_checked : ℕ
  pub total_violations : ℕ

pub new : TypeStabilityMonitor
new = record { tally = []; violations = []; total_checked = 0; total_violations = 0 }

abbrev pub no_tally : TypeStabilityTally
no_tally = record { interstitial = 0; spanning = 0; aligned = 0; synthesized = 0 }

-- `entry(name).or_insert(zeros)`
abbrev pub tally_of : String → TypeStabilityMonitor → TypeStabilityTally
tally_of type_name m = elim (get type_name m.tally) [ none ↦ no_tally | some t ↦ t ]

abbrev pub set_tally : String → TypeStabilityTally → TypeStabilityMonitor → TypeStabilityMonitor
set_tally type_name t m = record m { tally = insert type_name t m.tally }

abbrev pub violations_cap : ℕ
violations_cap = 128

abbrev pub record_violation : TypeViolation → TypeStabilityMonitor → TypeStabilityMonitor
record_violation v m = record m {
  violations =
      if ltb (length m.violations) violations_cap then m.violations ++ v ∷ [] else m.violations;
}

abbrev pub field_end : FieldInfo → ℕ
field_end f = add64 (byte_offset f) (field_size f)

abbrev pub covers : ℕ → FieldInfo → Bool
covers offset f = leb (byte_offset f) offset && ltb offset (field_end f)

-- How far a wide store may spill over the end of the type.
abbrev pub max_tail : ℕ → ℕ
max_tail write_size =
    if leb 64 write_size
    then 56
    else if leb 32 write_size
    then 24
    else if leb 16 write_size
    then 8
    else 0

-- A store over several fields that ends inside a later one.
abbrev pub coalesced : ℕ → ℕ → List FieldInfo → Bool
coalesced end write_end fs =
    any
      (λ nf.
        leb end (byte_offset nf) && leb write_end (field_end nf) && leb write_end (field_end nf))
      fs

abbrev pub tail_spill : ℕ → ℕ → TypeInfo → Bool
tail_spill write_size write_end t =
    leb write_end (add64 (byte_size t) (max_tail write_size)) && ltb (byte_size t) write_end

abbrev pub aligned_write : String → TypeStabilityMonitor → TypeStabilityMonitor
aligned_write type_name m =
    let t = tally_of type_name m in set_tally type_name (record t { aligned = add64 t.aligned 1 }) m

abbrev pub synthesized_write : String → TypeStabilityMonitor → TypeStabilityMonitor
synthesized_write type_name m =
    let t = tally_of type_name m in
    set_tally type_name
      (record t { aligned = add64 t.aligned 1; synthesized = add64 t.synthesized 1 }) m

abbrev pub spanning_violation : ℕ → ℕ → TypeProjection → ℕ → ℕ → FieldInfo → TypeViolation
spanning_violation write_addr write_size proj pc offset f = record {
  kind = spanning_write;
  write_addr = write_addr;
  write_size = write_size;
  base_addr = proj.base_addr;
  offset = offset;
  type_name = name proj.type_info;
  expected_field = some (field_name f);
  expected_size = some (field_size f);
  pc = pc;
}

abbrev pub interstitial_violation : ℕ → ℕ → TypeProjection → ℕ → ℕ → TypeViolation
interstitial_violation write_addr write_size proj pc offset = record {
  kind = interstitial_write;
  write_addr = write_addr;
  write_size = write_size;
  base_addr = proj.base_addr;
  offset = offset;
  type_name = name proj.type_info;
  expected_field = none;
  expected_size = none;
  pc = pc;
}

-- The tally of the type, the total and the list, in this order.
abbrev pub hit :
    String → TypeStabilityTally → TypeViolation → TypeStabilityMonitor → TypeStabilityMonitor
hit type_name t v m =
    let counted = set_tally type_name t m in
    record_violation v (record counted { total_violations = add64 counted.total_violations 1 })

abbrev pub spanning_hit : String → TypeViolation → TypeStabilityMonitor → TypeStabilityMonitor
spanning_hit type_name v m =
    let t = tally_of type_name m in hit type_name (record t { spanning = add64 t.spanning 1 }) v m

abbrev pub interstitial_hit : String → TypeViolation → TypeStabilityMonitor → TypeStabilityMonitor
interstitial_hit type_name v m =
    let t = tally_of type_name m in
    hit type_name (record t { interstitial = add64 t.interstitial 1 }) v m

-- A store over the end of its field that neither joins a later one nor spills over the type's end.
abbrev pub straddles : ℕ → ℕ → FieldInfo → TypeInfo → Bool
straddles offset write_size f t =
    let write_end = add64 offset write_size in
    let joined = coalesced (field_end f) write_end (fields t) in
    let spill = not joined && tail_spill write_size write_end t in
    ltb (field_end f) write_end && (not joined && not spill)

-- A write that starts in a field.
pub check_field :
    ℕ → ℕ → TypeProjection → ℕ → ℕ → FieldInfo → TypeStabilityMonitor → TypeStabilityMonitor × Bool
check_field write_addr write_size proj pc offset f m =
    let type_name = name proj.type_info in
    if straddles offset write_size f proj.type_info
    then (
      spanning_hit type_name (spanning_violation write_addr write_size proj pc offset f) m,
      true,
    )
    else (aligned_write type_name m, false)

-- A write that starts in no field: inside the type it hits a field without debug information.
pub check_gap : ℕ → ℕ → TypeProjection → ℕ → ℕ → TypeStabilityMonitor → TypeStabilityMonitor × Bool
check_gap write_addr write_size proj pc offset m =
    let type_name = name proj.type_info in
    if leb (add64 offset write_size) (byte_size proj.type_info)
    then (synthesized_write type_name m, false)
    else (
      interstitial_hit type_name (interstitial_violation write_addr write_size proj pc offset) m,
      true,
    )

-- The answer is whether the write is a violation. A type without fields is opaque.
pub check_write : ℕ → ℕ → TypeProjection → ℕ → TypeStabilityMonitor → TypeStabilityMonitor × Bool
unfolding check_field check_gap
check_write write_addr write_size proj pc m =
    let counted = record m { total_checked = add64 m.total_checked 1 } in
    let offset = sub64 write_addr proj.base_addr in
    if length (fields proj.type_info) == 0
    then (counted, false)
    else elim (find (covers offset) (fields proj.type_info)) [
      | some f ↦ check_field write_addr write_size proj pc offset f counted
      | none ↦ check_gap write_addr write_size proj pc offset counted
    ]

pub is_empty : TypeStabilityMonitor → Bool
is_empty m = m.total_violations == 0
