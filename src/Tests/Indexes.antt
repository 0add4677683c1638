-- ===== src/Tests/Indexes.antt =====
-- The variable index of engine/src/index.rs and the type monitor of engine/src/world.rs at concrete
-- inputs.
use rtmap.Base.{ℕ, refl, List, [], ◌∷◌, Option, none, some, arith, false, All}
use rtmap.Base.KeyMap.{nat_key}
use rtmap.Dwarf.{TypeInfo, type_info, no_fields, field_info}
use rtmap.Dwarf.{field as struct_field}
use rtmap.Index.{Interval, AddressIndex, NodeId, local, new, LookupResult}
use rtmap.Index.Lookup.{lookup, lookup_dynamics}
use rtmap.Index.Locals.{Best, Least, lookup_dynamics-Least}
use rtmap.Index.Answers.{AnswerOf}
use rtmap.Index.Runs.{
  Op, add_global, add_field, enter_frame, leave_frame, ask, sort, run, run-lookup,
}
use rtmap.World.TypeStability.{new as no_writes}
use rtmap.World.TypeStability.Balance.{Write, Tallied, run as run_writes, run-Tallied}

abbrev word : TypeInfo
word = type_info "uint64_t" 8 false false false false no_fields

-- A struct with fields at 0 and 8 of four bytes each, in a global of 0x20 bytes.
abbrev setup : List Op
setup =
    add_global 0x1000 0x20 "g" word 0
    ∷ add_field 0x1000 4 "g.a" word 0 0
    ∷ add_field 0x1008 4 "g.b" word 0 1
    ∷ enter_frame 7 0x7000 (record { offset = 0; size = 8; label = "x"; type_info = word } ∷ [])
    ∷ ask 0x7004
    ∷ leave_frame 7
    ∷ sort
    ∷ ask 0x1002
    ∷ []

abbrev keep_order : List Interval → List Interval
keep_order ivs = ivs

run-lookup_example :
    AnswerOf
      (run keep_order setup new).statics
      (run keep_order setup new).dynamics
      0x1009
      (lookup 0x1009 (run keep_order setup new)).1
run-lookup_example = run-lookup keep_order setup 0x1009

abbrev node_of : Option LookupResult → Option NodeId
node_of none = none
node_of (some r) = some r.node_id

-- An address of the global behind its last field is not found.
abbrev behind_fields : Option NodeId
behind_fields = node_of (lookup 0x1010 (run keep_order setup new)).1

-- A field is found, but not after a lookup between the fields, which leaves the global among the
-- recent entries.
abbrev before : Option NodeId
before = node_of (lookup 0x1008 (run keep_order setup new)).1

abbrev replaced : Option NodeId
replaced = node_of (lookup 0x1008 (lookup 0x1006 (run keep_order setup new)).0).1

abbrev frames : AddressIndex
frames = record new {
  dynamics = (7, iv 0x7000 0x7010 ∷ iv 0x7000 0x7004 ∷ []) ∷ (8, iv 0x7000 0x7008 ∷ []) ∷ [];
}
  where
    iv : ℕ → ℕ → Interval
    iv lo hi = record {
      lo = lo;
      hi = hi;
      meta = record { label = "x"; type_info = word; node_id = local 7 0 };
    }

lookup_dynamics-Least_example :
    Best 0x7002 frames.dynamics (lookup_dynamics 0x7002 frames)
    × All (λ f. Least 0x7002 (lookup_dynamics 0x7002 frames) f.1) frames.dynamics
lookup_dynamics-Least_example = lookup_dynamics-Least 0x7002 frames (refl, (refl, tt))

abbrev pair_type : TypeInfo
pair_type =
    type_info "pair" 16 false false false false (
      struct_field (field_info "a" 0 4 word 4) (struct_field (field_info "b" 8 8 word 8) no_fields))

abbrev write_of : ℕ → ℕ → Write
write_of addr size = record {
  write_addr = addr;
  write_size = size;
  proj = record { base_addr = 0x5000; type_info = pair_type; source_name = "p"; stamp_seq = 3 };
  pc = 0x401000;
}

abbrev writes : List Write
writes = write_of 0x5000 4 ∷ write_of 0x5000 6 ∷ write_of 0x5005 1 ∷ write_of 0x500C 8 ∷ []

run-Tallied_example : Tallied 4 (run_writes writes no_writes)
run-Tallied_example = run-Tallied writes (omega arith)
