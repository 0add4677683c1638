-- ===== src/Tests/Types.antt =====
-- The type map of engine/src/world.rs at concrete inputs.
use rtmap.Base.{
  add64, ◌+◌, ◌≤◌, ◌≡◌, refl, [], ◌∷◌, none, some, arith, if◌then◌else◌, true, false, length,
}
use text.Mathlib.Text.{◌==◌ as str_eq}
use rtmap.Dwarf.{TypeInfo, type_info, field_info, no_fields, field}
use rtmap.World.ShadowTypeMap.{ShadowTypeMap, stamp_type}
use rtmap.World.ShadowTypeMap.Stamps.{IsValid, Effect, stamp_type-Effect, projection}
use rtmap.World.ShadowTypeMap.Propagate.{Registry, propagate_field_write, replay_deferred}
use rtmap.World.ShadowTypeMap.Propagate.Safety.{propagate-Effect}
use rtmap.World.ShadowTypeMap.Propagate.Replay.{Keeps, indirect_lookup-none, propagate-Keeps}
use rtmap.World.ShadowTypeMap.Propagate.Rounds.{rounds, replay_deferred-rounds}
use rtmap.World.HeapAllocTracker
use rtmap.World.HeapAllocTracker.{HeapAllocTracker}

abbrev word : TypeInfo
word = type_info "u64" 8 false false false false no_fields

abbrev node_pointer : TypeInfo
node_pointer = type_info "*node" 8 true false false false no_fields

abbrev node : TypeInfo
node =
    type_info "node" 16 false false false false (
      field (field_info "value" 0 8 word 8)
        (field (field_info "next" 8 8 node_pointer 8) no_fields))

abbrev registry : Registry
registry name = if str_eq name "node" then some node else none

-- A node at 0x1000, a word inside it, and the write of its next pointer still waiting.
abbrev typed : ShadowTypeMap
typed = record {
  projections =
      (0x1000, projection 0x1000 node "g_head" 5)
      ∷ (0x1004, projection 0x1004 word "g_word" 6)
      ∷ [];
  indirect = [];
  deferred = record { write_addr = 0x1008; write_value = 0x2000; seq = 9 } ∷ [];
  addr_schisms = [];
  schism_count = 0;
  pool_reuse_count = 0;
  indirect_stamps = 0;
  indirect_registrations = 0;
  deferred_replays = 0;
}

typed-IsValid : IsValid typed
typed-IsValid = record {
  ordered = (omega arith, (omega arith, tt));
  keyed = ((refl, omega arith, omega arith), ((refl, omega arith, omega arith), tt));
  buffered = omega arith;
}

stamp_type-Effect_example : Effect 0x1000 typed (stamp_type 0x1000 word "g_word" 7 typed).0
stamp_type-Effect_example = stamp_type-Effect 0x1000 word "g_word" 7 typed typed-IsValid

propagate-Effect_example :
    let m' = (propagate_field_write registry HeapAllocTracker.new 0x1008 0x2000 8 9 typed).0 in
    Effect 0x2000 typed m' × (m'.deferred ≡ typed.deferred)
propagate-Effect_example =
    propagate-Effect registry HeapAllocTracker.new 0x1008 0x2000 8 9 typed typed-IsValid

propagate-Keeps_example :
    Keeps typed (propagate_field_write registry HeapAllocTracker.new 0x1008 0x2000 8 9 typed).0
propagate-Keeps_example =
    propagate-Keeps registry HeapAllocTracker.new 0x1008 0x2000 8 9 typed
      (indirect_lookup-none 0x1008 HeapAllocTracker.new typed refl)

replay_deferred-rounds_example :
    let (m', total) = replay_deferred registry HeapAllocTracker.new typed in
    let (after, newly) = rounds registry HeapAllocTracker.new 8 typed in
    (m' ≡ record after { deferred_replays = add64 after.deferred_replays newly })
    × (total ≡ newly)
    × IsValid m'
    × (total + length m'.deferred ≤ 1)
replay_deferred-rounds_example =
    replay_deferred-rounds registry HeapAllocTracker.new typed typed-IsValid
