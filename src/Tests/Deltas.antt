-- ===== src/Tests/Deltas.antt =====
-- The delta of two snapshots, engine/src/world.rs, at a concrete ring.
use Prim.Native.String.{String}
use rtmap.Base.{ℕ, ◌≡◌, refl, false, [], ◌∷◌, some, arith, replicate}
use rtmap.Dwarf.{type_info, no_fields}
use rtmap.Index.{global, local, node_key}
use rtmap.World.Nodes.{Node, WorldInner, PointerEdge, LiveRegisterFile}
use rtmap.World.SnapshotRing.{SnapEntry, SnapshotRing, slot}
use rtmap.World.SnapshotDelta.{SnapshotDelta, delta}
use rtmap.World.SnapshotDelta.Balance.{IsStored}
use rtmap.World.SnapshotDelta.Values.{Describes, delta-Describes}

abbrev cell : String → ℕ → Node
cell label value = record {
  label = label;
  type_info = type_info "uint64_t" 8 false false false false no_fields;
  addr = 0x1000;
  size = 8;
  raw_value = value;
  last_write_insn = 0;
}

abbrev idle : LiveRegisterFile
idle = record { values = replicate 18 0; prev = replicate 18 0; insn = 0 }

abbrev points : PointerEdge
points = record { source = local 7 0; target = global 1; ptr_value = 0x1000; is_dangling = false }

-- A global and a local; then the global is written, the local is gone and another points to it.
abbrev older : SnapEntry WorldInner
older = record {
  snap = record {
    nodes = (global 1, cell "count" 4) ∷ (local 3 0, cell "i" 9) ∷ [];
    edges = [];
    insn_counter = 10;
    reg_file = idle;
    bb_hits = [];
  };
  insn = 10;
  tick = 1;
  event_seq = 11;
}

abbrev newer : SnapEntry WorldInner
newer = record {
  snap = record {
    nodes = (local 7 0, cell "p" 0x1000) ∷ (global 1, cell "count" 5) ∷ [];
    edges = (local 7 0, points) ∷ [];
    insn_counter = 20;
    reg_file = idle;
    bb_hits = [];
  };
  insn = 20;
  tick = 2;
  event_seq = 22;
}

abbrev two_states : SnapshotRing WorldInner
two_states = record { buf = older ∷ newer ∷ []; cap = 4; write_pos = 2; len = 2 }

older-IsStored : IsStored older.snap
older-IsStored = record {
  nodes = (refl, (refl, tt));
  edges = tt;
  node_count = omega arith;
  edge_count = omega arith;
}

newer-IsStored : IsStored newer.snap
newer-IsStored = record {
  nodes = (refl, (refl, tt));
  edges = (refl, tt);
  node_count = omega arith;
  edge_count = omega arith;
}

slot-older : slot two_states 0 ≡ some older
unfolding slot
slot-older = refl

slot-newer : slot two_states 1 ≡ some newer
unfolding slot
slot-newer = refl

delta-Describes_example :
    (d : SnapshotDelta) × (delta two_states 0 1 ≡ some d) × Describes older.snap newer.snap d
delta-Describes_example =
    delta-Describes two_states 0 1 older newer slot-older slot-newer older-IsStored newer-IsStored
