-- ===== src/Tests/Variables.antt =====
-- The tracked variables of engine/src/world.rs at concrete inputs.
use rtmap.Base.{ℕ, ◌≡◌, refl, List, [], ◌∷◌, none, some, false}
use rtmap.Base.KeyMap.{get}
use rtmap.Dwarf.{TypeInfo, type_info, no_fields}
use rtmap.Index.{global, local, node_key}
use rtmap.World.Nodes.{Node, WorldInner, new, remove_frame_nodes}
use rtmap.World.Nodes.Linked.{surviving, remove_frame_nodes-get}
use rtmap.World.Nodes.Sources.{
  Op, declare, write, forget, leave_frame, enter_block, run, HasSources, run-HasSources,
}

abbrev word : TypeInfo
word = type_info "uint64_t" 8 false false false false no_fields

abbrev node_at : ℕ → Node
node_at a = record {
  label = "x";
  type_info = word;
  addr = a;
  size = 8;
  raw_value = 0;
  last_write_insn = 0;
}

-- A global points to a local of frame 5.
abbrev linked : WorldInner
linked = record {
  nodes = (local 5 0, node_at 0x7000) ∷ (global 1, node_at 0x1000) ∷ [];
  edges =
      (
        global 1,
        record { source = global 1; target = local 5 0; ptr_value = 0x7000; is_dangling = false },
      )
      ∷ [];
  insn_counter = 9;
  reg_file = record { values = []; prev = []; insn = 0 };
  bb_hits = [];
}

remove_frame_nodes-get_example :
    (get (global 1) (remove_frame_nodes 5 linked).nodes ≡ some (node_at 0x1000))
    × (get (global 1) (remove_frame_nodes 5 linked).edges
        ≡ surviving 5 linked (global 1) (get (global 1) linked.edges))
remove_frame_nodes-get_example = remove_frame_nodes-get 5 (global 1) linked (refl, tt)

abbrev ops : List Op
ops =
    declare (global 1) "g" word 0x1000 8
    ∷ write (local 5 0) "x" word 0x7000 8 3 none
    ∷ write (global 1) "g" word 0x1000 8 0x7000 (some (some (local 5 0), 0x7000))
    ∷ enter_block 0x40
    ∷ leave_frame 5
    ∷ forget (global 1)
    ∷ []

run-HasSources_example : HasSources (run ops new)
run-HasSources_example = run-HasSources ops
