-- ===== src/World/Nodes.antt =====
-- `WorldState` and `WorldInner` of engine/src/world.rs: the tracked variables and the pointers
-- between them, the last register values and the counters. The copy that `cow` makes of a shared
-- inner state is the copy that every value here is.
pub mod Linked
pub mod Sources
use Prim.Native.String.{String}
use rtmap.Base.{
  ℕ, ◌+◌, ◌^◌, ◌-◌, ◌==◌, Bool, true, false, not, ◌&&◌, List, [], ◌∷◌, Option, none, some, map,
  add64, any, if◌then◌else◌, length, replicate, retain, is_some,
}
use rtmap.Base.KeyMap.{KeyMap, get, insert, remove, nat_key}
use rtmap.Dwarf.{TypeInfo}
use rtmap.Index.{NodeId, global, field, local, same_node, node_key}

pub record LiveRegisterFile : Type 0 where
  pub values : List ℕ
  pub prev : List ℕ
  pub insn : ℕ

abbrev pub update_file : List ℕ → ℕ → LiveRegisterFile → LiveRegisterFile
update_file regs insn f = record { values = regs; prev = f.values; insn = insn }

pub record Node : Type 0 where
  pub label : String
  pub type_info : TypeInfo
  pub addr : ℕ
  pub size : ℕ
  pub raw_value : ℕ
  pub last_write_insn : ℕ

pub record PointerEdge : Type 0 where
  pub source : NodeId
  pub target : NodeId
  pub ptr_value : ℕ
  pub is_dangling : Bool

pub record WorldInner : Type 0 where
  pub nodes : KeyMap NodeId Node
  pub edges : KeyMap NodeId PointerEdge
  pub insn_counter : ℕ
  pub reg_file : LiveRegisterFile
  pub bb_hits : KeyMap ℕ ℕ

pub new : WorldInner
new = record {
  nodes = [];
  edges = [];
  insn_counter = 0;
  reg_file = record { values = replicate 18 0; prev = replicate 18 0; insn = 0 };
  bb_hits = [];
}

pub inc_insn_counter : WorldInner → WorldInner
inc_insn_counter w = record w { insn_counter = add64 w.insn_counter 1 }

-- `*entry(k).or_insert(0) += 1`
abbrev pub count_up : ℕ → KeyMap ℕ ℕ → KeyMap ℕ ℕ
count_up k m = insert k (add64 (elim (get k m) [ none ↦ 0 | some n ↦ n ]) 1) m

pub record_bb_entry : ℕ → WorldInner → WorldInner
unfolding inc_insn_counter
record_bb_entry rip_lo w = inc_insn_counter (record w { bb_hits = count_up rip_lo w.bb_hits })

pub node_exists : NodeId → WorldInner → Bool
node_exists id w = is_some (get id w.nodes)

-- The answer is whether the node is new.
pub ensure_node : NodeId → String → TypeInfo → ℕ → ℕ → WorldInner → WorldInner × Bool
ensure_node id label t addr size w = if is_some (get id w.nodes) then (w, false) else (
  record w {
    nodes =
        insert id
          (record {
            label = label;
            type_info = t;
            addr = addr;
            size = size;
            raw_value = 0;
            last_write_insn = 0;
          })
          w.nodes;
  },
  true,
)

pub remove_node : NodeId → WorldInner → WorldInner
remove_node id w = record w { nodes = remove id w.nodes; edges = remove id w.edges }

pub update_value : NodeId → ℕ → ℕ → WorldInner → WorldInner
update_value id value insn w = elim (get id w.nodes) [
  | none ↦ w
  | some n ↦ record w {
    nodes = insert id (record n { raw_value = value; last_write_insn = insn }) w.nodes;
  }
]

abbrev pub is_local_of : ℕ → NodeId → Bool
is_local_of frame_id (local fid i) = fid == frame_id
is_local_of frame_id id = false

-- The ids of the frame's locals.
unfoldable pub dead_nodes : ℕ → KeyMap NodeId Node → List NodeId
dead_nodes frame_id nodes = retain (is_local_of frame_id) (map (λ e. e.0) nodes)

unfoldable pub contains : List NodeId → NodeId → Bool
contains ids id = any (λ d. same_node d id) ids

abbrev pub remove_each : {V : Type 0} → List NodeId → KeyMap NodeId V → KeyMap NodeId V
remove_each [] m = m
remove_each (id ∷ ids) m = remove_each ids (remove id m)

pub remove_frame_nodes : ℕ → WorldInner → WorldInner
unfolding dead_nodes contains
remove_frame_nodes frame_id w =
    let dead = dead_nodes frame_id w.nodes in
    record w {
      nodes = remove_each dead w.nodes;
      edges = retain (λ e. not (contains dead e.1.target)) (remove_each dead w.edges);
    }

-- An edge whose target is unknown: its id is the sentinel `Global(u32::MAX)`.
abbrev pub dangling : NodeId → ℕ → PointerEdge
dangling source ptr_value = record {
  source = source;
  target = global (2 ^ 32 - 1);
  ptr_value = ptr_value;
  is_dangling = true;
}

pub update_edge : NodeId → Option NodeId → ℕ → WorldInner → WorldInner
update_edge source (some target) ptr_value w = record w {
  edges =
      insert source
        (record { source = source; target = target; ptr_value = ptr_value; is_dangling = false })
        w.edges;
}
update_edge source none ptr_value w = record w {
  edges =
      if ptr_value == 0
      then remove source w.edges
      else insert source (dangling source ptr_value) w.edges;
}

unfoldable pub update_regs : List ℕ → ℕ → WorldInner → WorldInner
update_regs regs insn w = record w { reg_file = update_file regs insn w.reg_file }

pub node_count : WorldInner → ℕ
node_count w = length w.nodes

pub edge_count : WorldInner → ℕ
edge_count w = length w.edges

-- What a write to the variable `id` makes of the nodes and edges, as the event's handler does it: a
-- pointer of 8 bytes also gets an edge, to the target that the index gave for its value.
pub write_variable :
    NodeId → String → TypeInfo → ℕ → ℕ → ℕ → Option (Option NodeId × ℕ) → WorldInner → WorldInner
unfolding node_exists ensure_node update_value update_edge
write_variable id label t addr size val pointer w =
    let known = if node_exists id w then w else (ensure_node id label t addr size w).0 in
    let written = update_value id val known.insn_counter known in
    elim pointer [
      | none ↦ written
      | some (target, ptr_value) ↦ update_edge id target ptr_value written
    ]
