-- ===== src/World/Nodes/Sources.antt =====
-- Runs of the operations of engine/src/world.rs on nodes and edges.
use Prim.Native.String.{String}
use rtmap.Base.{
  ℕ, ◌≡◌, refl, true, false, not, List, [], ◌∷◌, Option, none, some, arith, All, Bool-cases,
  Option_rule, if_cases, inl, inr, if◌then◌else◌, is_some, All-retain, if_rule, ◌==◌,
}
use rtmap.Base.KeyMap.{KeyMap, get, insert, remove, get-remove, get-insert, same_self}
use rtmap.Dwarf.{TypeInfo}
use rtmap.Index.{NodeId, same_node, node_key}
use rtmap.World.Nodes.{
  Node, PointerEdge, WorldInner, dead_nodes, contains, remove_each, remove_frame_nodes,
  update_value, update_edge, ensure_node, remove_node, node_exists, write_variable, new,
  update_regs, record_bb_entry,
}

pub data Op : Type 0 where
  declare : NodeId → String → TypeInfo → ℕ → ℕ → Op
  write : NodeId → String → TypeInfo → ℕ → ℕ → ℕ → Option (Option NodeId × ℕ) → Op
  forget : NodeId → Op
  leave_frame : ℕ → Op
  enter_block : ℕ → Op
  snapshot : List ℕ → ℕ → Op

unfoldable pub apply : Op → WorldInner → WorldInner
apply (declare id label t addr size) w = (ensure_node id label t addr size w).0
apply (write id label t addr size val pointer) w = write_variable id label t addr size val pointer w
apply (forget id) w = remove_node id w
apply (leave_frame frame_id) w = remove_frame_nodes frame_id w
apply (enter_block rip_lo) w = record_bb_entry rip_lo w
apply (snapshot regs insn) w = update_regs regs insn w

unfoldable pub run : List Op → WorldInner → WorldInner
unfolding apply
run [] w = w
run (o ∷ ops) w = run ops (apply o w)

abbrev HasNode : KeyMap NodeId Node → NodeId → Type 0
HasNode nodes id = is_some (get id nodes) ≡ true

-- Every edge starts at a node.
unfoldable pub HasSources : WorldInner → Type 0
HasSources w = All (λ e. is_some (get e.0 w.nodes) ≡ true) w.edges

module _ {V : Type 0} (P : NodeId × V → Type 0) where
  -- What is left after the removal of a key has other keys.
  remove_other :
      (id : NodeId) (m : KeyMap NodeId V)
      → All P m
      → All (λ e. P e × (same_node id e.0 ≡ false)) (remove id m)
  remove_other id [] a = tt
  remove_other id ((k, v) ∷ m) a = elim (Bool-cases (same_node k id)) [
    | inl gone ↦ rw gone (remove_other id m a.1)
    | inr kept ↦
        let flip : same_node id k ≡ false = ground arith in
        rw kept ((a.0, flip), remove_other id m a.1)
  ]

module _ {V : Type 0} (P Q : NodeId × V → Type 0) (imp : (e : NodeId × V) → P e → Q e) where
  All-imp : (m : KeyMap NodeId V) → All P m → All Q m
  All-imp [] a = tt
  All-imp (e ∷ m) a = (imp e a.0, All-imp m a.1)

declared :
    (id k : NodeId) (n : Node) (nodes : KeyMap NodeId Node)
    → HasNode nodes k
    → HasNode (insert id n nodes) k
declared id k n nodes h = ground (arith, get-insert id k n nodes)

inserted : (id : NodeId) (n : Node) (nodes : KeyMap NodeId Node) → HasNode (insert id n nodes) id
inserted id n nodes = rw (same_self id) refl

kept_node :
    (id k : NodeId) (nodes : KeyMap NodeId Node)
    → HasNode nodes k
    → same_node id k ≡ false
    → HasNode (remove id nodes) k
kept_node id k nodes h other = ground (arith, get-remove id k nodes)

abbrev Sourced : KeyMap NodeId Node → KeyMap NodeId PointerEdge → Type 0
Sourced nodes edges = All (λ e. HasNode nodes e.0) edges

insert_node :
    (id : NodeId) (n : Node) (nodes : KeyMap NodeId Node) (edges : KeyMap NodeId PointerEdge)
    → Sourced nodes edges
    → Sourced (insert id n nodes) edges
insert_node id n nodes edges h =
    All-imp (λ e. HasNode nodes e.0) (λ e. HasNode (insert id n nodes) e.0)
      (λ e k. declared id e.0 n nodes k) edges h

remove_both :
    (id : NodeId) (nodes : KeyMap NodeId Node) (edges : KeyMap NodeId PointerEdge)
    → Sourced nodes edges
    → Sourced (remove id nodes) (remove id edges)
remove_both id nodes edges h =
    All-imp (λ e. HasNode nodes e.0 × (same_node id e.0 ≡ false))
      (λ e. HasNode (remove id nodes) e.0) (λ e k. kept_node id e.0 nodes k.0 k.1) (remove id edges)
      (remove_other (λ e. HasNode nodes e.0) id edges h)

remove_all :
    (ids : List NodeId) (nodes : KeyMap NodeId Node) (edges : KeyMap NodeId PointerEdge)
    → Sourced nodes edges
    → Sourced (remove_each ids nodes) (remove_each ids edges)
remove_all [] nodes edges h = h
remove_all (id ∷ ids) nodes edges h =
    remove_all ids (remove id nodes) (remove id edges) (remove_both id nodes edges h)

remove_edge :
    (id : NodeId) (nodes : KeyMap NodeId Node) (edges : KeyMap NodeId PointerEdge)
    → Sourced nodes edges
    → Sourced nodes (remove id edges)
remove_edge id nodes edges h =
    All-imp (λ e. HasNode nodes e.0 × (same_node id e.0 ≡ false)) (λ e. HasNode nodes e.0)
      (λ e k. k.0) (remove id edges) (remove_other (λ e. HasNode nodes e.0) id edges h)

ensure_node-HasSources :
    (id : NodeId) (label : String) (t : TypeInfo) (addr size : ℕ) (w : WorldInner)
    → HasSources w
    → HasSources (ensure_node id label t addr size w).0
      × HasNode (ensure_node id label t addr size w).0.nodes id
unfolding HasSources ensure_node
ensure_node-HasSources id label t addr size w h = elim (Bool-cases (is_some (get id w.nodes))) [
  | inl old ↦ rw old (h, old)
  | inr fresh ↦ rw fresh (insert_node id _ w.nodes w.edges h, inserted id _ w.nodes)
]

update_value-HasSources :
    (id : NodeId) (val insn : ℕ) (w : WorldInner)
    → HasSources w
    → HasNode w.nodes id
    → HasSources (update_value id val insn w) × HasNode (update_value id val insn w).nodes id
unfolding HasSources update_value
update_value-HasSources id val insn w h k =
    Option_rule (λ v. HasSources v × HasNode v.nodes id) (get id w.nodes) (λ _. (h, k))
      (λ n _. (insert_node id _ w.nodes w.edges h, inserted id _ w.nodes))

update_edge-HasSources :
    (id : NodeId) (target : Option NodeId) (ptr_value : ℕ) (w : WorldInner)
    → HasSources w
    → HasNode w.nodes id
    → HasSources (update_edge id target ptr_value w)
unfolding HasSources update_edge
update_edge-HasSources id (some target) ptr_value w h k = (k, remove_edge id w.nodes w.edges h)
update_edge-HasSources id none ptr_value w h k =
    if_rule (Sourced w.nodes) (ptr_value == 0) (remove_edge id w.nodes w.edges h)
      (k, remove_edge id w.nodes w.edges h)

write_variable-HasSources :
    (id : NodeId) (label : String) (t : TypeInfo) (addr size val : ℕ)
    (pointer : Option (Option NodeId × ℕ)) (w : WorldInner)
    → HasSources w
    → HasSources (write_variable id label t addr size val pointer w)
unfolding write_variable node_exists
write_variable-HasSources id label t addr size val pointer w h =
    let known = if node_exists id w then w else (ensure_node id label t addr size w).0 in
    let here : HasSources known × HasNode known.nodes id = known_node in
    let (valued, node) = update_value-HasSources id val known.insn_counter known here.0 here.1 in
    by_pointer pointer (update_value id val known.insn_counter known) valued node
  where
    known_node :
        let known = if node_exists id w then w else (ensure_node id label t addr size w).0 in
        HasSources known × HasNode known.nodes id
    known_node =
        if_cases (λ v. HasSources v × HasNode v.nodes id) (is_some (get id w.nodes))
          (λ old. (h, old)) (λ _. ensure_node-HasSources id label t addr size w h)

    by_pointer :
        (pointer : Option (Option NodeId × ℕ)) (v : WorldInner)
        → HasSources v
        → HasNode v.nodes id
        → HasSources (elim pointer [
          | none ↦ v
          | some (target, ptr_value) ↦ update_edge id target ptr_value v
        ])
    by_pointer none v a b = a
    by_pointer (some (target, ptr_value)) v a b = update_edge-HasSources id target ptr_value v a b

apply-HasSources : (o : Op) (w : WorldInner) → HasSources w → HasSources (apply o w)
unfolding apply HasSources remove_node remove_frame_nodes record_bb_entry update_regs
apply-HasSources (declare id label t addr size) w h =
    (ensure_node-HasSources id label t addr size w h).0
apply-HasSources (write id label t addr size val pointer) w h =
    write_variable-HasSources id label t addr size val pointer w h
apply-HasSources (forget id) w h = remove_both id w.nodes w.edges h
apply-HasSources (leave_frame frame_id) w h =
    let dead = dead_nodes frame_id w.nodes in
    All-retain (λ e. HasNode (remove_each dead w.nodes) e.0) (λ e. not (contains dead e.1.target))
      (remove_each dead w.edges) (remove_all dead w.nodes w.edges h)
apply-HasSources (enter_block rip_lo) w h = h
apply-HasSources (snapshot regs insn) w h = h

-- In every state that a run of these operations reaches from the empty one, every edge starts at a
-- node that exists.
pub run-HasSources : (ops : List Op) → HasSources (run ops new)
unfolding run HasSources new
run-HasSources ops = all_ops ops new tt
  where
    all_ops : (ops : List Op) (w : WorldInner) → HasSources w → HasSources (run ops w)
    all_ops [] w h = h
    all_ops (o ∷ rest) w h = all_ops rest (apply o w) (apply-HasSources o w h)
