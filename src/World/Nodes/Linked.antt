-- ===== src/World/Nodes/Linked.antt =====
-- The edges and the nodes of engine/src/world.rs belong together.
use rtmap.Base.{
  ℕ, ◌≡◌, refl, sym, ap, ◌∙◌, Bool, true, false, not, ◌&&◌, ◌||◌, List, [], ◌∷◌, Option, none, some,
  arith, Bool-cases, inl, inr, if◌then◌else◌, is_some,
}
use rtmap.Base.KeyMap.{KeyMap, get, remove, get-remove, get-retain, IsMap, remove-IsMap}
use rtmap.Index.{NodeId, same_node, same_node_iff, node_key}
use rtmap.World.Nodes.{
  Node, PointerEdge, WorldInner, dead_nodes, contains, remove_each, remove_frame_nodes, is_local_of,
}

get-remove_each :
    {V : Type 0} (ids : List NodeId) (k : NodeId) (m : KeyMap NodeId V)
    → get k (remove_each ids m) ≡ (if contains ids k then none else get k m)
unfolding contains
get-remove_each [] k m = refl
get-remove_each (d ∷ ids) k m =
    get-remove_each ids k (remove d m) ∙ ground (arith, get-remove d k m)

remove_each-IsMap :
    {V : Type 0} (ids : List NodeId) (m : KeyMap NodeId V) → IsMap m → IsMap (remove_each ids m)
remove_each-IsMap [] m u = u
remove_each-IsMap (d ∷ ids) m u = remove_each-IsMap ids (remove d m) (remove-IsMap d m u)

-- Whether the id is that of a local of the frame that has a node.
unfoldable pub is_dead : ℕ → NodeId → WorldInner → Bool
is_dead frame_id id w = is_local_of frame_id id && is_some (get id w.nodes)

contains-dead_nodes :
    (frame_id : ℕ) (id : NodeId) (nodes : KeyMap NodeId Node)
    → contains (dead_nodes frame_id nodes) id ≡ (is_local_of frame_id id && is_some (get id nodes))
unfolding contains dead_nodes
contains-dead_nodes frame_id id [] = ground arith
contains-dead_nodes frame_id id ((k, n) ∷ nodes) =
    let rest = contains-dead_nodes frame_id id nodes in
    elim (Bool-cases (same_node k id)) [
      | inl here ↦
          let kind : is_local_of frame_id k ≡ is_local_of frame_id id =
            ap (is_local_of frame_id) ((same_node_iff k id).0 here) in
          elim (Bool-cases (is_local_of frame_id k)) [
            | inl mine ↦ let same_kind = sym kind ∙ mine in rw (mine, here, same_kind) refl
            | inr free ↦
                let same_kind = sym kind ∙ free in
                rw (free, here, same_kind) (rest ∙ rw same_kind refl)
          ]
      | inr other ↦ elim (Bool-cases (is_local_of frame_id k)) [
        | inl mine ↦ rw (other, mine, other) rest
        | inr free ↦ rw (other, free) rest
      ]
    ]

-- What is left of an edge that starts at `id`.
unfoldable pub surviving : ℕ → WorldInner → NodeId → Option PointerEdge → Option PointerEdge
surviving frame_id w id none = none
surviving frame_id w id (some e) =
    if is_dead frame_id id w || is_dead frame_id e.target w then none else some e

keep_nodes :
    (b : Bool) (o : Option Node) → (if b && is_some o then none else o) ≡ (if b then none else o)
keep_nodes true none = refl
keep_nodes true (some n) = refl
keep_nodes false o = refl

keep_edges :
    (frame_id : ℕ) (w : WorldInner) (id : NodeId) (gone : NodeId → Bool) (o : Option PointerEdge)
    → ((k : NodeId) → gone k ≡ is_dead frame_id k w)
    → elim (if gone id then none else o) [
      | none ↦ none
      | some v ↦ if not (gone v.target) then some v else none
    ]
      ≡ surviving frame_id w id o
unfolding surviving
keep_edges frame_id w id gone none h = ground arith
keep_edges frame_id w id gone (some e) h = ground (arith, h id, h e.target)

-- The end of a frame takes away the nodes of its locals, the edges that start at such a node and
-- those that point to one, and nothing else.
pub remove_frame_nodes-get :
    (frame_id : ℕ) (id : NodeId) (w : WorldInner)
    → IsMap w.edges
    → (get id (remove_frame_nodes frame_id w).nodes
        ≡ (if is_local_of frame_id id then none else get id w.nodes))
      × (get id (remove_frame_nodes frame_id w).edges ≡ surviving frame_id w id (get id w.edges))
unfolding remove_frame_nodes surviving is_dead
remove_frame_nodes-get frame_id id w u =
    let dead = dead_nodes frame_id w.nodes in
    (
      get-remove_each dead id w.nodes
          ∙ ap (λ b. if b then none else get id w.nodes) (contains-dead_nodes frame_id id w.nodes)
          ∙ keep_nodes (is_local_of frame_id id) (get id w.nodes),
      get-retain (λ e. not (contains dead e.1.target)) id (remove_each dead w.edges)
            (remove_each-IsMap dead w.edges u)
          ∙ ap
              (λ (o : Option PointerEdge). elim o [
                | none ↦ none
                | some v ↦ if not (contains dead v.target) then some v else none
              ])
              (get-remove_each dead id w.edges)
          ∙ keep_edges frame_id w id (contains dead) (get id w.edges)
              (λ k. contains-dead_nodes frame_id k w.nodes),
    )
