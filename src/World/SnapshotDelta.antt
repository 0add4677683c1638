-- ===== src/World/SnapshotDelta.antt =====
-- `SnapshotRing::delta` of engine/src/world.rs: what changed between two snapshots. The maps of a
-- snapshot are ordered by their keys in the code; here the set of the keys is put in that order.
pub mod Balance
pub mod Values
use Prim.Native.String.{String}
use rtmap.Base.{
  ℕ, Bool, true, false, not, ◌&&◌, ◌||◌, List, [], ◌∷◌, Option, none, some, ◌==◌, ltb, sub64,
  if◌then◌else◌, length, retain, ◌>>=◌,
}
use rtmap.Base.KeyMap.{KeyMap, get}
use rtmap.Index.{NodeId, global, field, local, node_key}
use rtmap.World.Nodes.{Node, WorldInner, contains}
use rtmap.World.SnapshotRing.{SnapEntry, SnapshotRing, slot}

pub record SnapshotDelta : Type 0 where
  pub older_seq : ℕ
  pub newer_seq : ℕ
  pub node_delta : ℕ
  pub edge_delta : ℕ
  pub nodes_added : List String
  pub nodes_removed : List String
  pub edges_added : ℕ
  pub edges_removed : ℕ
  pub value_changes : List (String × ℕ × ℕ)

-- The derived order.
abbrev pub is_less : NodeId → NodeId → Bool
is_less (global a) (global b) = ltb a b
is_less (global a) n = true
is_less (field a i) (global b) = false
is_less (field a i) (field b j) = ltb a b || ((a == b) && ltb i j)
is_less (field a i) (local b j) = true
is_less (local a i) (local b j) = ltb a b || ((a == b) && ltb i j)
is_less (local a i) n = false

abbrev pub put_key : NodeId → List NodeId → List NodeId
put_key k [] = k ∷ []
put_key k (j ∷ ks) = if is_less k j then k ∷ j ∷ ks else j ∷ put_key k ks

-- `keys().collect::<BTreeSet<_>>()`
abbrev pub key_set {ℓ} : {V : Type ℓ} → KeyMap NodeId V → List NodeId
key_set [] = []
key_set ((k, v) ∷ m) = put_key k (key_set m)

abbrev pub difference : List NodeId → List NodeId → List NodeId
difference xs ys = retain (λ k. not (contains ys k)) xs

abbrev pub intersection : List NodeId → List NodeId → List NodeId
intersection xs ys = retain (contains ys) xs

abbrev pub push_name : Option Node → List String → List String
push_name none rest = rest
push_name (some n) rest = n.label ∷ rest

-- `filter_map(|nid| nodes.get(nid).map(|n| n.name.clone()))`
abbrev pub names_of : KeyMap NodeId Node → List NodeId → List String
names_of m [] = []
names_of m (k ∷ ks) = push_name (get k m) (names_of m ks)

abbrev pub push_change : Option Node → Option Node → List (String × ℕ × ℕ) → List (String × ℕ × ℕ)
push_change (some na) (some nb) rest =
    if na.raw_value == nb.raw_value then rest else (na.label, na.raw_value, nb.raw_value) ∷ rest
push_change (some na) none rest = rest
push_change none b rest = rest

abbrev pub changed_values :
    KeyMap NodeId Node → KeyMap NodeId Node → List NodeId → List (String × ℕ × ℕ)
changed_values a b [] = []
changed_values a b (k ∷ ks) = push_change (get k a) (get k b) (changed_values a b ks)

unfoldable pub delta_of : SnapEntry WorldInner → SnapEntry WorldInner → SnapshotDelta
delta_of a b =
    let a_keys = key_set a.snap.nodes in
    let b_keys = key_set b.snap.nodes in
    let a_edge_keys = key_set a.snap.edges in
    let b_edge_keys = key_set b.snap.edges in
    record {
      older_seq = a.event_seq;
      newer_seq = b.event_seq;
      node_delta = sub64 (length b.snap.nodes) (length a.snap.nodes);
      edge_delta = sub64 (length b.snap.edges) (length a.snap.edges);
      nodes_added = names_of b.snap.nodes (difference b_keys a_keys);
      nodes_removed = names_of a.snap.nodes (difference a_keys b_keys);
      edges_added = length (difference b_edge_keys a_edge_keys);
      edges_removed = length (difference a_edge_keys b_edge_keys);
      value_changes = changed_values a.snap.nodes b.snap.nodes (intersection a_keys b_keys);
    }

pub delta : SnapshotRing WorldInner → ℕ → ℕ → Option SnapshotDelta
delta r older_idx newer_idx =
    slot r older_idx >>= λ a. slot r newer_idx >>= λ b. some (delta_of a b)
