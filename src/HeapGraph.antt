-- ===== src/HeapGraph.antt =====
-- `HeapGraph` of engine/src/heap_graph.rs: objects that are inferred from clusters of
-- writes to the heap. The scores of candidate types, in f32, are left out: they touch neither the
-- objects' extent nor their fields and edges.
pub mod Released
pub mod Clusters
pub mod Consistent
pub mod Runs
use rtmap.Base.{
  ℕ, zero, suc, ◌+◌, ◌-◌, ◌%◌, ◌^◌, ◌*◌, min, max, Bool, true, false, not, ◌&&◌, ◌||◌, List, [],
  ◌∷◌, ◌++◌, map, Option, none, some, ◌==◌, ltb, leb, if◌then◌else◌, length, drop, retain, any,
  add64, sub64, add32, saturating_add64, is_some, ◌>>=◌,
}
use rtmap.Base.TreeMap.{TreeMap, get, insert, remove, last_le}
use rtmap.HeapOracle.{in_user_range}

pub record HeapFieldInfo : Type 0 where
  pub size : ℕ
  pub last_value : ℕ
  pub is_pointer : Bool
  pub write_count : ℕ
  pub last_seq : ℕ

pub record HeapEdge : Type 0 where
  pub source_addr : ℕ
  pub target_addr : ℕ
  pub field_offset : ℕ
  pub last_seq : ℕ
  pub write_count : ℕ

pub record HeapObject : Type 0 where
  pub base_addr : ℕ
  pub inferred_size : ℕ
  pub fields : TreeMap HeapFieldInfo
  pub outgoing_edges : List HeapEdge
  pub first_seq : ℕ
  pub last_seq : ℕ

pub record RecentWrite : Type 0 where
  pub addr : ℕ
  pub size : ℕ
  pub value : ℕ
  pub seq : ℕ

abbrev pub cluster_window : ℕ
cluster_window = 64

abbrev pub cluster_radius : ℕ
cluster_radius = 256

abbrev pub min_cluster_writes : ℕ
min_cluster_writes = 3

pub record HeapGraph : Type 0 where
  pub objects : TreeMap HeapObject
  pub addr_to_base : TreeMap ℕ
  pub recent_writes : List RecentWrite
  pub total_events : ℕ

unfoldable pub new : HeapGraph
new = record { objects = []; addr_to_base = []; recent_writes = []; total_events = 0 }

abbrev pub remove_keys : List ℕ → TreeMap ℕ → TreeMap ℕ
remove_keys [] m = m
remove_keys (k ∷ ks) m = remove_keys ks (remove k m)

-- An object goes, and with it the index entries of its fields.
abbrev pub release : ℕ → HeapGraph → HeapGraph
release base g = elim (get base g.objects) [
  | none ↦ g
  | some obj ↦ record g {
    objects = remove base g.objects;
    addr_to_base = remove_keys (map (λ f. add64 base f.0) obj.fields) g.addr_to_base;
  }
]

abbrev pub release_all : List ℕ → HeapGraph → HeapGraph
release_all [] g = g
release_all (base ∷ bases) g = release_all bases (release base g)

-- `range(addr..hi)`
pub on_free : ℕ → ℕ → HeapGraph → HeapGraph
on_free addr size g =
    let hi = saturating_add64 addr size in
    release_all (map (λ e. e.0) (retain (λ e. leb addr e.0 && ltb e.0 hi) g.objects)) g

pub gc_stale : ℕ → ℕ → HeapGraph → HeapGraph
gc_stale current_seq max_age g =
    let threshold = current_seq - max_age in
    release_all (map (λ e. e.0) (retain (λ e. ltb e.1.last_seq threshold) g.objects)) g

-- The assertion of a debug build: the index names objects that exist.
pub assert_addr_to_base_invariant : HeapGraph → Bool
assert_addr_to_base_invariant g = not (any (λ e. not (is_some (get e.1 g.objects))) g.addr_to_base)

abbrev pub within : ℕ → ℕ × HeapObject → Option ℕ
within addr (base, obj) =
    if ltb addr (add64 obj.base_addr obj.inferred_size) then some base else none

unfoldable pub find_object_base : ℕ → HeapGraph → Option ℕ
find_object_base addr g = elim (get addr g.addr_to_base) [
  | some base ↦ some base
  | none ↦ last_le addr g.objects >>= within addr
]

-- `entry(offset).or_insert(..)` and the four assignments.
abbrev pub write_field : ℕ → ℕ → ℕ → Bool → ℕ → TreeMap HeapFieldInfo → TreeMap HeapFieldInfo
write_field offset size value is_ptr seq fields =
    insert offset
      (elim (get offset fields) [
        | none ↦ record {
          size = size;
          last_value = value;
          is_pointer = is_ptr;
          write_count = 1;
          last_seq = seq;
        }
        | some f ↦ record f {
          last_value = value;
          is_pointer = is_ptr;
          write_count = add32 f.write_count 1;
          last_seq = seq;
        }
      ])
      fields

abbrev pub new_edge : ℕ → ℕ → ℕ → ℕ → HeapEdge
new_edge offset source target seq = record {
  source_addr = source;
  target_addr = target;
  field_offset = offset;
  last_seq = seq;
  write_count = 1;
}

-- The edge of the offset, or a new one.
abbrev pub put_edge : ℕ → ℕ → ℕ → ℕ → List HeapEdge → List HeapEdge
put_edge offset source target seq [] = new_edge offset source target seq ∷ []
put_edge offset source target seq (e ∷ edges) =
    if e.field_offset == offset
    then record e { target_addr = target; last_seq = seq; write_count = add32 e.write_count 1 }
      ∷ edges
    else e ∷ put_edge offset source target seq edges

abbrev pub is_pointer_write : ℕ → ℕ → Bool
is_pointer_write size value = (size == 8) && in_user_range value

-- A write into an object: its field, then its edge.
unfoldable pub write_object : ℕ → ℕ → ℕ → ℕ → ℕ → HeapObject → HeapObject
write_object base addr size value seq obj =
    let offset = sub64 addr base in
    let is_ptr = is_pointer_write size value in
    record obj {
      fields = write_field offset size value is_ptr seq obj.fields;
      last_seq = seq;
      outgoing_edges =
          if is_ptr && not (value == 0)
          then put_edge offset addr value seq obj.outgoing_edges
          else obj.outgoing_edges;
    }

abbrev pub abs_diff : ℕ → ℕ → ℕ
abs_diff a b = (a - b) + (b - a)

abbrev pub base_of : ℕ → List RecentWrite → ℕ
base_of low [] = low
base_of low (w ∷ ws) = base_of (min low w.addr) ws

abbrev pub highest_end : List RecentWrite → ℕ
highest_end [] = 0
highest_end (w ∷ ws) = max (add64 w.addr w.size) (highest_end ws)

abbrev pub first_of : ℕ → List RecentWrite → ℕ
first_of low [] = low
first_of low (w ∷ ws) = first_of (min low w.seq) ws

abbrev pub cluster_fields : ℕ → List RecentWrite → TreeMap HeapFieldInfo → TreeMap HeapFieldInfo
cluster_fields base [] fields = fields
cluster_fields base (w ∷ ws) fields =
    cluster_fields base ws (
      write_field (sub64 w.addr base) w.size w.value (is_pointer_write w.size w.value) w.seq fields)

abbrev pub cluster_index : ℕ → List RecentWrite → TreeMap ℕ → TreeMap ℕ
cluster_index base [] m = m
cluster_index base (w ∷ ws) m = cluster_index base ws (insert w.addr base m)

abbrev pub field_edges : ℕ → TreeMap HeapFieldInfo → List HeapEdge
field_edges base [] = []
field_edges base ((off, f) ∷ fields) =
    if f.is_pointer && not (f.last_value == 0)
    then new_edge off (add64 base off) f.last_value f.last_seq ∷ field_edges base fields
    else field_edges base fields

-- The object of a cluster of writes, `base` the lowest address.
unfoldable pub cluster_object : ℕ → ℕ → ℕ → List RecentWrite → HeapObject
cluster_object base seq first nearby =
    let fields = cluster_fields base nearby [] in
    record {
      base_addr = base;
      inferred_size = max (sub64 (highest_end nearby) base) 8;
      fields = fields;
      outgoing_edges = field_edges base fields;
      first_seq = first;
      last_seq = seq;
    }

unfoldable pub make_cluster : ℕ → List RecentWrite → HeapGraph → HeapGraph
unfolding cluster_object
make_cluster seq [] g = g
make_cluster seq (w ∷ ws) g =
    let nearby = w ∷ ws in
    let base = base_of w.addr ws in
    if ltb (length nearby) min_cluster_writes
    then g
    else if is_some (get base g.objects)
    then g
    else record g {
      objects = insert base (cluster_object base seq (first_of w.seq ws) nearby) g.objects;
      addr_to_base = cluster_index base nearby g.addr_to_base;
    }

abbrev pub remember : RecentWrite → List RecentWrite → List RecentWrite
remember w ws =
    let all = ws ++ w ∷ [] in if ltb cluster_window (length all) then drop 1 all else all

-- `none` is the panic of `unwrap` on an object that is not there.
unfoldable pub process_write : ℕ → ℕ → ℕ → ℕ → HeapGraph → Option HeapGraph
unfolding find_object_base write_object make_cluster
process_write addr size value seq g =
    let w : RecentWrite = record { addr = addr; size = size; value = value; seq = seq } in
    let counted = record g {
      total_events = add64 g.total_events 1;
      recent_writes = remember w g.recent_writes;
    } in
    elim (find_object_base addr counted) [
      | some base ↦ get base counted.objects >>= λ obj. some (record counted {
        objects = insert base (write_object base addr size value seq obj) counted.objects;
      })
      | none ↦ some (
          make_cluster seq
            (retain (λ n. leb (abs_diff n.addr addr) cluster_radius) counted.recent_writes) counted)
    ]

unfoldable pub object_count : HeapGraph → ℕ
object_count g = length g.objects

unfoldable pub sum_edges : TreeMap HeapObject → ℕ
sum_edges [] = 0
sum_edges ((base, o) ∷ objects) = length o.outgoing_edges + sum_edges objects

unfoldable pub edge_count : HeapGraph → ℕ
unfolding sum_edges
edge_count g = sum_edges g.objects
