-- ===== src/HeapGraph/Clusters.antt =====
-- The clusters of writes of `process_write` in engine/src/heap_graph.rs, and the fields of the object
-- that is made of one.
use rtmap.Base.{ℕ, ◌≤◌, ◌≡◌, true, List, [], ◌∷◌, min, arith, All, is_some, sub64}
use rtmap.Base.TreeMap.{TreeMap, get, insert, get-insert, insert-All}
use rtmap.HeapGraph.{HeapFieldInfo, RecentWrite, base_of, cluster_fields, cluster_index}

pub base_of-le : (low : ℕ) (ws : List RecentWrite) → base_of low ws ≤ low
base_of-le low [] = omega arith
base_of-le low (w ∷ ws) = omega (arith, base_of-le (min low w.addr) ws)

pub base_of-All : (low : ℕ) (ws : List RecentWrite) → All (λ w. base_of low ws ≤ w.addr) ws
base_of-All low [] = tt
base_of-All low (w ∷ ws) =
    (omega (arith, base_of-le (min low w.addr) ws), base_of-All (min low w.addr) ws)

abbrev pub HasField : ℕ → TreeMap HeapFieldInfo → Type 0
HasField offset fields = is_some (get offset fields) ≡ true

module _ {ℓ} {V : Type ℓ} where
  pub insert_self : (k : ℕ) (v : V) (m : TreeMap V) → is_some (get k (insert k v m)) ≡ true
  insert_self k v m = rw (get-insert k k v m) (ground arith)

  pub insert_other :
      (k j : ℕ) (v : V) (m : TreeMap V)
      → is_some (get j m) ≡ true
      → is_some (get j (insert k v m)) ≡ true
  insert_other k j v m h = rw (get-insert k j v m) (ground arith)

cluster_fields_kept :
    (base o : ℕ) (ws : List RecentWrite) (fields : TreeMap HeapFieldInfo)
    → HasField o fields
    → HasField o (cluster_fields base ws fields)
cluster_fields_kept base o [] fields h = h
cluster_fields_kept base o (w ∷ ws) fields h =
    cluster_fields_kept base o ws _ (insert_other _ o _ fields h)

-- Every write of the cluster gets a field.
pub cluster_fields-HasField :
    (base : ℕ) (ws : List RecentWrite) (fields : TreeMap HeapFieldInfo)
    → All (λ w. HasField (sub64 w.addr base) (cluster_fields base ws fields)) ws
cluster_fields-HasField base [] fields = tt
cluster_fields-HasField base (w ∷ ws) fields = (
  cluster_fields_kept base (sub64 w.addr base) ws _ (insert_self _ _ fields),
  cluster_fields-HasField base ws _,
)

pub cluster_index-All :
    (P : ℕ × ℕ → Type 0) (base : ℕ) (ws : List RecentWrite) (m : TreeMap ℕ)
    → All (λ w. P (w.addr, base)) ws
    → All P m
    → All P (cluster_index base ws m)
cluster_index-All P base [] m f a = a
cluster_index-All P base (w ∷ ws) m f a =
    cluster_index-All P base ws (insert w.addr base m) f.1 (insert-All P w.addr base m f.0 a)
