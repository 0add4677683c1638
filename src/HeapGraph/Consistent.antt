-- ===== src/HeapGraph/Consistent.antt =====
-- `process_write` of engine/src/heap_graph.rs, where the index of addresses and the objects agree.
use rtmap.Base.{
  ℕ, ◌-◌, ◌^◌, ◌≤◌, ◌<◌, ◌≡◌, refl, sym, ◌∙◌, Bool, true, false, List, [], ◌∷◌, ◌++◌, Option, none,
  some, ◌==◌, arith, All, All-map, All-append, All-retain, retain, drop, length, ltb, leb, is_some,
  sub64, add64, ◌>>=◌, if_cases, Option_rule, Bool-cases, ==_iff, ==_refl, inl, inr,
}
use rtmap.Base.TreeMap.{
  TreeMap, get, insert, get-insert, insert-Above, last_le, last_le-get, All_of_get,
}
use rtmap.HeapGraph.{
  HeapGraph, HeapObject, RecentWrite, process_write, find_object_base, within, write_object,
  make_cluster, cluster_object, cluster_fields, base_of, first_of, remember, cluster_window,
  min_cluster_writes, cluster_radius, abs_diff,
}
use rtmap.HeapGraph.Released.{held_field, Points, IsIndexed, Option_held}
use rtmap.HeapGraph.Clusters.{
  HasField, base_of-le, base_of-All, cluster_fields-HasField, cluster_index-All, insert_other,
}

abbrev pub IsAddress : RecentWrite → Type 0
IsAddress w = w.addr < 2 ^ 64

pub record Consistent (g : HeapGraph) : Type 0 where
  pub indexed : IsIndexed g
  pub addressed : All IsAddress g.recent_writes

-- What `find_object_base` finds is an object.
find_object_base-objects :
    (addr base : ℕ) (g : HeapGraph)
    → IsIndexed g
    → find_object_base addr g ≡ some base
    → is_some (get base g.objects) ≡ true
unfolding find_object_base
find_object_base-objects addr base g u =
    Option_rule Sound (get addr g.addr_to_base) {x = last_le addr g.objects >>= within addr}
      {f = some} (λ _. bounded (last_le addr g.objects) refl)
      (λ b e h.
        let p = All_of_get (Points g.objects) addr b g.addr_to_base u.pointed e in
        let held = Option_held (λ obj. get (addr - b) obj.fields) (get b g.objects) p.present in
        ground arith)
  where
    Sound : Option ℕ → Type 0
    Sound o = o ≡ some base → is_some (get base g.objects) ≡ true

    by_range : (e : ℕ × HeapObject) → last_le addr g.objects ≡ some e → Sound (within addr e)
    by_range (b, obj) found =
        if_cases Sound (ltb addr (add64 obj.base_addr obj.inferred_size))
          (λ _ h. let at = last_le-get 0 addr b obj g.objects u.ordered found in ground arith)
          (λ _ h. ground arith)

    bounded : (o : Option (ℕ × HeapObject)) → last_le addr g.objects ≡ o → Sound (o >>= within addr)
    bounded none found h = ground arith
    bounded (some e) found h = by_range e found h

-- An object whose fields include those of the object it replaces keeps the index right.
insert-Points :
    (base : ℕ) (obj : HeapObject) (objects : TreeMap HeapObject) (e : ℕ × ℕ)
    → ((offset : ℕ) → is_some (held_field base offset objects) ≡ true → HasField offset obj.fields)
    → Points objects e
    → Points (insert base obj objects) e
insert-Points base obj objects (addr, to) grown p = record {
  small = p.small;
  above = p.above;
  present = elim (Bool-cases (base == to)) [
    | inl same ↦
        let here : base ≡ to = (==_iff base to).0 same in
        let old : is_some (held_field base (addr - to) objects) ≡ true =
          (λ i. is_some (held_field (here i) (addr - to) objects)) ∙ p.present in
        rw (get-insert base to obj objects, same) (grown (addr - to) old)
    | inr other ↦ rw (get-insert base to obj objects, other) p.present
  ];
}

write_object-grown :
    (base addr size value seq : ℕ) (obj : HeapObject) (objects : TreeMap HeapObject) (offset : ℕ)
    → get base objects ≡ some obj
    → is_some (held_field base offset objects) ≡ true
    → HasField offset (write_object base addr size value seq obj).fields
unfolding write_object
write_object-grown base addr size value seq obj objects offset found old =
    let held : HasField offset obj.fields =
      (λ i. is_some (sym found i >>= λ o. get offset o.fields)) ∙ old in
    insert_other (sub64 addr base) offset _ obj.fields held

-- A write into an object that is there.
write-Consistent :
    (base addr size value seq : ℕ) (obj : HeapObject) (g : HeapGraph)
    → get base g.objects ≡ some obj
    → Consistent g
    → Consistent
        (record g { objects = insert base (write_object base addr size value seq obj) g.objects })
write-Consistent base addr size value seq obj g found c =
    let written = write_object base addr size value seq obj in
    record {
      indexed = record {
        ordered = insert-Above 0 base written g.objects (omega arith) c.indexed.ordered;
        pointed =
            All-map
              (λ e p.
                insert-Points base written g.objects e
                  (λ offset old.
                    write_object-grown base addr size value seq obj g.objects offset found old)
                  p)
              g.addr_to_base c.indexed.pointed;
      };
      addressed = c.addressed;
    }

cluster-Points :
    (seq first : ℕ) (w : RecentWrite) (ws : List RecentWrite) (objects : TreeMap HeapObject)
    → All IsAddress (w ∷ ws)
    → All
        (λ n.
          Points
            (insert
              (base_of w.addr ws)
              (cluster_object (base_of w.addr ws) seq first (w ∷ ws))
              objects)
            (n.addr, base_of w.addr ws))
        (w ∷ ws)
unfolding cluster_object
cluster-Points seq first w ws objects a =
    over (w ∷ ws) a (base_of-le w.addr ws, base_of-All w.addr ws)
      (cluster_fields-HasField base (w ∷ ws) [])
  where
    base : ℕ
    base = base_of w.addr ws

    obj : HeapObject
    obj = cluster_object base seq first (w ∷ ws)

    over :
        (ns : List RecentWrite)
        → All IsAddress ns
        → All (λ n. base ≤ n.addr) ns
        → All (λ n. HasField (sub64 n.addr base) (cluster_fields base (w ∷ ws) [])) ns
        → All (λ n. Points (insert base obj objects) (n.addr, base)) ns
    over [] a l f = tt
    over (n ∷ ns) a l f = (
      record {
        small = a.0;
        above = l.0;
        present =
            let offset : sub64 n.addr base ≡ n.addr - base = omega (arith, a.0, l.0) in
            let held : HasField (n.addr - base) obj.fields =
              (λ i. is_some (get (sym offset i) (cluster_fields base (w ∷ ws) []))) ∙ f.0 in
            rw (get-insert base base obj objects, ==_refl base) held;
      },
      over ns a.1 l.1 f.1,
    )

make_cluster-Consistent :
    (seq : ℕ) (nearby : List RecentWrite) (g : HeapGraph)
    → All IsAddress nearby
    → Consistent g
    → Consistent (make_cluster seq nearby g)
unfolding make_cluster
make_cluster-Consistent seq [] g a c = c
make_cluster-Consistent seq (w ∷ ws) g a c =
    let base = base_of w.addr ws in
    let obj = cluster_object base seq (first_of w.seq ws) (w ∷ ws) in
    if_cases Consistent (ltb (length (w ∷ ws)) min_cluster_writes) (λ _. c)
      (λ _.
        if_cases Consistent (is_some (get base g.objects)) (λ _. c)
          (λ free. record {
            indexed = record {
              ordered = insert-Above 0 base obj g.objects (omega arith) c.indexed.ordered;
              pointed =
                  cluster_index-All (Points (insert base obj g.objects)) base (w ∷ ws)
                    g.addr_to_base (cluster-Points seq (first_of w.seq ws) w ws g.objects a)
                    (All-map
                      (λ e p.
                        insert-Points base obj g.objects e
                          (λ offset old. free_field base offset obj g.objects free old) p)
                      g.addr_to_base c.indexed.pointed);
            };
            addressed = c.addressed;
          }))
  where
    free_field :
        (base offset : ℕ) (obj : HeapObject) (objects : TreeMap HeapObject)
        → is_some (get base objects) ≡ false
        → is_some (held_field base offset objects) ≡ true
        → HasField offset obj.fields
    free_field base offset obj objects free old =
        let held = Option_held (λ o. get offset o.fields) (get base objects) old in ground arith

remember-IsAddress :
    (w : RecentWrite) (ws : List RecentWrite)
    → IsAddress w
    → All IsAddress ws
    → All IsAddress (remember w ws)
remember-IsAddress w ws h a =
    let all = All-append IsAddress ws (w ∷ []) a (h, tt) in
    if_cases (All IsAddress) (ltb cluster_window (length (ws ++ w ∷ [])))
      (λ _. later (ws ++ w ∷ []) all) (λ _. all)
  where
    later : (ns : List RecentWrite) → All IsAddress ns → All IsAddress (drop 1 ns)
    later [] a = tt
    later (n ∷ ns) a = a.1

-- The call ends, in a graph that is consistent.
abbrev pub Succeeds : Option HeapGraph → Type 0
Succeeds o = (g : HeapGraph) × (o ≡ some g) × Consistent g

pub process_write-Succeeds :
    (addr size value seq : ℕ) (g : HeapGraph)
    → addr < 2 ^ 64
    → Consistent g
    → Succeeds (process_write addr size value seq g)
unfolding process_write
process_write-Succeeds addr size value seq g h c =
    let w : RecentWrite = record { addr = addr; size = size; value = value; seq = seq } in
    let counted : HeapGraph = record g {
      total_events = add64 g.total_events 1;
      recent_writes = remember w g.recent_writes;
    } in
    let remembered : All IsAddress counted.recent_writes =
      remember-IsAddress w g.recent_writes h c.addressed in
    let c' : Consistent counted = record {
      indexed = record { ordered = c.indexed.ordered; pointed = c.indexed.pointed };
      addressed = remembered;
    } in
    let near : RecentWrite → Bool = λ n. leb (abs_diff n.addr addr) cluster_radius in
    Option_rule Succeeds (find_object_base addr counted)
      (λ _. (
        make_cluster seq (retain near counted.recent_writes) counted,
        refl,
        make_cluster-Consistent seq (retain near counted.recent_writes) counted
            (All-retain IsAddress near counted.recent_writes remembered) c',
      ))
      (λ base found.
        into base counted c' (get base counted.objects) refl
          (find_object_base-objects addr base counted c'.indexed found))
  where
    false_true : false ≡ true → ⊥
    false_true h = cc

    into :
        (base : ℕ) (counted : HeapGraph)
        → Consistent counted
        → (o : Option HeapObject) → get base counted.objects ≡ o
        → is_some o ≡ true
        → Succeeds (
            o >>= λ obj. some (record counted {
              objects = insert base (write_object base addr size value seq obj) counted.objects;
            }))
    into base counted c none found h = absurd (false_true h)
    into base counted c (some obj) found h =
        (_, refl, write-Consistent base addr size value seq obj counted found c)
