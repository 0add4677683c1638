-- ===== src/HeapGraph/Released.antt =====
-- `on_free` and `gc_stale` of engine/src/heap_graph.rs: the index when objects go.
use rtmap.Base.{
  ℕ, ◌+◌, ◌-◌, ◌^◌, ◌≤◌, ◌<◌, ◌≡◌, refl, true, false, List, [], ◌∷◌, map, Option, none, some, ◌==◌,
  sym, ◌∙◌, not, Option_rule, arith, any, All, All-map, is_some, ◌>>=◌, add64, Bool-cases, ==_iff,
  inl, inr,
}
use rtmap.Base.TreeMap.{TreeMap, get, remove, get-remove, IsOrdered, remove-Above}
use rtmap.HeapGraph.{
  HeapGraph, HeapObject, assert_addr_to_base_invariant, HeapFieldInfo, remove_keys, release,
  release_all,
}

abbrev pub held_field : ℕ → ℕ → TreeMap HeapObject → Option HeapFieldInfo
held_field base offset objects = get base objects >>= λ obj. get offset obj.fields

-- An entry of the index: an address, and the object that has a field there.
pub record Points (objects : TreeMap HeapObject) (e : ℕ × ℕ) : Type 0 where
  pub small : e.0 < 2 ^ 64
  pub above : e.1 ≤ e.0
  pub present : is_some (held_field e.1 (e.0 - e.1) objects) ≡ true

pub Option_held :
    (f : HeapObject → Option HeapFieldInfo) (o : Option HeapObject)
    → is_some (o >>= f) ≡ true
    → is_some o ≡ true
Option_held f none h = h
Option_held f (some obj) h = refl

-- `k` is not among the keys.
abbrev Spared : List ℕ → ℕ → Type 0
Spared ks k = any (λ j. j == k) ks ≡ false

remove-Spared :
    (P : ℕ × ℕ → Type 0) (k : ℕ) (m : TreeMap ℕ)
    → All P m
    → All (λ e. P e × ((k == e.0) ≡ false)) (remove k m)
remove-Spared P k [] a = tt
remove-Spared P k ((j, v) ∷ m) a = elim (Bool-cases (j == k)) [
  | inl gone ↦ rw gone (remove-Spared P k m a.1)
  | inr kept ↦ rw kept ((a.0, ground arith), remove-Spared P k m a.1)
]

remove_keys-Spared :
    (P : ℕ × ℕ → Type 0) (ks : List ℕ) (m : TreeMap ℕ)
    → All P m
    → All (λ e. P e × Spared ks e.0) (remove_keys ks m)
remove_keys-Spared P [] m a = All-map (λ e p. (p, refl)) m a
remove_keys-Spared P (k ∷ ks) m a =
    All-map (λ e p. (p.0.0, ground arith)) (remove_keys ks (remove k m))
      (remove_keys-Spared (λ e. P e × ((k == e.0) ≡ false)) ks (remove k m) (remove-Spared P k m a))

-- The addresses of an object's fields have its fields.
get_of_Spared :
    (base offset : ℕ) (fields : TreeMap HeapFieldInfo)
    → base + offset < 2 ^ 64
    → Spared (map (λ f. add64 base f.0) fields) (base + offset)
    → get offset fields ≡ none
get_of_Spared base offset [] small s = refl
get_of_Spared base offset ((o, f) ∷ fields) small s =
    ground (arith, get_of_Spared base offset fields small)

-- An entry that the keys of a released object spare points at another.
remove-Points :
    (base : ℕ) (obj : HeapObject) (objects : TreeMap HeapObject) (e : ℕ × ℕ)
    → get base objects ≡ some obj
    → Points objects e
    → Spared (map (λ f. add64 base f.0) obj.fields) e.0
    → Points (remove base objects) e
remove-Points base obj objects (addr, to) found p s = elim (Bool-cases (base == to)) [
  | inl same ↦
      let here : base ≡ to = (==_iff base to).0 same in
      let sum : base + (addr - to) ≡ addr = omega (arith, p.above) in
      let gone : get (addr - to) obj.fields ≡ none =
        get_of_Spared base (addr - to) obj.fields (omega (arith, p.small)) (rw sum s) in
      let stored : get to objects ≡ some obj = (λ i. get (sym here i) objects) ∙ found in
      let lost : held_field to (addr - to) objects ≡ none = rw (stored, gone) refl in
      absurd (none_present lost p.present)
  | inr other ↦ record {
    small = p.small;
    above = p.above;
    present = rw (get-remove base to objects, other) p.present;
  }
]
  where
    none_present : {o : Option HeapFieldInfo} → o ≡ none → is_some o ≡ true → ⊥
    none_present h k = ground arith

-- What holds of the objects' order and of the index.
pub record IsIndexed (g : HeapGraph) : Type 0 where
  pub ordered : IsOrdered g.objects
  pub pointed : All (Points g.objects) g.addr_to_base

release-IsIndexed : (base : ℕ) (g : HeapGraph) → IsIndexed g → IsIndexed (release base g)
release-IsIndexed base g u =
    Option_rule IsIndexed (get base g.objects) (λ _. u)
      (λ obj found. record {
        ordered = remove-Above 0 base g.objects u.ordered;
        pointed =
            let keys = map (λ f. add64 base f.0) obj.fields in
            All-map (λ e p. remove-Points base obj g.objects e found p.0 p.1)
              (remove_keys keys g.addr_to_base)
              (remove_keys-Spared (Points g.objects) keys g.addr_to_base u.pointed);
      })

pub release_all-IsIndexed :
    (bases : List ℕ) (g : HeapGraph) → IsIndexed g → IsIndexed (release_all bases g)
release_all-IsIndexed [] g u = u
release_all-IsIndexed (base ∷ bases) g u =
    release_all-IsIndexed bases (release base g) (release-IsIndexed base g u)

pub release_all-recent_writes :
    (bases : List ℕ) (g : HeapGraph) → (release_all bases g).recent_writes ≡ g.recent_writes
release_all-recent_writes [] g = refl
release_all-recent_writes (base ∷ bases) g =
    release_all-recent_writes bases (release base g)
    ∙ Option_rule (λ (h : HeapGraph). h.recent_writes ≡ g.recent_writes) (get base g.objects)
        (λ _. refl) (λ obj found. refl)

-- No entry of the index names an object that is gone.
pub IsIndexed-assert : (g : HeapGraph) → IsIndexed g → assert_addr_to_base_invariant g ≡ true
unfolding assert_addr_to_base_invariant
IsIndexed-assert g u = over g.addr_to_base u.pointed
  where
    held : (e : ℕ × ℕ) → Points g.objects e → is_some (get e.1 g.objects) ≡ true
    held e p = Option_held (λ obj. get (e.0 - e.1) obj.fields) (get e.1 g.objects) p.present

    over :
        (m : TreeMap ℕ)
        → All (Points g.objects) m
        → not (any (λ e. not (is_some (get e.1 g.objects))) m) ≡ true
    over [] a = refl
    over (e ∷ m) a = rw (held e a.0) (over m a.1)
