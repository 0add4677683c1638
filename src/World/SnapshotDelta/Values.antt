-- ===== src/World/SnapshotDelta/Values.antt =====
-- What the lists in a delta of engine/src/world.rs name.
use Prim.Native.String.{String}
use mathlib.Core.List.{Mem, mem-cons_self, mem-cons_of_mem}
use mathlib.Core.Path.{subst}
use rtmap.Base.{
  if_cases, Bool-cases, inl, inr, ℕ, ◌≡◌, ◌≢◌, refl, sym, ◌∙◌, ap, Bool, true, false, not, ◌&&◌,
  List, [], ◌∷◌, Option, none, some, arith, ◌==◌, retain, is_some, All, All-map,
}
use rtmap.Base.KeyMap.{KeyMap, get}
use rtmap.Index.{NodeId, node_key, same_node, same_node_iff}
use rtmap.World.Nodes.{Node, WorldInner, contains}
use rtmap.World.SnapshotRing.{SnapEntry, SnapshotRing, slot}
use rtmap.World.SnapshotDelta.{
  SnapshotDelta, key_set, difference, intersection, push_name, names_of, push_change,
  changed_values, delta_of, delta,
}
use rtmap.World.SnapshotDelta.Balance.{
  contains-key_set, all_contained, IsStored, Balanced, delta_of-Balanced,
}

-- A node of the first map that the second has not.
abbrev pub IsNew : KeyMap NodeId Node → KeyMap NodeId Node → String → Type 0
IsNew a b s = (k : NodeId) × (n : Node) × (get k a ≡ some n) × (get k b ≡ none) × (s ≡ n.label)

-- A node of both maps, with another value in the second.
abbrev pub IsChange : KeyMap NodeId Node → KeyMap NodeId Node → String × ℕ × ℕ → Type 0
IsChange a b c =
    (k : NodeId) × (na : Node) × (nb : Node) × (get k a ≡ some na)
    × (get k b ≡ some nb)
    × (c ≡ (na.label, na.raw_value, nb.raw_value))
    × (na.raw_value ≢ nb.raw_value)

contains-retain :
    (p : NodeId → Bool) (ks : List NodeId) (k : NodeId)
    → contains (retain p ks) k ≡ (contains ks k && p k)
unfolding contains
contains-retain p [] k = refl
contains-retain p (j ∷ ks) k =
    let same : same_node j k ≡ true → p j ≡ p k = λ h. ap p ((same_node_iff j k).0 h) in
    ground (arith, same, contains-retain p ks k)

none_of : (o : Option Node) → is_some o ≡ false → o ≡ none
none_of none h = refl
none_of (some n) h = cc

module _ (m : KeyMap NodeId Node) where
  names_of-Mem :
      (ks : List NodeId) (k : NodeId) (n : Node)
      → contains ks k ≡ true
      → get k m ≡ some n
      → Mem n.label (names_of m ks)
  unfolding contains
  names_of-Mem [] k n c e = cc
  names_of-Mem (j ∷ ks) k n c e = elim (Bool-cases (same_node j k)) [
    | inl here ↦
        let key : get j m ≡ some n = ap (λ i. get i m) ((same_node_iff j k).0 here) ∙ e in
        subst (λ (o : Option Node). Mem n.label (push_name o (names_of m ks))) (sym key)
          mem-cons_self
    | inr other ↦ kept (get j m) (names_of-Mem ks k n (sym (rw other refl) ∙ c) e)
  ]
    where
      kept :
          (o : Option Node)
          → Mem n.label (names_of m ks)
          → Mem n.label (push_name o (names_of m ks))
      kept none h = h
      kept (some i) h = mem-cons_of_mem i.label h

  names_of-All :
      (P : String → Type 0) (ks : List NodeId)
      → All (λ k. (n : Node) → get k m ≡ some n → P n.label) ks
      → All P (names_of m ks)
  names_of-All P [] h = tt
  names_of-All P (k ∷ ks) h = by_node (names_of-All P ks h.1) (get k m) refl
    where
      by_node :
          All P (names_of m ks)
          → (o : Option Node) → get k m ≡ o
          → All P (push_name o (names_of m ks))
      by_node rest none e = rest
      by_node rest (some n) e = (h.0 n e, rest)

module _ (a b : KeyMap NodeId Node) where
  changed_values-Mem :
      (ks : List NodeId) (k : NodeId) (na nb : Node)
      → contains ks k ≡ true
      → get k a ≡ some na
      → get k b ≡ some nb
      → na.raw_value ≢ nb.raw_value
      → Mem (na.label, na.raw_value, nb.raw_value) (changed_values a b ks)
  unfolding contains
  changed_values-Mem [] k na nb c e f n = cc
  changed_values-Mem (j ∷ ks) k na nb c e f n = elim (Bool-cases (same_node j k)) [
    | inl here ↦
        let key = (same_node_iff j k).0 here in
        found (get j a) (get j b) (ap (λ i. get i a) key ∙ e) (ap (λ i. get i b) key ∙ f)
    | inr other ↦
        kept (get j a) (get j b) (changed_values-Mem ks k na nb (sym (rw other refl) ∙ c) e f n)
  ]
    where
      change : String × ℕ × ℕ
      change = (na.label, na.raw_value, nb.raw_value)

      found :
          (o p : Option Node)
          → o ≡ some na
          → p ≡ some nb
          → Mem change (push_change o p (changed_values a b ks))
      found o p x y =
          let differs : (na.raw_value == nb.raw_value) ≡ false = ground (arith, n) in
          subst (λ (q : Option Node). Mem change (push_change q p (changed_values a b ks))) (sym x)
            (subst
              (λ (q : Option Node). Mem change (push_change (some na) q (changed_values a b ks)))
              (sym y) (rw differs mem-cons_self))

      kept :
          (o p : Option Node)
          → Mem change (changed_values a b ks)
          → Mem change (push_change o p (changed_values a b ks))
      kept none p h = h
      kept (some x) none h = h
      kept (some x) (some y) h =
          if_cases (λ l. Mem change l) (x.raw_value == y.raw_value) (λ _. h)
            (λ _. mem-cons_of_mem (x.label, x.raw_value, y.raw_value) h)

  changed_values-All : (ks : List NodeId) → All (IsChange a b) (changed_values a b ks)
  changed_values-All [] = tt
  changed_values-All (k ∷ ks) = by_nodes (changed_values-All ks) (get k a) (get k b) refl refl
    where
      by_nodes :
          All (IsChange a b) (changed_values a b ks)
          → (o p : Option Node) → get k a ≡ o
          → get k b ≡ p
          → All (IsChange a b) (push_change o p (changed_values a b ks))
      by_nodes rest none p e f = rest
      by_nodes rest (some x) none e f = rest
      by_nodes rest (some x) (some y) e f =
          if_cases (λ l. All (IsChange a b) l) (x.raw_value == y.raw_value) (λ _. rest)
            (λ d.
              let differs : x.raw_value ≢ y.raw_value = λ h. ground (arith, h, d) in
              ((k, x, y, e, f, refl, differs), rest))

module _ (a b : KeyMap NodeId Node) where
  names_of-difference-All : All (IsNew a b) (names_of a (difference (key_set a) (key_set b)))
  names_of-difference-All = names_of-All a (IsNew a b) (difference (key_set a) (key_set b)) (
      All-map (λ k h n e. (k, n, e, absent k h, refl)) (difference (key_set a) (key_set b))
        (all_contained (difference (key_set a) (key_set b)) (difference (key_set a) (key_set b))
          (λ k h. h)))
    where
      absent :
          (k : NodeId) → contains (difference (key_set a) (key_set b)) k ≡ true → get k b ≡ none
      absent k h =
          let kept = contains-retain (λ j. not (contains (key_set b) j)) (key_set a) k in
          none_of (get k b) (ground (arith, h, kept, contains-key_set b k))

  names_of-difference-Mem :
      (k : NodeId) (n : Node)
      → get k a ≡ some n
      → get k b ≡ none
      → Mem n.label (names_of a (difference (key_set a) (key_set b)))
  names_of-difference-Mem k n e f =
      let kept = contains-retain (λ j. not (contains (key_set b) j)) (key_set a) k in
      let there : contains (key_set a) k ≡ true = contains-key_set a k ∙ ap is_some e in
      let absent : contains (key_set b) k ≡ false = contains-key_set b k ∙ ap is_some f in
      names_of-Mem a (difference (key_set a) (key_set b)) k n (ground (arith, kept, there, absent))
        e

  intersection-contains :
      (k : NodeId) (na nb : Node)
      → get k a ≡ some na
      → get k b ≡ some nb
      → contains (intersection (key_set a) (key_set b)) k ≡ true
  intersection-contains k na nb e f =
      let kept = contains-retain (contains (key_set b)) (key_set a) k in
      let there : contains (key_set a) k ≡ true = contains-key_set a k ∙ ap is_some e in
      let also : contains (key_set b) k ≡ true = contains-key_set b k ∙ ap is_some f in
      ground (arith, kept, there, also)

-- What a delta says of the snapshots: it names each node that is new, each that is gone and each
-- change of a value, with the values, and nothing else, and its counts balance.
pub record Describes (a b : WorldInner) (d : SnapshotDelta) : Type 0 where
  pub balanced : Balanced a b d
  pub added : All (IsNew b.nodes a.nodes) d.nodes_added
  pub all_added :
      (k : NodeId) (n : Node)
      → get k b.nodes ≡ some n
      → get k a.nodes ≡ none
      → Mem n.label d.nodes_added
  pub removed : All (IsNew a.nodes b.nodes) d.nodes_removed
  pub all_removed :
      (k : NodeId) (n : Node)
      → get k a.nodes ≡ some n
      → get k b.nodes ≡ none
      → Mem n.label d.nodes_removed
  pub changed : All (IsChange a.nodes b.nodes) d.value_changes
  pub all_changed :
      (k : NodeId) (na nb : Node)
      → get k a.nodes ≡ some na
      → get k b.nodes ≡ some nb
      → na.raw_value ≢ nb.raw_value
      → Mem (na.label, na.raw_value, nb.raw_value) d.value_changes

-- Between two snapshots of a ring, in whose maps each key stands once and which have fewer than 2^64
-- entries, the delta names exactly the nodes that only the newer has, those that only the older has,
-- and the nodes of both whose value differs, with both values. Its counts balance: the nodes and the
-- edges of the newer snapshot are those of the older with what is added and without what is removed,
-- and the signed differences are what is added less what is removed.
pub delta-Describes :
    (r : SnapshotRing WorldInner) (i j : ℕ) (a b : SnapEntry WorldInner)
    → slot r i ≡ some a
    → slot r j ≡ some b
    → IsStored a.snap
    → IsStored b.snap
    → (d : SnapshotDelta) × (delta r i j ≡ some d) × Describes a.snap b.snap d
unfolding delta delta_of
delta-Describes r i j a b e f v w =
    let m = a.snap.nodes in
    let n = b.snap.nodes in
    (
      delta_of a b,
      rw (e, f) refl,
      record {
        balanced = delta_of-Balanced a b v w;
        added = names_of-difference-All n m;
        all_added = names_of-difference-Mem n m;
        removed = names_of-difference-All m n;
        all_removed = names_of-difference-Mem m n;
        changed = changed_values-All m n (intersection (key_set m) (key_set n));
        all_changed = λ k na nb p q differs.
            changed_values-Mem m n (intersection (key_set m) (key_set n)) k na nb
              (intersection-contains m n k na nb p q) p q differs;
      },
    )
