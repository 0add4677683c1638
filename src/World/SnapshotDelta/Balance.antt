-- ===== src/World/SnapshotDelta/Balance.antt =====
-- The counts in a delta of engine/src/world.rs balance.
use rtmap.Base.{
  ℕ, suc, ◌+◌, ◌<◌, ◌^◌, ◌≡◌, refl, sym, ◌∙◌, ap, Bool, true, false, not, List, [], ◌∷◌, Option,
  none, some, arith, sub64, if◌then◌else◌, length, retain, is_some, All, All-retain, All-map,
  length-retain-le,
}
use rtmap.Base.KeyMap.{KeyMap, get, IsMap, same_self}
use rtmap.Index.{NodeId, node_key, same_node, same_node_iff}
use rtmap.World.Nodes.{Node, WorldInner, contains}
use rtmap.World.SnapshotRing.{SnapEntry}
use rtmap.World.SnapshotDelta.{
  SnapshotDelta, put_key, key_set, difference, intersection, push_name, names_of, delta_of,
}

same_node_sym : (a b : NodeId) → same_node a b ≡ same_node b a
same_node_sym a b = ground arith

abbrev IsDistinct : List NodeId → Type 0
IsDistinct [] = Unit
IsDistinct (k ∷ ks) = (contains ks k ≡ false) × IsDistinct ks

contains-put_key :
    (j : NodeId) (ks : List NodeId) (k : NodeId)
    → contains (put_key j ks) k ≡ (if same_node j k then true else contains ks k)
unfolding contains
contains-put_key j [] k = refl
contains-put_key j (i ∷ ks) k = ground (arith, contains-put_key j ks k)

length-put_key : (j : NodeId) (ks : List NodeId) → length (put_key j ks) ≡ length ks + 1
length-put_key j [] = refl
length-put_key j (i ∷ ks) = ground (arith, length-put_key j ks)

put_key-IsDistinct :
    (j : NodeId) (ks : List NodeId)
    → contains ks j ≡ false
    → IsDistinct ks
    → IsDistinct (put_key j ks)
unfolding contains
put_key-IsDistinct j [] n d = (refl, tt)
put_key-IsDistinct j (i ∷ ks) n d =
    ground (arith, n, d.0, d.1, same_node_sym i j, contains-put_key j ks i, put_key-IsDistinct j ks)

module _ {ℓ} {V : Type ℓ} where
  pub contains-key_set :
      (m : KeyMap NodeId V) (k : NodeId) → contains (key_set m) k ≡ is_some (get k m)
  unfolding contains
  contains-key_set [] k = refl
  contains-key_set ((j, v) ∷ m) k =
      ground (arith, contains-put_key j (key_set m) k, contains-key_set m k)

  length-key_set : (m : KeyMap NodeId V) → length (key_set m) ≡ length m
  length-key_set [] = refl
  length-key_set ((j, v) ∷ m) = ground (arith, length-put_key j (key_set m), length-key_set m)

  key_set-IsDistinct : (m : KeyMap NodeId V) → IsMap m → IsDistinct (key_set m)
  key_set-IsDistinct [] u = tt
  key_set-IsDistinct ((j, v) ∷ m) u =
      put_key-IsDistinct j (key_set m) (contains-key_set m j ∙ ap is_some u.0)
        (key_set-IsDistinct m u.1)

-- What is in both sets is counted alike from either side.
length-retain-not :
    (p : NodeId → Bool) (xs : List NodeId)
    → length (retain p xs) + length (retain (λ x. not (p x)) xs) ≡ length xs
length-retain-not p [] = refl
length-retain-not p (x ∷ xs) = ground (arith, length-retain-not p xs)

nothing_kept : (xs : List NodeId) → length (retain (λ x. false) xs) ≡ 0
nothing_kept [] = refl
nothing_kept (x ∷ xs) = nothing_kept xs

same_contained :
    (x y : NodeId) (xs : List NodeId) → same_node x y ≡ true → contains xs x ≡ contains xs y
same_contained x y xs h = ap (contains xs) ((same_node_iff x y).0 h)

intersection_step :
    (x : NodeId) (xs ys : List NodeId)
    → contains xs x ≡ false
    → length (intersection ys (x ∷ xs))
      ≡ length (intersection ys xs) + length (retain (same_node x) ys)
unfolding contains
intersection_step x xs [] n = refl
intersection_step x xs (y ∷ ys) n =
    ground (arith, n, same_contained x y xs, intersection_step x xs ys n)

retain_same :
    (x : NodeId) (ys : List NodeId)
    → IsDistinct ys
    → length (retain (same_node x) ys) ≡ (if contains ys x then 1 else 0)
unfolding contains
retain_same x [] d = refl
retain_same x (y ∷ ys) d =
    ground (arith, d.0, same_node_sym x y, same_contained x y ys, retain_same x ys d.1)

intersection_sym :
    (xs ys : List NodeId)
    → IsDistinct xs
    → IsDistinct ys
    → length (intersection xs ys) ≡ length (intersection ys xs)
unfolding contains
intersection_sym [] ys d e = sym (nothing_kept ys)
intersection_sym (x ∷ xs) ys d e =
    ground (arith, intersection_step x xs ys d.0, retain_same x ys e, intersection_sym xs ys d.1 e)

length-names_of :
    (m : KeyMap NodeId Node) (ks : List NodeId)
    → All (λ k. is_some (get k m) ≡ true) ks
    → length (names_of m ks) ≡ length ks
length-names_of m [] h = refl
length-names_of m (k ∷ ks) h = by_node (length-names_of m ks h.1) (get k m) h.0
  where
    by_node :
        length (names_of m ks) ≡ length ks
        → (o : Option Node) → is_some o ≡ true
        → length (push_name o (names_of m ks)) ≡ suc (length ks)
    by_node rest none e = cc
    by_node rest (some n) e = ap suc rest

pub all_contained :
    (zs ks : List NodeId)
    → ((k : NodeId) → contains ks k ≡ true → contains zs k ≡ true)
    → All (λ k. contains zs k ≡ true) ks
unfolding contains
all_contained zs [] f = tt
all_contained zs (k ∷ ks) f =
    (f k (rw (same_self k) refl), all_contained zs ks (λ j h. f j (ground (arith, h))))

pub stored_keys : (m : KeyMap NodeId Node) → All (λ k. is_some (get k m) ≡ true) (key_set m)
stored_keys m =
    All-map (λ k h. sym (contains-key_set m k) ∙ h) (key_set m)
      (all_contained (key_set m) (key_set m) (λ k h. h))

balance {ℓ} :
    {V : Type ℓ} (a b : KeyMap NodeId V)
    → IsMap a
    → IsMap b
    → length b + length (difference (key_set a) (key_set b))
      ≡ length a + length (difference (key_set b) (key_set a))
balance a b u v =
    let both =
      intersection_sym (key_set a) (key_set b) (key_set-IsDistinct a u) (key_set-IsDistinct b v) in
    let by_a = length-retain-not (contains (key_set b)) (key_set a) in
    let by_b = length-retain-not (contains (key_set a)) (key_set b) in
    omega (arith, both, by_a, by_b, length-key_set a, length-key_set b)

sub64_balance :
    (a b x y : ℕ)
    → b + x ≡ a + y
    → a < 2 ^ 64
    → b < 2 ^ 64
    → x < 2 ^ 64
    → y < 2 ^ 64
    → sub64 b a ≡ sub64 y x
sub64_balance a b x y h p q r s = omega (arith, h, p, q, r, s)

-- Each key stands once, as in a map, and there are fewer entries than 2^64.
pub record IsStored (w : WorldInner) : Type 0 where
  pub nodes : IsMap w.nodes
  pub edges : IsMap w.edges
  pub node_count : length w.nodes < 2 ^ 64
  pub edge_count : length w.edges < 2 ^ 64

-- The nodes and edges of the newer snapshot are those of the older but for what the delta names and
-- counts, and the signed differences are what is added less what is removed.
pub record Balanced (a b : WorldInner) (d : SnapshotDelta) : Type 0 where
  pub nodes : length b.nodes + length d.nodes_removed ≡ length a.nodes + length d.nodes_added
  pub edges : length b.edges + d.edges_removed ≡ length a.edges + d.edges_added
  pub node_delta : d.node_delta ≡ sub64 (length d.nodes_added) (length d.nodes_removed)
  pub edge_delta : d.edge_delta ≡ sub64 d.edges_added d.edges_removed

named_difference :
    (a b : KeyMap NodeId Node)
    → length (names_of a (difference (key_set a) (key_set b)))
      ≡ length (difference (key_set a) (key_set b))
named_difference a b = length-names_of a (difference (key_set a) (key_set b)) (
    All-retain (λ k. is_some (get k a) ≡ true) (λ k. not (contains (key_set b) k)) (key_set a)
      (stored_keys a))

few {ℓ} :
    {V : Type ℓ} (a b : KeyMap NodeId V)
    → length a < 2 ^ 64
    → length (difference (key_set a) (key_set b)) < 2 ^ 64
few a b h =
    omega
      (arith, h, length-key_set a, length-retain-le (λ k. not (contains (key_set b) k)) (key_set a))

pub delta_of-Balanced :
    (a b : SnapEntry WorldInner)
    → IsStored a.snap
    → IsStored b.snap
    → Balanced a.snap b.snap (delta_of a b)
unfolding delta_of
delta_of-Balanced a b v w =
    let nodes = balance a.snap.nodes b.snap.nodes v.nodes w.nodes in
    let edges = balance a.snap.edges b.snap.edges v.edges w.edges in
    let added = named_difference b.snap.nodes a.snap.nodes in
    let removed = named_difference a.snap.nodes b.snap.nodes in
    record {
      nodes = omega (arith, nodes, added, removed);
      edges = edges;
      node_delta =
          sub64_balance _ _ _ _ nodes v.node_count w.node_count
            (few a.snap.nodes b.snap.nodes v.node_count)
            (few b.snap.nodes a.snap.nodes w.node_count)
          ∙ sym (λ i. sub64 (added i) (removed i));
      edge_delta =
          sub64_balance _ _ _ _ edges v.edge_count w.edge_count
            (few a.snap.edges b.snap.edges v.edge_count)
            (few b.snap.edges a.snap.edges w.edge_count);
    }
