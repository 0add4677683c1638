-- ===== src/World/ShadowTypeMap/Covering.antt =====
-- `covering` of the type map of engine/src/world.rs.
use mathlib.Core.Path.{subst}
use rtmap.Base.{
  ℕ, ◌-◌, ◌≤◌, ◌<◌, ◌≡◌, ◌≢◌, refl, sym, ap, ◌∙◌, ◌⊎◌, inl, inr, true, false, Option, none, some,
  arith, add64, ◌==◌, if◌then◌else◌, Option-cases, Bool-cases, ltb→lt,
}
use rtmap.Base.TreeMap.{get, last_le, last_le-get, last_le-max, last_le-none, All_of_get}
use rtmap.Dwarf.{byte_size}
use rtmap.World.ShadowTypeMap.{
  TypeProjection, ShadowTypeMap, lookup, covering, covering_from, covering_parent, in_reach,
  entry_before,
}
use rtmap.World.ShadowTypeMap.Stamps.{IsValid, IsKeyed}

-- `p` stands in the map under its base, and its bytes reach over `addr`.
abbrev pub Covers : ℕ → ShadowTypeMap → TypeProjection → Type 0
Covers addr m p =
    (lookup p.base_addr m ≡ some p)
    × (p.base_addr ≤ addr)
    × (addr < add64 p.base_addr (byte_size p.type_info))

entry-Covers :
    (addr k : ℕ) (m : ShadowTypeMap) (p : TypeProjection)
    → IsValid m
    → get k m.projections ≡ some p
    → k ≤ addr
    → in_reach addr p ≡ true
    → Covers addr m p
unfolding lookup
entry-Covers addr k m p v e le reach =
    let key = All_of_get IsKeyed k p m.projections v.keyed e in
    (ap (λ x. get x m.projections) key.0 ∙ e, omega (arith, key.0), ltb→lt _ _ reach)

reached :
    (addr k : ℕ) (m : ShadowTypeMap) (p q : TypeProjection)
    → IsValid m
    → get k m.projections ≡ some q
    → k ≤ addr
    → in_reach addr q ≡ true
    → q ≡ p
    → Covers addr m p
reached addr k m p q v e le reach same =
    subst (Covers addr m) same (entry-Covers addr k m q v e le reach)

parent-Covers :
    (addr k : ℕ) (m : ShadowTypeMap) (p : TypeProjection) (o : Option (ℕ × TypeProjection))
    → IsValid m
    → k ≤ addr
    → entry_before k m.projections ≡ o
    → covering_parent addr o ≡ some p
    → Covers addr m p
unfolding covering_parent
parent-Covers addr k m p none v le found e = cc
parent-Covers addr k m p (some (j, q)) v le found e = elim (Bool-cases (in_reach addr q)) [
  | inr short ↦ absurd (ground arith)
  | inl reach ↦
      let before : last_le (k - 1) m.projections ≡ some (j, q) = ground arith in
      let entry = last_le-get 0 (k - 1) j q m.projections v.ordered before in
      reached addr j m p q v entry.2 (omega (arith, entry.1)) reach (ground arith)
]

covering_from-Covers :
    (addr : ℕ) (m : ShadowTypeMap) (p : TypeProjection) (o : Option (ℕ × TypeProjection))
    → IsValid m
    → last_le addr m.projections ≡ o
    → covering_from addr m.projections o ≡ some p
    → Covers addr m p
unfolding covering_from
covering_from-Covers addr m p none v found e = cc
covering_from-Covers addr m p (some (k, q)) v found e =
    let entry = last_le-get 0 addr k q m.projections v.ordered found in
    elim (Bool-cases (in_reach addr q)) [
      | inl reach ↦ reached addr k m p q v entry.2 entry.1 reach (ground arith)
      | inr short ↦
          parent-Covers addr k m p (entry_before k m.projections) v entry.1 refl (ground arith)
    ]

-- What `covering` answers is a projection of the map whose bytes cover the address.
pub covering-Covers :
    (addr : ℕ) (m : ShadowTypeMap) (p : TypeProjection)
    → IsValid m
    → covering addr m ≡ some p
    → Covers addr m p
unfolding covering
covering-Covers addr m p v e = covering_from-Covers addr m p (last_le addr m.projections) v refl e

-- Every base up to the address is at most that of `p`, but for one, `inner`, that does not reach.
abbrev pub Nearest : ℕ → ShadowTypeMap → TypeProjection → ℕ → Type 0
Nearest addr m p inner =
    (k : ℕ) (q : TypeProjection)
    → lookup k m ≡ some q
    → k ≤ addr
    → (k ≤ p.base_addr) ⊎ ((k ≡ inner) × (in_reach addr q ≡ false))

-- The last entry up to `a` is `p`, if its key cannot be above the base of `p`.
last_le-base :
    (a k : ℕ) (m : ShadowTypeMap) (p q : TypeProjection)
    → IsValid m
    → lookup p.base_addr m ≡ some p
    → p.base_addr ≤ a
    → last_le a m.projections ≡ some (k, q)
    → k ≤ p.base_addr
    → q ≡ p
unfolding lookup
last_le-base a k m p q v e le found low =
    let entry = last_le-get 0 a k q m.projections v.ordered found in
    let top = last_le-max 0 a k p.base_addr q p m.projections v.ordered found e le in
    let same : k ≡ p.base_addr = omega arith in
    let both : some q ≡ some p = sym entry.2 ∙ ap (λ x. get x m.projections) same ∙ e in cc both

last_le-exists :
    (a : ℕ) (m : ShadowTypeMap) (p : TypeProjection)
    → lookup p.base_addr m ≡ some p
    → p.base_addr ≤ a
    → (k : ℕ) × (q : TypeProjection) × (last_le a m.projections ≡ some (k, q))
unfolding lookup
last_le-exists a m p e le = elim (Option-cases (last_le a m.projections)) [
  | inl missing ↦ absurd (omega (arith, last_le-none a p.base_addr p m.projections missing e))
  | inr ((k, q), found) ↦ (k, q, found)
]

-- One entry back from the inner projection stands `p`.
entry_before-inner :
    (addr inner : ℕ) (m : ShadowTypeMap) (p : TypeProjection)
    → IsValid m
    → lookup p.base_addr m ≡ some p
    → p.base_addr < inner
    → inner ≤ addr
    → Nearest addr m p inner
    → (k : ℕ) × (entry_before inner m.projections ≡ some (k, p))
entry_before-inner addr inner m p v e lt le nearest =
    let (k, q, found) = last_le-exists (inner - 1) m p e (omega arith) in
    let entry = last_le-get 0 (inner - 1) k q m.projections v.ordered found in
    let same : q ≡ p =
      last_le-base (inner - 1) k m p q v e (omega arith) found
        (elim (nearest k q (unfold lookup in entry.2) (omega (arith, entry.1))) [
          | inl low ↦ low
          | inr (own, short) ↦ absurd (omega (arith, entry.1))
        ]) in
    let positive : (inner == 0) ≡ false = ground arith in
    (k, rw positive (found ∙ ap (λ x. some (k, x)) same))

-- A projection that covers the address is found, if every other base up to the address lies at or
-- below its own, but for at most one whose projection does not reach the address.
pub covering_complete :
    (addr inner : ℕ) (m : ShadowTypeMap) (p : TypeProjection)
    → IsValid m
    → Covers addr m p
    → Nearest addr m p inner
    → covering addr m ≡ some p
unfolding covering covering_from covering_parent
covering_complete addr inner m p v c nearest =
    let (k, q, found) = last_le-exists addr m p c.0 c.1 in
    let entry = last_le-get 0 addr k q m.projections v.ordered found in
    let hit : in_reach addr p ≡ true = ground arith in
    elim (nearest k q (unfold lookup in entry.2) entry.1) [
      | inl low ↦ rw (found, last_le-base addr k m p q v c.0 c.1 found low, hit)
      | inr (own, short) ↦
          let base =
            last_le-max 0 addr k p.base_addr q p m.projections v.ordered found
              (unfold lookup in c.0) c.1 in
          let apart : p.base_addr ≢ k =
            λ same. cc (last_le-base addr k m p q v c.0 c.1 found (omega arith)) in
          let (j, before) =
            entry_before-inner addr inner m p v c.0 (omega arith) (omega (arith, entry.1))
              nearest in
          let back : entry_before k m.projections ≡ some (j, p) =
            ap (λ x. entry_before x m.projections) own ∙ before in
          let seen : (if in_reach addr p then some p else none) ≡ some p = rw hit in
          rw (found, short) (ap (covering_parent addr) back ∙ seen)
    ]
