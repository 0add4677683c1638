-- ===== src/Check/Verdicts/Walks.antt =====
-- The chains of a topology as walks along its edges, and `chain_length` of engine/src/check.rs as the
-- length of the longest.
use mathlib.Core.Path.{subst}
use rtmap.Base.{
  All, ℕ, zero, suc, ◌+◌, ◌≤◌, ◌<◌, ◌≡◌, ◌≢◌, ◌↔◌, ◌⊎◌, inl, inr, refl, sym, ◌∙◌, ap, true, false,
  List, [], ◌∷◌, Option, none, some, ◌==◌, arith, max, length, any, Bool-cases, Option-cases, ◌>>=◌,
}
use rtmap.Base.KeyMap.{KeyMap, get}
use rtmap.Base.Texts.{Text, text_key}
use rtmap.Check.{TopoGraph, edge_key}
use rtmap.Check.Chains.{chain_from, longest, chain_length}

some_inj : {x y : ℕ} → some x ≡ some y → x ≡ y
some_inj h = cc

module _ (edges : KeyMap (ℕ × Text) ℕ) (field : Text) where
  -- A walk along the edges of the name that visits no object twice and none of `visited`, and the
  -- number of its objects.
  pub data Walk : List ℕ → ℕ → ℕ → Type 0 where
    ends : (visited : List ℕ) (cur : ℕ) → any (λ a. a == cur) visited ≡ false → Walk visited cur 1
    goes :
        (visited : List ℕ) (cur next n : ℕ)
        → any (λ a. a == cur) visited ≡ false
        → get (cur, field) edges ≡ some next
        → next ≢ 0
        → Walk (cur ∷ visited) next n
        → Walk visited cur (suc n)

  -- The loop's length is that of the longest walk, and 0 from a visited object.
  record Longest (visited : List ℕ) (cur len n : ℕ) : Type 0 where
    bound : (k : ℕ) → Walk visited cur k → len + k ≤ n
    attained : (n ≡ len) ⊎ ((k : ℕ) × Walk visited cur k × (n ≡ len + k))

  no_way :
      (visited : List ℕ) (cur k : ℕ) → any (λ a. a == cur) visited ≡ true → Walk visited cur k → ⊥
  no_way visited cur k seen (ends v c fresh) = cc
  no_way visited cur k seen (goes v c next n fresh e f w) = cc

  at_most_one :
      (visited : List ℕ) (cur k : ℕ)
      → ((next : ℕ) → get (cur, field) edges ≡ some next → next ≡ 0)
      → Walk visited cur k
      → k ≤ 1
  at_most_one visited cur k last (ends v c fresh) = omega arith
  at_most_one visited cur k last (goes v c next n fresh e f w) = absurd (f (last next e))

  goes_bound :
      (visited : List ℕ) (cur next len n : ℕ)
      → get (cur, field) edges ≡ some next
      → Longest (cur ∷ visited) next (len + 1) n
      → (k : ℕ) → Walk visited cur k
      → len + k ≤ n
  goes_bound visited cur next len n edge rest k (ends v c fresh) = elim (rest.attained) [
    | inl e ↦ omega arith
    | inr (j, w, e) ↦ omega arith
  ]
  goes_bound visited cur next len n edge rest k (goes v c m j fresh e f w) =
      let there : m ≡ next = some_inj (sym e ∙ edge) in
      let more = rest.bound j (subst (λ (x : ℕ). Walk (cur ∷ visited) x j) there w) in omega arith

  goes_attained :
      (visited : List ℕ) (cur next len n : ℕ)
      → any (λ a. a == cur) visited ≡ false
      → get (cur, field) edges ≡ some next
      → next ≢ 0
      → Longest (cur ∷ visited) next (len + 1) n
      → (n ≡ len) ⊎ ((k : ℕ) × Walk visited cur k × (n ≡ len + k))
  goes_attained visited cur next len n fresh edge on rest = elim (rest.attained) [
    | inl e ↦ inr (1, ends visited cur fresh, e)
    | inr (j, w, e) ↦ inr (suc j, goes visited cur next j fresh edge on w, omega arith)
  ]

  chain_from-Longest :
      (fuel : ℕ) (visited : List ℕ) (cur len n : ℕ)
      → chain_from fuel edges field visited cur len ≡ some n
      → Longest visited cur len n
  unfolding chain_from
  chain_from-Longest zero visited cur len n h = cc
  chain_from-Longest (suc fuel) visited cur len n h =
      elim (Bool-cases (any (λ a. a == cur) visited)) [
        | inl seen ↦
            let same : some len ≡ some n = sym (rw seen refl) ∙ h in
            record {
              bound = λ k w. absurd (no_way visited cur k seen w);
              attained = inl (ground arith);
            }
        | inr fresh ↦ elim (Option-cases (get (cur, field) edges)) [
          | inl none_there ↦
              let same : some (len + 1) ≡ some n = sym (rw (fresh, none_there) refl) ∙ h in
              record {
                bound = λ k w. let one = at_most_one visited cur k (λ next e. cc) w in ground arith;
                attained = inr (1, ends visited cur fresh, ground arith);
              }
          | inr (next, edge) ↦ elim (Bool-cases (next == 0)) [
            | inl null ↦
                let same : some (len + 1) ≡ some n = sym (rw (fresh, edge, null) refl) ∙ h in
                record {
                  bound = λ k w.
                      let one = at_most_one visited cur k (λ m e. ground arith) w in ground arith;
                  attained = inr (1, ends visited cur fresh, ground arith);
                }
            | inr on ↦
                let rest =
                  chain_from-Longest fuel (cur ∷ visited) next (len + 1) n
                    (sym (rw (fresh, edge, on) refl) ∙ h) in
                record {
                  bound = goes_bound visited cur next len n edge rest;
                  attained =
                      goes_attained visited cur next len n fresh edge (λ z. ground arith) rest;
                }
          ]
        ]
      ]

  -- Every walk from one of the objects is shorter.
  abbrev pub Shorter : ℕ → List ℕ → Type 0
  Shorter limit addrs = All (λ a. (k : ℕ) → Walk [] a k → k < limit) addrs

  longest-Shorter :
      (fuel limit : ℕ) (addrs : List ℕ) (best n : ℕ)
      → longest fuel edges field addrs best ≡ some n
      → (n < limit) ↔ ((best < limit) × Shorter limit addrs)
  unfolding chain_from
  longest-Shorter fuel limit [] best n h =
      let same : best ≡ n = some_inj h in (λ l. (omega arith, tt), λ b. omega (arith, b.0))
  longest-Shorter fuel limit (a ∷ addrs) best n h =
      elim (Option-cases (chain_from fuel edges field [] a 0)) [
        | inl out ↦ let none_some : none ≡ some n = sym (ap (λ o. o >>= next) out) ∙ h in cc
        | inr (len, run) ↦
            let long = chain_from-Longest fuel [] a 0 len run in
            let rest =
              longest-Shorter fuel limit addrs (max best len) n
                (sym (ap (λ o. o >>= next) run) ∙ h) in
            (
              λ l.
                  let r = rest.0 l in
                  (omega (arith, r.0), (λ k w. omega (arith, r.0, long.bound k w), r.1)),
              λ b. rest.1 (
                elim (long.attained) [
                  | inl e ↦ omega (arith, b.0, e)
                  | inr (k, w, e) ↦ omega (arith, b.0, e, b.1.0 k w)
                ],
                b.1.1,
              ),
            )
      ]
    where
      next : ℕ → Option ℕ
      next len = longest fuel edges field addrs (max best len)

-- The objects that were stamped with a type.
abbrev pub stamped_as : Text → TopoGraph → List ℕ
stamped_as t g = elim (get t g.type_addrs) [ none ↦ [] | some addrs ↦ addrs ]

pub chain_length-Shorter :
    (g : TopoGraph) (t f : Text) (limit n : ℕ)
    → chain_length (suc (length g.edges)) t f g ≡ some n
    → (n < limit) ↔ ((0 < limit) × Shorter g.edges f limit (stamped_as t g))
unfolding chain_length
chain_length-Shorter g t f limit n h =
    longest-Shorter g.edges f (suc (length g.edges)) limit (stamped_as t g) 0 n h
