-- ===== src/Check/Chains.antt =====
-- `chain_length` of engine/src/check.rs: how far the edges of one name lead.
use rtmap.Base.{
  ℕ, zero, suc, ◌+◌, ◌≤◌, ◌<◌, ◌≡◌, refl, ◌∙◌, ap, false, ◌&&◌, not, List, [], ◌∷◌, Option, none,
  some, ◌==◌, arith, max, length, any, if◌then◌else◌, ◌>>=◌, Bool-cases, Option-cases, inl, inr,
  ==_iff,
}
use rtmap.Base.KeyMap.{KeyMap, get}
use rtmap.Base.Texts.{Text, text_key, same_text}
use rtmap.Check.{TopoGraph, edge_key}

-- The loop along the edges of one name, on fuel: `none` where it runs out.
unfoldable pub chain_from : ℕ → KeyMap (ℕ × Text) ℕ → Text → List ℕ → ℕ → ℕ → Option ℕ
chain_from zero edges field visited cur len = none
chain_from (suc fuel) edges field visited cur len =
    if any (λ a. a == cur) visited then some len else elim (get (cur, field) edges) [
      | none ↦ some (len + 1)
      | some next ↦
          if next == 0
          then some (len + 1)
          else chain_from fuel edges field (cur ∷ visited) next (len + 1)
    ]

abbrev pub longest : ℕ → KeyMap (ℕ × Text) ℕ → Text → List ℕ → ℕ → Option ℕ
longest fuel edges field [] best = some best
longest fuel edges field (a ∷ addrs) best =
    chain_from fuel edges field [] a 0 >>= λ len. longest fuel edges field addrs (max best len)

unfoldable pub chain_length : ℕ → Text → Text → TopoGraph → Option ℕ
unfolding chain_from
chain_length fuel start_type edge_field g =
    longest fuel g.edges edge_field
      (elim (get start_type g.type_addrs) [ none ↦ [] | some addrs ↦ addrs ]) 0

-- The edges of the name that start at no visited object.
abbrev unvisited : KeyMap (ℕ × Text) ℕ → Text → List ℕ → ℕ
unvisited [] field visited = 0
unvisited (((a, f), b) ∷ edges) field visited =
    if same_text f field && not (any (λ v. v == a) visited)
    then suc (unvisited edges field visited)
    else unvisited edges field visited

unvisited-le :
    (edges : KeyMap (ℕ × Text) ℕ) (field : Text) (visited : List ℕ) (a : ℕ)
    → unvisited edges field (a ∷ visited) ≤ unvisited edges field visited
unvisited-le [] field visited a = omega arith
unvisited-le (((b, f), c) ∷ edges) field visited a =
    ground (arith, unvisited-le edges field visited a)

unvisited-lt :
    (edges : KeyMap (ℕ × Text) ℕ) (field : Text) (visited : List ℕ) (a next : ℕ)
    → get (a, field) edges ≡ some next
    → any (λ v. v == a) visited ≡ false
    → unvisited edges field (a ∷ visited) < unvisited edges field visited
unvisited-lt [] field visited a next h n = cc
unvisited-lt (((b, f), c) ∷ edges) field visited a next h n =
    elim (Bool-cases ((b == a) && same_text f field)) [
      | inl here ↦
          let key : b ≡ a = (==_iff b a).0 (ground arith) in
          let fresh : any (λ v. v == b) visited ≡ false =
            (λ i. any (λ v. v == key i) visited) ∙ n in
          ground (arith, here, fresh, unvisited-le edges field visited a)
      | inr other ↦
          let more : get (a, field) edges ≡ some next = ground (arith, other) in
          ground (arith, unvisited-lt edges field visited a next more n)
    ]

-- An end of the loop that every fuel above the number of edges that are left comes to.
abbrev Ends : KeyMap (ℕ × Text) ℕ → Text → List ℕ → ℕ → ℕ → Type 0
Ends edges field visited cur len =
    (n : ℕ) × (n ≤ len + unvisited edges field visited + 1)
    × ((fuel : ℕ)
        → unvisited edges field visited < fuel
        → chain_from fuel edges field visited cur len ≡ some n)

chain_from-Ends :
    (k : ℕ) (edges : KeyMap (ℕ × Text) ℕ) (field : Text) (visited : List ℕ) (cur len : ℕ)
    → unvisited edges field visited < k
    → Ends edges field visited cur len
unfolding chain_from
chain_from-Ends zero edges field visited cur len h = absurd (omega (arith, h))
chain_from-Ends (suc k) edges field visited cur len h =
    elim (Bool-cases (any (λ a. a == cur) visited)) [
      | inl seen ↦ (len, omega arith, by_fuel len (λ f lt. rw seen refl))
      | inr fresh ↦ elim (Option-cases (get (cur, field) edges)) [
        | inl last ↦ (len + 1, omega arith, by_fuel (len + 1) (λ f lt. rw (fresh, last) refl))
        | inr (next, edge) ↦ elim (Bool-cases (next == 0)) [
          | inl null ↦
              (len + 1, omega arith, by_fuel (len + 1) (λ f lt. rw (fresh, edge, null) refl))
          | inr on ↦
              let less = unvisited-lt edges field visited cur next edge fresh in
              let (n, bound, same) =
                chain_from-Ends k edges field (cur ∷ visited) next (len + 1)
                  (omega (arith, h, less)) in
              (
                n,
                omega (arith, bound, less),
                by_fuel n (λ f lt. rw (fresh, edge, on) (same f (omega (arith, less, lt)))),
              )
        ]
      ]
    ]
  where
    by_fuel :
        (n : ℕ)
        → ((f : ℕ)
            → unvisited edges field visited ≤ f
            → chain_from (suc f) edges field visited cur len ≡ some n)
        → (fuel : ℕ) → unvisited edges field visited < fuel
        → chain_from fuel edges field visited cur len ≡ some n
    by_fuel n e zero lt = absurd (omega (arith, lt))
    by_fuel n e (suc f) lt = e f (omega (arith, lt))

unvisited-le-length :
    (edges : KeyMap (ℕ × Text) ℕ) (field : Text) (visited : List ℕ)
    → unvisited edges field visited ≤ length edges
unvisited-le-length [] field visited = omega arith
unvisited-le-length (((a, f), b) ∷ edges) field visited =
    ground (arith, unvisited-le-length edges field visited)

-- Every fuel above the number of edges gives the one length `n`.
abbrev pub IsLength : (ℕ → Option ℕ) → ℕ → ℕ → Type 0
IsLength run edges n = (n ≤ edges + 1) × ((fuel : ℕ) → edges < fuel → run fuel ≡ some n)

longest-IsLength :
    (edges : KeyMap (ℕ × Text) ℕ) (field : Text) (addrs : List ℕ) (best : ℕ)
    → best ≤ length edges + 1
    → (n : ℕ) × IsLength (λ fuel. longest fuel edges field addrs best) (length edges) n
unfolding chain_from
longest-IsLength edges field [] best h = (best, (h, λ fuel lt. refl))
longest-IsLength edges field (a ∷ addrs) best h =
    let all = unvisited-le-length edges field [] in
    let (len, bound, ends) =
      chain_from-Ends (suc (unvisited edges field [])) edges field [] a 0 (omega arith) in
    let (n, (small, rest)) =
      longest-IsLength edges field addrs (max best len) (omega (arith, h, bound, all)) in
    (
      n,
      (
        small,
        λ fuel lt.
            ap (λ o. o >>= λ l. longest fuel edges field addrs (max best l))
              (ends fuel (omega (arith, all, lt)))
            ∙ rest fuel lt,
      ),
    )

-- The loops of `chain_length` end, on graphs with cycles too: with any fuel above the number of edges
-- it answers the same length, at most one more than there are edges.
pub chain_length-IsLength :
    (start_type edge_field : Text) (g : TopoGraph)
    → (n : ℕ) × IsLength (λ fuel. chain_length fuel start_type edge_field g) (length g.edges) n
unfolding chain_length
chain_length-IsLength start_type edge_field g =
    longest-IsLength g.edges edge_field
      (elim (get start_type g.type_addrs) [ none ↦ [] | some addrs ↦ addrs ]) 0 (omega arith)
