-- ===== src/World/SnapshotRing/Search.antt =====
-- The binary searches of the snapshot ring of engine/src/world.rs.
use rtmap.Base.{
  ℕ, zero, suc, ◌+◌, ◌-◌, ◌/◌, ◌≤◌, ◌<◌, ◌≡◌, refl, ap, ◌∙◌, List, [], ◌∷◌, Option, none, some,
  arith, length, get_elem?, get_or, ◌≢◌, inl, inr, Bool-cases, ==_iff, map, ◌==◌, ◌>>=◌,
}
use native.Mathlib.Decide.{dec_lt, dec_le, ℕ_discrete}
use rtmap.Circular.{length-view}
use rtmap.World.SnapshotRing.{SnapEntry, SnapshotRing, slot, search_loop, find_by, found}
use rtmap.World.SnapshotRing.History.{IsValid, contents, slot-contents}

-- The key of the `i`-th oldest entry.
abbrev pub key_at {ℓ} : {A : Type ℓ} → (A → ℕ) → List A → ℕ → ℕ
key_at key xs i = get_or (map key xs) i 0

-- The keys never fall from one snapshot to the next.
abbrev pub IsMonotone {ℓ} : {A : Type ℓ} → (A → ℕ) → List A → Type 0
IsMonotone key xs = (i j : ℕ) → i ≤ j → j < length xs → key_at key xs i ≤ key_at key xs j

get_elem?-key {ℓ} :
    {A : Type ℓ} (key : A → ℕ) (xs : List A) (i : ℕ)
    → i < length xs
    → (e : A) × (get_elem? xs i ≡ some e) × (key e ≡ key_at key xs i)
get_elem?-key key [] i h = elim h [ ]
get_elem?-key key (x ∷ xs) zero h = (x, refl, refl)
get_elem?-key key (x ∷ xs) (suc i) h = get_elem?-key key xs i (omega arith)

-- What a search for the newest entry at or before `target` answers.
abbrev pub IsNewest {ℓ} : {A : Type ℓ} → (A → ℕ) → List A → ℕ → Option ℕ → Type 0
IsNewest key xs target none = (j : ℕ) → j < length xs → target < key_at key xs j
IsNewest key xs target (some i) =
    (i < length xs)
    × (key_at key xs i ≤ target)
    × ((j : ℕ) → i < j → j < length xs → target < key_at key xs j)

found-suc : (b : ℕ) → found (suc b) ≡ some b
found-suc b = ground arith

module _ {Snap : Type 0} (key : SnapEntry Snap → ℕ) (r : SnapshotRing Snap) (v : IsValid r) where
  abbrev at : ℕ → ℕ
  at = key_at key (contents r)

  slot-at :
      (i : ℕ)
      → i < length (contents r)
      → (e : SnapEntry Snap) × (slot r i ≡ some e) × (key e ≡ at i)
  slot-at i h =
      let (e, p, q) = get_elem?-key key (contents r) i h in (e, slot-contents r i v ∙ p, q)

  -- One turn of the loop, by the key in the middle.
  search_below :
      (target fuel lo hi : ℕ)
      → lo < hi
      → hi ≤ length (contents r)
      → at (lo + (hi - lo) / 2) ≤ target
      → search_loop key r target (suc fuel) lo hi
        ≡ search_loop key r target fuel (lo + (hi - lo) / 2 + 1) hi
  unfolding search_loop
  search_below target fuel lo hi lt le small =
      let (e, p, q) = slot-at (lo + (hi - lo) / 2) (omega arith) in ground arith

  search_above :
      (target fuel lo hi : ℕ)
      → lo < hi
      → hi ≤ length (contents r)
      → target < at (lo + (hi - lo) / 2)
      → search_loop key r target (suc fuel) lo hi
        ≡ search_loop key r target fuel lo (lo + (hi - lo) / 2)
  unfolding search_loop
  search_above target fuel lo hi lt le large =
      let (e, p, q) = slot-at (lo + (hi - lo) / 2) (omega arith) in ground arith

  search_done : (target fuel lo : ℕ) → search_loop key r target (suc fuel) lo lo ≡ some lo
  unfolding search_loop
  search_done target fuel lo = ground arith

  -- A border between the keys up to `target` and those above it.
  record IsBorder (target b : ℕ) : Type 0 where
    inside : b ≤ length (contents r)
    lower : (j : ℕ) → j < b → at j ≤ target
    upper : (j : ℕ) → b ≤ j → j < length (contents r) → target < at j

  -- The loop ends within its fuel, at the border.
  search_lem :
      IsMonotone key (contents r)
      → (target fuel lo hi : ℕ) → hi - lo < fuel
      → lo ≤ hi
      → hi ≤ length (contents r)
      → ((j : ℕ) → j < lo → at j ≤ target)
      → ((j : ℕ) → hi ≤ j → j < length (contents r) → target < at j)
      → (b : ℕ) × (search_loop key r target fuel lo hi ≡ some b) × IsBorder target b
  search_lem m target zero lo hi f le top below above = absurd (omega arith)
  search_lem m target (suc fuel) lo hi f le top below above = elim (dec_lt lo hi) [
    | yes lt ↦
        let mid = lo + (hi - lo) / 2 in
        elim (dec_le (at mid) target) [
          | yes small ↦
              let (b, p, border) =
                search_lem m target fuel (mid + 1) hi (omega arith) (omega arith) top
                  (λ j h. omega (arith, m j mid (omega arith) (omega arith))) above in
              (b, search_below target fuel lo hi lt top small ∙ p, border)
          | no large ↦
              let (b, p, border) =
                search_lem m target fuel lo mid (omega arith) (omega arith) (omega arith) below
                  (λ j h k. omega (arith, m mid j h k)) in
              (b, search_above target fuel lo hi lt top (omega arith) ∙ p, border)
        ]
    | no ge ↦
        let same : hi ≡ lo = omega arith in
        (
          lo,
          rw same (search_done target fuel lo),
          record { inside = omega arith; lower = below; upper = λ j h. above j (omega arith) },
        )
  ]

  found-IsNewest : (target b : ℕ) → IsBorder target b → IsNewest key (contents r) target (found b)
  found-IsNewest target zero border = λ j h. border.upper j (omega arith) h
  found-IsNewest target (suc b) border =
      rw (found-suc b) (border.inside, border.lower b (omega arith), λ j h. border.upper j h)

  find_by_empty : (target : ℕ) → r.len ≡ 0 → find_by key r target ≡ some none
  unfolding find_by
  find_by_empty target e = ground arith

  find_by_loop :
      (target b : ℕ)
      → r.len ≢ 0
      → search_loop key r target (suc r.len) 0 r.len ≡ some b
      → find_by key r target ≡ some (found b)
  unfolding find_by
  find_by_loop target b ne p = elim (Bool-cases (r.len == 0)) [
    | inl e ↦ absurd (ne ((==_iff r.len 0).0 e))
    | inr e ↦ rw e (ap (λ o. o >>= λ lo. some (found lo)) p)
  ]

  -- In a valid ring whose keys never fall, a search does not panic; it answers the newest entry
  -- at or before the target, and none exactly when every entry is later.
  pub find_by-IsNewest :
      IsMonotone key (contents r)
      → (target : ℕ)
      → (o : Option ℕ) × (find_by key r target ≡ some o) × IsNewest key (contents r) target o
  find_by-IsNewest m target =
      let size : r.len ≡ length (contents r) =
        omega (arith, v.stored, length-view r.cap r.write_pos r.buf) in
      elim (ℕ_discrete r.len 0) [
        | yes e ↦ (none, find_by_empty target e, λ j h. absurd (omega arith))
        | no ne ↦
            let (b, p, border) =
              search_lem m target (suc r.len) 0 r.len (omega arith) (omega arith) (omega arith)
                (λ j h. absurd (omega arith)) (λ j h k. absurd (omega arith)) in
            (found b, find_by_loop target b ne p, found-IsNewest target b border)
      ]
