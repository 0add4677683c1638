-- ===== src/World/HeapAllocTracker/Bounds.antt =====
-- `containing_alloc` and `check_write_bounds` of engine/src/world.rs.
use rtmap.Base.{
  u64_max, suc, Bool-cases, add64, ◌↔◌, [], ◌∷◌, ℕ, ◌+◌, ◌-◌, ◌≤◌, ◌<◌, ◌≡◌, refl, sym, ap, ◌∙◌,
  true, ◌&&◌, Option, none, some, arith, u64_mod, saturating_add64, ltb, leb, if◌then◌else◌,
  Option-cases, inl, inr,
}
use native.Mathlib.Decide.{dec_lt}
use rtmap.Base.TreeMap.{
  TreeMap, last_entry, last_entry-get, last_entry-max, last_entry-none, get_of_Above, get,
  IsOrdered, last_le, last_le-get, last_le-max, last_le-none,
}
use rtmap.World.ShadowTypeMap.{ShadowTypeMap, covering}
use rtmap.World.HeapAllocTracker.{
  HeapHazard, heap_hole, hazard_type, HeapAllocTracker, containing_alloc, containing_from,
  check_write_bounds, check_from, check_inside, check_hole, overflow_hazard, hole_hazard, lowest,
  end_of, highest,
}

-- A live allocation of `size` bytes at `base`.
abbrev pub Live : HeapAllocTracker → ℕ → ℕ → Type 0
Live t base size = (seq : ℕ) × (get base t.allocs ≡ some (size, seq))

-- No two live allocations overlap, and each ends below 2^64.
pub record IsDisjoint (t : HeapAllocTracker) : Type 0 where
  pub ordered : IsOrdered t.allocs
  pub apart : (a b m n : ℕ) → Live t a m → Live t b n → a < b → a + m ≤ b
  pub ends : (a m : ℕ) → Live t a m → a + m < u64_mod

-- The address lies in a live allocation.
abbrev pub Inside : HeapAllocTracker → ℕ → ℕ → ℕ → Type 0
Inside t addr base size = Live t base size × (base ≤ addr) × (addr < base + size)

-- The lookup finds the allocation around an address.
pub containing_alloc-Inside :
    (t : HeapAllocTracker) (addr base size : ℕ)
    → IsDisjoint t
    → Inside t addr base size
    → containing_alloc addr t ≡ some (base, size)
unfolding containing_alloc containing_from
containing_alloc-Inside t addr base size d h = elim (Option-cases (last_le addr t.allocs)) [
  | inl missing ↦
      absurd (omega (arith, last_le-none addr base (size, h.0.0) t.allocs missing h.0.1))
  | inr ((k, (n, seq)), found) ↦
      let entry = last_le-get 0 addr k (n, seq) t.allocs d.ordered found in
      let top =
        last_le-max 0 addr k base (n, seq) (size, h.0.0) t.allocs d.ordered found h.0.1 h.1 in
      let low : k ≤ base = elim (dec_lt base k) [
        | yes lt ↦ absurd (omega (arith, d.apart base k size n h.0 (seq, entry.2) lt))
        | no ge ↦ omega arith
      ] in
      let same : k ≡ base = omega arith in
      let both : some (n, seq) ≡ some (size, h.0.0) =
        sym entry.2 ∙ ap (λ x. get x t.allocs) same ∙ h.0.1 in
      let sizes : n ≡ size = ground (arith) in rw found (ground (arith, d.ends base size h.0))
]

-- And finds none around an address that lies in none.
pub containing_alloc-some :
    (t : HeapAllocTracker) (addr base size : ℕ)
    → IsOrdered t.allocs
    → containing_alloc addr t ≡ some (base, size)
    → Inside t addr base size
unfolding containing_alloc containing_from
containing_alloc-some t addr base size o e = by_entry (last_le addr t.allocs) refl e
  where
    by_entry :
        (found : Option (ℕ × (ℕ × ℕ)))
        → last_le addr t.allocs ≡ found
        → containing_from addr found ≡ some (base, size)
        → Inside t addr base size
    by_entry none f q = cc
    by_entry (some (k, (n, seq))) f q =
        let entry = last_le-get 0 addr k (n, seq) t.allocs o f in
        let parts : (k ≡ base) × (n ≡ size) × (addr < k + n) = ground arith in
        (
          (seq, ap (λ x. get x t.allocs) (sym parts.0) ∙ entry.2 ∙ ap (λ x. some (x, seq)) parts.1),
          omega arith,
          omega arith,
        )

-- A write that starts inside a live allocation is reported exactly when it runs past the end, as
-- out of bounds for that allocation, with the number of bytes beyond it.
pub check_write_bounds-Inside :
    (t : HeapAllocTracker) (stm : ShadowTypeMap) (addr write_size base size : ℕ)
    → IsDisjoint t
    → Inside t addr base size
    → addr + write_size < u64_mod
    → check_write_bounds addr write_size stm t ≡ (
        if leb (addr + write_size) (base + size)
        then none
        else some (record (overflow_hazard addr write_size stm base size) {
          overflow_bytes = addr + write_size - (base + size);
        }))
unfolding check_write_bounds check_from check_inside
check_write_bounds-Inside t stm addr write_size base size d h small =
    let found = containing_alloc-Inside t addr base size d h in
    let fits : ltb (addr + write_size) u64_mod ≡ true = ground arith in
    let end : saturating_add64 base size ≡ base + size = omega (arith, d.ends base size h.0) in
    rw (fits, found, end) (ground arith)

-- The bounds of the live allocations: the lowest base is at most every base and is one, and no
-- allocation ends behind the last.
lowest_lem :
    (t : HeapAllocTracker) (addr : ℕ)
    → IsDisjoint t
    → addr < u64_max
    → (lowest t.allocs ≤ addr) ↔ ((base : ℕ) × (size : ℕ) × Live t base size × (base ≤ addr))
lowest_lem t addr d small = by_allocs t.allocs d.ordered
  where
    by_allocs :
        (m : TreeMap (ℕ × ℕ))
        → IsOrdered m
        → (lowest m ≤ addr) ↔ (
            (base : ℕ) × (size : ℕ) × ((seq : ℕ) × (get base m ≡ some (size, seq))) × (base ≤ addr))
    by_allocs [] o = (λ h. absurd (omega arith), λ l. cc)
    by_allocs ((b, (n, seq)) ∷ m) o = (
      λ h. (b, n, (seq, ground arith), h),
      λ l.
          let (base, size, (q, e), le) = l in
          elim (dec_lt base b) [
            | yes lt ↦
                let gone = get_of_Above (suc b) base m o.1 (omega arith) in
                absurd (ground (arith, e, gone, lt))
            | no ge ↦ omega arith
          ],
    )

highest_lem :
    (t : HeapAllocTracker) (addr : ℕ)
    → IsDisjoint t
    → (addr < highest t.allocs)
      ↔ ((base : ℕ) × (size : ℕ) × Live t base size × (addr < base + size))
highest_lem t addr d = by_last (last_entry t.allocs) refl
  where
    by_last :
        (o : Option (ℕ × (ℕ × ℕ)))
        → last_entry t.allocs ≡ o
        → (addr < end_of o) ↔ ((base : ℕ) × (size : ℕ) × Live t base size × (addr < base + size))
    by_last none e =
        (λ h. absurd (omega arith), λ l. absurd (last_entry-none l.0 (l.1, l.2.0) t.allocs e l.2.1))
    by_last (some (b, (n, seq))) e =
        let live = (last_entry-get 0 b (n, seq) t.allocs d.ordered e).1 in
        let fits = d.ends b n (seq, live) in
        let whole : add64 b n ≡ b + n = omega arith in
        (
          λ h. (b, n, (seq, live), omega (arith, h, whole)),
          λ l.
              let (base, size, (q, found), lt) = l in
              let under = last_entry-max 0 b base (n, seq) (size, q) t.allocs d.ordered e found in
              elim (dec_lt base b) [
                | yes less ↦
                    let gap = d.apart base b size n (q, found) (seq, live) less in
                    omega (arith, gap, lt, whole)
                | no ge ↦
                    let same : base ≡ b = omega (arith, under) in
                    let both : some (size, q) ≡ some (n, seq) =
                      sym found ∙ ap (λ x. get x t.allocs) same ∙ live in
                    let sizes : size ≡ n = ground arith in omega (arith, same, sizes, lt, whole)
              ],
        )

-- Some live allocation starts at or before the address, and some live allocation ends behind it.
abbrev pub Between : HeapAllocTracker → ℕ → Type 0
Between t addr =
    ((base : ℕ) × (size : ℕ) × Live t base size × (base ≤ addr))
    × ((base : ℕ) × (size : ℕ) × Live t base size × (addr < base + size))

bounds_iff :
    (t : HeapAllocTracker) (addr : ℕ)
    → IsDisjoint t
    → ((leb (lowest t.allocs) addr && ltb addr (highest t.allocs)) ≡ true) ↔ Between t addr
bounds_iff t addr d = (
  λ h.
      let above = (highest_lem t addr d).0 (ground (arith, h)) in
      ((lowest_lem t addr d (room above)).0 (ground (arith, h)), above),
  λ b.
      let low = (lowest_lem t addr d (room b.1)).1 b.0 in
      let high = (highest_lem t addr d).1 b.1 in ground (arith, low, high),
)
  where
    room : ((base : ℕ) × (size : ℕ) × Live t base size × (addr < base + size)) → addr < u64_max
    room (base, size, live, lt) = omega (arith, d.ends base size live, lt)

-- What the report of a hole says: the write, no allocation, no bytes over, and the type that covers
-- the address without a field.
pub record IsHole (addr bytes : ℕ) (stm : ShadowTypeMap) (h : HeapHazard) : Type 0 where
  pub kind : h.kind ≡ heap_hole
  pub write_addr : h.write_addr ≡ addr
  pub write_size : h.write_size ≡ bytes
  pub alloc_base : h.alloc_base ≡ 0
  pub alloc_size : h.alloc_size ≡ 0
  pub overflow_bytes : h.overflow_bytes ≡ 0
  pub type_name : h.type_name ≡ hazard_type (covering addr stm)
  pub field_name : h.field_name ≡ none

-- With disjoint live allocations, a write that starts in none of them and ends below 2^64 is
-- reported exactly when some live allocation starts at or before its address and some live
-- allocation ends behind it, as a hole, with the address and the size of the write and no
-- allocation.
pub check_write_bounds-outside :
    (t : HeapAllocTracker) (stm : ShadowTypeMap) (addr write_size : ℕ)
    → IsDisjoint t
    → ((base size : ℕ) → ¬ Inside t addr base size)
    → addr + write_size < u64_mod
    → (Between t addr
        → (h : HeapHazard) × (check_write_bounds addr write_size stm t ≡ some h)
          × IsHole addr write_size stm h)
      × (¬ Between t addr → check_write_bounds addr write_size stm t ≡ none)
unfolding check_write_bounds check_from check_hole
check_write_bounds-outside t stm addr write_size d free small = (
  λ b.
      let test = (bounds_iff t addr d).1 b in
      (
        hole_hazard addr write_size stm,
        rw (fits, missing, test) refl,
        record {
          kind = refl;
          write_addr = refl;
          write_size = refl;
          alloc_base = refl;
          alloc_size = refl;
          overflow_bytes = refl;
          type_name = refl;
          field_name = refl;
        },
      ),
  λ n. elim (Bool-cases (leb (lowest t.allocs) addr && ltb addr (highest t.allocs))) [
    | inl h ↦ absurd (n ((bounds_iff t addr d).0 h))
    | inr h ↦ rw (fits, missing, h) refl
  ],
)
  where
    fits : ltb (addr + write_size) u64_mod ≡ true
    fits = ground arith

    missing : containing_alloc addr t ≡ none
    missing = elim (Option-cases (containing_alloc addr t)) [
      | inl e ↦ e
      | inr ((b, n), e) ↦ absurd (free b n (containing_alloc-some t addr b n d.ordered e))
    ]
