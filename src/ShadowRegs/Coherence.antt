-- ===== src/ShadowRegs/Coherence.antt =====
-- `check_coherence` and `on_return_cfi` of engine/src/shadow_regs.rs, register by register.
use mathlib.Core.Path.{subst}
use rtmap.Base.{
  ℕ, zero, suc, ◌+◌, ◌≤◌, ◌<◌, ◌≡◌, ◌≢◌, refl, sym, ap, ◌∙◌, ◌⊎◌, inl, inr, Bool, true, false, ◌&&◌,
  List, [], ◌∷◌, Option, none, some, map, arith, ltb, leb, ◌==◌, ==_iff, if◌then◌else◌, length, max,
  saturating_add64, u64_max, Bool-cases, leb→le, ltb→lt,
}
use rtmap.ShadowRegs.{
  ShadowReg, ShadowRegisterFile, rank, stale, cfi_verified, speculative, observed, at, coherent_reg,
  stale_reg, check_coherence, modify, for_each, is_listed, callee_saved, verified_reg,
  is_verifiable, on_return, on_return_cfi, reg_count,
}
use rtmap.ShadowRegs.Calls.{at-modify, length-modify}

-- The written bytes and those that the register was loaded from have one in common. An access of
-- size 0 counts as one byte.
abbrev pub Overlaps : ℕ → ℕ → ShadowReg → Type 0
Overlaps addr size r =
    (src : ℕ) × (r.mem_source ≡ some src)
    × (src < addr + max size 1)
    × (addr < src + max r.mem_source_size 1)

-- What a write of `value` makes of a register.
pub data Checked (addr value size : ℕ) (r r' : ShadowReg) : Type 0 where
  apart : ¬ Overlaps addr size r → r' ≡ r → Checked addr value size r r'
  agrees : Overlaps addr size r → size ≤ 8 → r.value ≡ value → r' ≡ r → Checked addr value size r r'
  doubted :
      Overlaps addr size r
      → (8 < size) ⊎ (r.value ≢ value)
      → r' ≡ (if ltb (rank stale) (rank r.confidence) then record r { confidence = stale } else r)
      → Checked addr value size r r'

stale_reg-Checked :
    (addr value size : ℕ) (r : ShadowReg) (src : ℕ)
    → r.mem_source ≡ some src
    → addr + max size 1 ≤ u64_max
    → src + max r.mem_source_size 1 ≤ u64_max
    → Checked addr value size r (stale_reg addr value size r src)
stale_reg-Checked addr value size r src e fits fits' =
    let end : saturating_add64 src (max r.mem_source_size 1) ≡ src + max r.mem_source_size 1 =
      omega arith in
    let end' : saturating_add64 addr (max size 1) ≡ addr + max size 1 = omega arith in
    elim (Bool-cases (ltb addr (src + max r.mem_source_size 1))) [
      | inr p ↦ apart (λ o. far1 p o) (rw (end, p) refl)
      | inl p ↦ elim (Bool-cases (ltb src (addr + max size 1))) [
        | inr q ↦ apart (λ o. far2 q o) (rw (end, end', p, q) refl)
        | inl q ↦
            let over : Overlaps addr size r = (src, e, ground arith, ground arith) in
            elim (Bool-cases (ltb 8 size)) [
              | inl wide ↦ doubted over (inl (ground arith)) (rw (end, end', p, q, wide) refl)
              | inr narrow ↦ elim (Bool-cases (r.value == value)) [
                | inl same ↦
                    agrees over (ground arith) ((==_iff r.value value).0 same)
                      (rw (end, end', p, q, narrow, same) refl)
                | inr other ↦
                    doubted over (inr (λ v. cc ((==_iff r.value value).1 v)))
                      (rw (end, end', p, q, narrow, other) refl)
              ]
            ]
      ]
    ]
  where
    far1 : ltb addr (src + max r.mem_source_size 1) ≡ false → ¬ Overlaps addr size r
    far1 p (src', e', low, high) = ground arith

    far2 : ltb src (addr + max size 1) ≡ false → ¬ Overlaps addr size r
    far2 q (src', e', low, high) = ground arith

at-map :
    (f : ShadowReg → ShadowReg) (regs : List ShadowReg) (i : ℕ)
    → i < length regs
    → at (map f regs) i ≡ f (at regs i)
at-map f [] i h = elim h [ ]
at-map f (r ∷ regs) zero h = refl
at-map f (r ∷ regs) (suc i) h = at-map f regs i (omega arith)

coherent_reg-Checked :
    (addr value size : ℕ) (r : ShadowReg)
    → addr + max size 1 ≤ u64_max
    → ((src : ℕ) → r.mem_source ≡ some src → src + max r.mem_source_size 1 ≤ u64_max)
    → Checked addr value size r (coherent_reg addr value size r)
unfolding coherent_reg
coherent_reg-Checked addr value size r fits fits' = by_source r.mem_source refl
  where
    by_source :
        (o : Option ℕ)
        → r.mem_source ≡ o
        → Checked addr value size r
            (elim o [ none ↦ r | some src ↦ stale_reg addr value size r src ])
    by_source none e = apart (λ o. cc) refl
    by_source (some src) e = stale_reg-Checked addr value size r src e fits (fits' src e)

-- A write to memory leaves a register alone unless it overlaps the memory that the register was
-- loaded from, and then still if the write has at most 8 bytes and the register's own value; in
-- all other cases the register is stale afterwards, or was not trusted any more before. Neither
-- interval may reach the end of the address space.
pub check_coherence-Checked :
    (addr value size : ℕ) (s : ShadowRegisterFile) (i : ℕ)
    → i < length s.regs
    → addr + max size 1 ≤ u64_max
    → ((src : ℕ)
        → (at s.regs i).mem_source ≡ some src
        → src + max (at s.regs i).mem_source_size 1 ≤ u64_max)
    → Checked addr value size (at s.regs i) (at (check_coherence addr value size s).regs i)
unfolding check_coherence
check_coherence-Checked addr value size s i low fits fits' =
    rw (at-map (coherent_reg addr value size) s.regs i low)
      (coherent_reg-Checked addr value size (at s.regs i) fits fits')

-- What call frame information may do to a register.
pub data Verified (i : ℕ) (r r' : ShadowReg) : Type 0 where
  kept : r' ≡ r → Verified i r r'
  raised :
      is_listed i callee_saved ≡ true
      → rank speculative ≤ rank r.confidence
      → rank r.confidence < rank observed
      → r' ≡ record r { confidence = cfi_verified }
      → Verified i r r'

all_true : (a b c d : Bool) → (a && (b && (c && d))) ≡ true → (b ≡ true) × (c ≡ true) × (d ≡ true)
all_true true true true true e = (refl, refl, refl)
all_true true true true false e = absurd cc
all_true true true false d e = absurd cc
all_true true false c d e = absurd cc
all_true false b c d e = absurd cc

verified_reg-Verified : (i : ℕ) (r : ShadowReg) → Verified i r (verified_reg i r)
verified_reg-Verified i r = elim (Bool-cases (is_verifiable i r)) [
  | inr e ↦ kept (rw e refl)
  | inl e ↦
      let (m, lo, hi) =
        all_true (ltb i reg_count) (is_listed i callee_saved)
          (leb (rank speculative) (rank r.confidence)) (ltb (rank r.confidence) (rank observed))
          e in
      raised m (leb→le _ _ lo) (ltb→lt _ _ hi) (rw e refl)
]

Verified-trans :
    (i : ℕ) (r r' r'' : ShadowReg) → Verified i r r' → Verified i r' r'' → Verified i r r''
Verified-trans i r r' r'' (kept e) v = subst (λ x. Verified i x r'') e v
Verified-trans i r r' r'' (raised m lo hi e) (kept e') = raised m lo hi (e' ∙ e)
Verified-trans i r r' r'' (raised m lo hi e) (raised m' lo' hi' e') =
    raised m lo hi (e' ∙ ap {A = ShadowReg} (λ x. record x { confidence = cfi_verified }) e)

for_each-Verified :
    (indices : List ℕ) (regs : List ShadowReg) (i : ℕ)
    → i < length regs
    → Verified i (at regs i) (at (for_each indices verified_reg regs) i)
for_each-Verified [] regs i h = kept refl
for_each-Verified (j ∷ indices) regs i h = Verified-trans i _ _ _ one (
    for_each-Verified indices (modify j (verified_reg j) regs) i
      (omega (arith, length-modify j (verified_reg j) regs)))
  where
    touched :
        ((j == i) ≡ true) ⊎ ((j == i) ≡ false)
        → Verified i (at regs i) (if j == i then verified_reg j (at regs i) else at regs i)
    touched (inr e) = kept (rw e refl)
    touched (inl e) =
        subst (λ k. Verified i (at regs i) (if k then verified_reg j (at regs i) else at regs i))
          (sym e)
          (subst (λ k. Verified i (at regs i) (verified_reg k (at regs i))) (sym ((==_iff j i).0 e))
            (verified_reg-Verified i (at regs i)))

    one : Verified i (at regs i) (at (modify j (verified_reg j) regs) i)
    one = rw (at-modify j i (verified_reg j) regs h) (touched (Bool-cases (j == i)))

-- After a return with call frame information every register is as after the plain return, but
-- that a register of the callee's may be raised to verified, if it was trusted at least as
-- speculative and not observed; the frames are those of the plain return.
pub on_return_cfi-Verified :
    (seq pc : ℕ) (cfi_saved : List ℕ) (s : ShadowRegisterFile) (i : ℕ)
    → i < length (on_return seq pc s).regs
    → ((on_return_cfi seq pc cfi_saved s).call_stack ≡ (on_return seq pc s).call_stack)
      × Verified i (at (on_return seq pc s).regs i) (at (on_return_cfi seq pc cfi_saved s).regs i)
unfolding on_return_cfi
on_return_cfi-Verified seq pc cfi_saved s i h =
    (refl, for_each-Verified cfi_saved (on_return seq pc s).regs i h)
