-- ===== src/ShadowRegs/Calls.antt =====
-- The loops of `on_call` and `on_return` of engine/src/shadow_regs.rs, register by register.
use rtmap.Base.{
  ℕ, zero, suc, ◌<◌, ◌≡◌, refl, sym, ap, ◌∙◌, Bool, true, false, not, ◌&&◌, ◌||◌, List, [], ◌∷◌,
  arith, ◌==◌, ==_iff, if◌then◌else◌, length, Bool-cases, ◌⊎◌, inl, inr,
}
use rtmap.ShadowRegs.{
  ShadowReg, ShadowFrame, ShadowRegisterFile, reg_count, callee_saved, caller_saved, at, modify,
  for_each, is_listed, return_frames, result_reg,
}

pub length-modify :
    (i : ℕ) (f : ShadowReg → ShadowReg) (regs : List ShadowReg)
    → length (modify i f regs) ≡ length regs
length-modify i f [] = refl
length-modify zero f (r ∷ regs) = refl
length-modify (suc i) f (r ∷ regs) = ap suc (length-modify i f regs)

pub at-modify :
    (i j : ℕ) (f : ShadowReg → ShadowReg) (regs : List ShadowReg)
    → j < length regs
    → at (modify i f regs) j ≡ (if i == j then f (at regs j) else at regs j)
at-modify i j f [] h = elim h [ ]
at-modify zero zero f (r ∷ regs) h = ground arith
at-modify zero (suc j) f (r ∷ regs) h = ground arith
at-modify (suc i) zero f (r ∷ regs) h = ground arith
at-modify (suc i) (suc j) f (r ∷ regs) h = at-modify i j f regs (omega arith) ∙ ground arith

pub length-for_each :
    (indices : List ℕ) (f : ℕ → ShadowReg → ShadowReg) (regs : List ShadowReg)
    → length (for_each indices f regs) ≡ length regs
length-for_each [] f regs = refl
length-for_each (i ∷ indices) f regs =
    length-for_each indices f (modify i (f i) regs) ∙ length-modify i (f i) regs

-- No index comes twice.
abbrev IsDistinct : List ℕ → Type 0
IsDistinct [] = Unit
IsDistinct (i ∷ indices) = (is_listed i indices ≡ false) × IsDistinct indices

pub at-for_each :
    (indices : List ℕ) (f : ℕ → ShadowReg → ShadowReg) (regs : List ShadowReg) (j : ℕ)
    → IsDistinct indices
    → j < length regs
    → at (for_each indices f regs) j ≡ (if is_listed j indices then f j (at regs j) else at regs j)
at-for_each [] f regs j d h = refl
at-for_each (i ∷ indices) f regs j d h =
    at-for_each indices f (modify i (f i) regs) j d.1 (omega (arith, length-modify i (f i) regs))
    ∙ touched (Bool-cases (i == j)) (at-modify i j (f i) regs h)
  where
    touched :
        ((i == j) ≡ true) ⊎ ((i == j) ≡ false)
        → at (modify i (f i) regs) j ≡ (if i == j then f i (at regs j) else at regs j)
        → (if is_listed j indices
            then f j (at (modify i (f i) regs) j)
            else at (modify i (f i) regs) j)
          ≡ (if is_listed j (i ∷ indices) then f j (at regs j) else at regs j)
    touched (inr e) m = rw (m, e) refl
    touched (inl e) m =
        let same : i ≡ j = (==_iff i j).0 e in
        let absent : is_listed j indices ≡ false = ap (λ k. is_listed k indices) (sym same) ∙ d.0 in
        rw (m, e, absent) (ap (λ k. f k (at regs j)) same)

-- The registers that a return restores from the frame of the call: all but the return value in
-- rax, the stack pointer, the program counter and the flags.
abbrev pub is_restored : ℕ → Bool
is_restored i = is_listed i callee_saved || (is_listed i caller_saved && not (i == 0))

pub callee_saved-IsDistinct : IsDistinct callee_saved
callee_saved-IsDistinct = (refl, (refl, (refl, (refl, (refl, (refl, tt))))))

caller_saved-IsDistinct : IsDistinct caller_saved
caller_saved-IsDistinct = (refl, (refl, (refl, (refl, (refl, (refl, (refl, (refl, (refl, tt)))))))))

pub at-return :
    (seq pc : ℕ) (frame : ShadowFrame) (rest : List ShadowFrame) (s : ShadowRegisterFile) (i : ℕ)
    → length s.regs ≡ reg_count
    → i < reg_count
    → at (return_frames seq pc (frame ∷ rest) s).regs i ≡ (
        if is_restored i
        then at frame.saved_regs i
        else if i == 0
        then result_reg frame.callee_pc seq pc (at s.regs i)
        else at s.regs i)
unfolding return_frames
at-return seq pc frame rest s i size low =
    let saved = λ (idx : ℕ) (r : ShadowReg). at frame.saved_regs idx in
    let result = result_reg frame.callee_pc seq pc in
    let last = λ (idx : ℕ) (r : ShadowReg). if idx == 0 then r else at frame.saved_regs idx in
    let restored = for_each callee_saved saved s.regs in
    let n = length-for_each callee_saved saved s.regs in
    let m = length-modify 0 result restored in
    let a = at-for_each callee_saved saved s.regs i callee_saved-IsDistinct (omega arith) in
    let b = at-modify 0 i result restored (omega arith) in
    let c =
      at-for_each caller_saved last (modify 0 result restored) i caller_saved-IsDistinct
        (omega arith) in
    c ∙ joined i _ _ _ (at frame.saved_regs i) result (at s.regs i) refl b a
  where
    joined :
        (i : ℕ) (cr br ar y : ShadowReg) (result : ShadowReg → ShadowReg) (x : ShadowReg)
        → cr ≡ (if is_listed i caller_saved then (if i == 0 then br else y) else br)
        → br ≡ (if 0 == i then result ar else ar)
        → ar ≡ (if is_listed i callee_saved then y else x)
        → cr ≡ (if is_restored i then y else if i == 0 then result x else x)
    joined zero cr br ar y result x c b a = c ∙ b ∙ ap result a
    joined (suc i) cr br ar y result x c b a = ground (arith, a, b, c)
