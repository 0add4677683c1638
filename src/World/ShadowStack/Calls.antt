-- ===== src/World/ShadowStack/Calls.antt =====
-- Single calls and returns on the shadow stack of engine/src/world.rs.
use Prim.Native.String.{String}
use rtmap.Base.{
  ℕ, suc, ◌+◌, ◌≡◌, ◌≢◌, refl, ap, ◌∙◌, ◌⊎◌, inl, inr, List, [], ◌∷◌, ◌++◌, Option, none, some,
  arith, add64, ◌==◌, ==_refl, ==_iff, Bool-cases, length, drop, All, max,
}
use rtmap.World.ShadowStack.{
  ShadowFrame, ShadowStack, push_call, pop_return, pop_return_checked, scan, depth, return_to,
  unwind,
}

abbrev pub frame : ℕ → ℕ → String → ShadowFrame
frame frame_id callee_pc name = record { frame_id = frame_id; callee_pc = callee_pc; name = name }

-- A return to the callee that was called last takes off exactly its frame: both kinds of return
-- answer that frame and leave the frames and the counters as they were before the call.
pub pop_return-push_call :
    (frame_id pc : ℕ) (name : String) (s : ShadowStack)
    → let called = push_call frame_id pc name s in
      (pop_return called
        ≡ (some (frame frame_id pc name), record s { max_depth = max s.max_depth (depth s + 1) }))
      × (pop_return_checked pc called ≡ (
        some (frame frame_id pc name),
        1,
        record s { max_depth = max s.max_depth (depth s + 1) },
      ))
unfolding pop_return pop_return_checked push_call depth
pop_return-push_call frame_id pc name s = ground (arith, ==_refl pc)

-- No frame of the list was called at `pc`.
abbrev pub Absent : ℕ → List ShadowFrame → Type 0
Absent pc = All (λ f. f.callee_pc ≢ pc)

-- How a checked return may turn out, by the frames before it.
pub data Outcome (pc : ℕ) (s : ShadowStack) (out : Option ShadowFrame × ℕ × ShadowStack)
    : Type 0 where
  -- the stack was empty
  empty :
      s.frames ≡ []
      → out ≡ (none, 0, record s { mismatches = add64 s.mismatches 1 })
      → Outcome pc s out
  -- the callee on top returned
  matched :
      (top : ShadowFrame) (rest : List ShadowFrame)
      → s.frames ≡ top ∷ rest
      → top.callee_pc ≡ pc
      → out ≡ (some top, 1, record s { frames = rest })
      → Outcome pc s out
  -- a jump to a callee further down: the frames above it and its own go
  jumped :
      (top : ShadowFrame) (above : List ShadowFrame) (target : ShadowFrame)
      (rest : List ShadowFrame)
      → s.frames ≡ top ∷ (above ++ target ∷ rest)
      → Absent pc (top ∷ above)
      → target.callee_pc ≡ pc
      → out ≡ (
        none,
        length above + 2,
        record s { frames = rest; non_local_jumps = add64 s.non_local_jumps 1 },
      )
      → Outcome pc s out
  -- no callee of the stack is returned to: one frame goes, and the mismatch is counted
  mismatched :
      (top : ShadowFrame) (rest : List ShadowFrame)
      → s.frames ≡ top ∷ rest
      → Absent pc (top ∷ rest)
      → out ≡ (some top, 1, record s { frames = rest; mismatches = add64 s.mismatches 1 })
      → Outcome pc s out

-- The first match of a list, with the frames above and below it.
Split : ℕ → List ShadowFrame → Type 0
Split pc fs =
    (above : List ShadowFrame) × (target : ShadowFrame) × (rest : List ShadowFrame) × (scan pc fs
      ≡ some (length above))
    × (fs ≡ above ++ target ∷ rest)
    × Absent pc above
    × (target.callee_pc ≡ pc)

scan_lem : (pc : ℕ) (fs : List ShadowFrame) → ((scan pc fs ≡ none) × Absent pc fs) ⊎ Split pc fs
unfolding scan Split
scan_lem pc [] = inl (refl, tt)
scan_lem pc (f ∷ fs) = elim (Bool-cases (f.callee_pc == pc)) [
  | inl e ↦ inr ([], f, fs, rw e, refl, tt, (==_iff f.callee_pc pc).0 e)
  | inr ne ↦
      let other : f.callee_pc ≢ pc = λ e. cc ((==_iff f.callee_pc pc).1 e) in
      elim (scan_lem pc fs) [
        | inl (missing, absent) ↦ inl (rw (ne, missing), (other, absent))
        | inr (above, target, rest, hit, split, absent, same) ↦
            inr (f ∷ above, target, rest, rw (ne, hit), ap (◌∷◌ f) split, (other, absent), same)
      ]
]

drop-past :
    (top : ShadowFrame) (above : List ShadowFrame) (target : ShadowFrame) (rest : List ShadowFrame)
    → drop (length above + 2) (top ∷ (above ++ target ∷ rest)) ≡ rest
drop-past top above target rest =
    let two : length above + 2 ≡ suc (suc (length above)) = omega arith in rw two (past above)
  where
    past : (xs : List ShadowFrame) → drop (suc (length xs)) (xs ++ target ∷ rest) ≡ rest
    past [] = refl
    past (x ∷ xs) = past xs

return_to-Outcome :
    (pc : ℕ) (s : ShadowStack) (fs : List ShadowFrame)
    → s.frames ≡ fs
    → Outcome pc s (return_to pc s fs)
unfolding return_to Split
return_to-Outcome pc s [] e = empty e refl
return_to-Outcome pc s (top ∷ rest) e = elim (Bool-cases (top.callee_pc == pc)) [
  | inl same ↦ matched top rest e ((==_iff top.callee_pc pc).0 same) (rw same)
  | inr ne ↦
      let other : top.callee_pc ≢ pc = λ q. cc ((==_iff top.callee_pc pc).1 q) in
      elim (scan_lem pc rest) [
        | inl (missing, absent) ↦ mismatched top rest e (other, absent) (rw (ne, missing, unwind))
        | inr (above, target, below, hit, split, absent, same) ↦
            let whole : s.frames ≡ top ∷ (above ++ target ∷ below) = e ∙ ap (◌∷◌ top) split in
            jumped top above target below whole (other, absent) same
              (rw (ne, hit, unwind, whole, drop-past top above target below))
      ]
]

-- A checked return has one of four outcomes, told apart by the frames alone: an empty stack; the
-- top callee returning; a jump, which takes off the frames down to and with the nearest callee
-- that matches; and a mismatch, only where no frame matches, which takes off one frame.
pub pop_return_checked-Outcome : (pc : ℕ) (s : ShadowStack) → Outcome pc s (pop_return_checked pc s)
unfolding pop_return_checked
pop_return_checked-Outcome pc s = return_to-Outcome pc s s.frames refl
