-- ===== src/World/ShadowStack/Traces.antt =====
-- Traces of calls and returns on the shadow stack of engine/src/world.rs.
use Prim.Native.String.{String}
use rtmap.Base.{
  ℕ, ◌≤◌, ◌≡◌, refl, ap, ◌∙◌, List, [], ◌∷◌, ◌++◌, Option, arith, ==_iff, length, length-append,
}
use rtmap.World.ShadowStack.{
  ShadowFrame, ShadowStack, new, push_call, pop_return, pop_return_checked, depth, return_to,
  pop_frames,
}
use rtmap.World.ShadowStack.Calls.{
  frame, Outcome, empty, matched, jumped, mismatched, pop_return_checked-Outcome,
}

-- The deepest stack so far is recorded.
abbrev pub IsTracked : ShadowStack → Type 0
IsTracked s = depth s ≤ s.max_depth

-- What a thread does to its stack.
pub data Action : Type 0 where
  call : ℕ → ℕ → String → Action
  ret : Action
  ret_to : ℕ → Action

unfoldable pub act : ShadowStack → Action → ShadowStack
act s (call frame_id pc name) = push_call frame_id pc name s
act s ret = (pop_return s).1
act s (ret_to pc) = (pop_return_checked pc s).2

pub run : ShadowStack → List Action → ShadowStack
unfolding act
run s [] = s
run s (a ∷ as_) = run (act s a) as_

-- A trace in which each call is answered by a return to its own callee, calls nested in between.
pub data Balanced : List Action → Type 0 where
  quiet : Balanced []
  nest :
      (frame_id pc : ℕ) (name : String) {body rest : List Action}
      → Balanced body
      → Balanced rest
      → Balanced (call frame_id pc name ∷ (body ++ ret_to pc ∷ rest))

-- Two stacks with the same frames and the same counts of mismatches and jumps.
abbrev pub IsSame : ShadowStack → ShadowStack → Type 0
IsSame s t =
    (s.frames ≡ t.frames) × (s.mismatches ≡ t.mismatches) × (s.non_local_jumps ≡ t.non_local_jumps)

ret_to-top :
    (pc : ℕ) (s : ShadowStack) (f : ShadowFrame) (fs : List ShadowFrame)
    → s.frames ≡ f ∷ fs
    → f.callee_pc ≡ pc
    → act s (ret_to pc) ≡ record s { frames = fs }
unfolding act pop_return_checked return_to
ret_to-top pc s f fs e same =
    ap (λ xs. (return_to pc s xs).2) e ∙ rw ((==_iff f.callee_pc pc).1 same)

run-append : (s : ShadowStack) (xs ys : List Action) → run s (xs ++ ys) ≡ run (run s xs) ys
unfolding run
run-append s [] ys = refl
run-append s (x ∷ xs) ys = run-append (act s x) xs ys

frames-call :
    (s : ShadowStack) (frame_id pc : ℕ) (name : String)
    → let t = act s (call frame_id pc name) in
      (t.frames ≡ frame frame_id pc name ∷ s.frames)
      × (t.mismatches ≡ s.mismatches)
      × (t.non_local_jumps ≡ s.non_local_jumps)
unfolding act push_call
frames-call s frame_id pc name = (refl, refl, refl)

-- A balanced trace leaves the frames as they were, and counts no mismatch and no jump.
pub run-Balanced : {trace : List Action} (s : ShadowStack) → Balanced trace → IsSame (run s trace) s
unfolding run
run-Balanced s quiet = (refl, refl, refl)
run-Balanced s (nest frame_id pc name {body} {rest} inner after) =
    let called = act s (call frame_id pc name) in
    let within = run called body in
    let c = frames-call s frame_id pc name in
    let b = run-Balanced called inner in
    let back : act within (ret_to pc) ≡ record within { frames = s.frames } =
      ret_to-top pc within (frame frame_id pc name) s.frames (b.0 ∙ c.0) refl in
    let r = run-Balanced (record within { frames = s.frames }) after in
    let path = run-append called body (ret_to pc ∷ rest) ∙ ap (λ t. run t rest) back in
    (
      ap (λ t. t.frames) path ∙ r.0,
      ap (λ t. t.mismatches) path ∙ r.1 ∙ b.1 ∙ c.1,
      ap (λ t. t.non_local_jumps) path ∙ r.2 ∙ b.2 ∙ c.2,
    )

act-IsTracked : (s : ShadowStack) (a : Action) → IsTracked s → IsTracked (act s a)
unfolding act push_call depth pop_return
act-IsTracked s (call frame_id pc name) h = ground arith
act-IsTracked s ret h = popped s.frames h h
  where
    popped :
        (fs : List ShadowFrame)
        → length fs ≤ s.max_depth
        → IsTracked s
        → IsTracked (pop_frames fs s).1
    popped [] k t = t
    popped (f ∷ fs) k t = omega arith
act-IsTracked s (ret_to pc) h = returned (pop_return_checked-Outcome pc s)
  where
    returned : {out : Option ShadowFrame × ℕ × ShadowStack} → Outcome pc s out → IsTracked out.2
    returned (empty e q) = rw q h
    returned (matched top rest e same q) = rw q (omega (arith, h, ap length e))
    returned (jumped top above target rest e absent same q) =
        rw q (omega (arith, h, ap length e, length-append above (target ∷ rest)))
    returned (mismatched top rest e absent q) = rw q (omega (arith, h, ap length e))

run-IsTracked : (s : ShadowStack) (trace : List Action) → IsTracked s → IsTracked (run s trace)
unfolding run
run-IsTracked s [] h = h
run-IsTracked s (a ∷ as_) h = run-IsTracked (act s a) as_ (act-IsTracked s a h)

-- Whatever a thread does, the recorded maximum bounds the depth of its stack.
pub run-new-IsTracked : (trace : List Action) → IsTracked (run new trace)
unfolding new depth
run-new-IsTracked trace = run-IsTracked new trace tracked
  where
    tracked : IsTracked new
    tracked = omega arith
