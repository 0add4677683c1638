-- ===== src/World/ShadowStack.antt =====
-- `ShadowStack` of engine/src/world.rs: the per-thread call stack, with returns that are checked
-- against the callee and `longjmp` unwinding. The head of `frames` is the end of the vector.
pub mod Calls
pub mod Traces
use Prim.Native.String.{String}
use rtmap.Base.{
  ℕ, suc, ◌+◌, List, [], ◌∷◌, Option, none, some, add64, ltb, ◌==◌, if◌then◌else◌, length, drop,
}

pub record ShadowFrame : Type 0 where
  pub frame_id : ℕ
  pub callee_pc : ℕ
  pub name : String

pub record ShadowStack : Type 0 where
  pub frames : List ShadowFrame
  pub mismatches : ℕ
  pub non_local_jumps : ℕ
  pub max_depth : ℕ

pub new : ShadowStack
new = record { frames = []; mismatches = 0; non_local_jumps = 0; max_depth = 0 }

pub push_call : ℕ → ℕ → String → ShadowStack → ShadowStack
push_call frame_id callee_pc name s = record s {
  frames = frames;
  max_depth = if ltb s.max_depth (length frames) then length frames else s.max_depth;
}
  where
    frames : List ShadowFrame
    frames = record { frame_id = frame_id; callee_pc = callee_pc; name = name } ∷ s.frames

abbrev pop_frames : List ShadowFrame → ShadowStack → Option ShadowFrame × ShadowStack
pop_frames [] s = (none, record s { mismatches = add64 s.mismatches 1 })
pop_frames (f ∷ rest) s = (some f, record s { frames = rest })

pub pop_return : ShadowStack → Option ShadowFrame × ShadowStack
pop_return s = pop_frames s.frames s

-- The scan from the frame below the top downwards: how many frames lie above the first match.
pub scan : ℕ → List ShadowFrame → Option ℕ
scan return_pc [] = none
scan return_pc (f ∷ rest) =
    if f.callee_pc == return_pc
    then some 0
    else elim (scan return_pc rest) [ none ↦ none | some k ↦ some (suc k) ]

-- With `k` frames between the top and the match, `len - idx` is `k + 2`, and `truncate(idx)`
-- removes as many.
unwind :
    ShadowStack → ShadowFrame → List ShadowFrame → Option ℕ → Option ShadowFrame × ℕ × ShadowStack
unwind s top rest none =
    (some top, 1, record s { frames = rest; mismatches = add64 s.mismatches 1 })
unwind s top rest (some k) = (
  none,
  k + 2,
  record s { frames = drop (k + 2) s.frames; non_local_jumps = add64 s.non_local_jumps 1 },
)

return_to : ℕ → ShadowStack → List ShadowFrame → Option ShadowFrame × ℕ × ShadowStack
unfolding scan unwind
return_to return_pc s [] = (none, 0, record s { mismatches = add64 s.mismatches 1 })
return_to return_pc s (top ∷ rest) =
    if top.callee_pc == return_pc
    then (some top, 1, record s { frames = rest })
    else unwind s top rest (scan return_pc rest)

pub pop_return_checked : ℕ → ShadowStack → Option ShadowFrame × ℕ × ShadowStack
unfolding return_to
pop_return_checked return_pc s = return_to return_pc s s.frames

unfoldable pub depth : ShadowStack → ℕ
depth s = length s.frames
