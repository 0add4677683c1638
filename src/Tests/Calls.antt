-- ===== src/Tests/Calls.antt =====
-- The shadow stack of engine/src/world.rs at concrete inputs.
use rtmap.Base.{[], ◌∷◌, List}
use rtmap.World.ShadowStack.{ShadowStack}
use rtmap.World.ShadowStack.Calls.{frame}
use rtmap.World.ShadowStack.Traces.{
  run, Balanced, quiet, nest, call, ret_to, IsSame, run-Balanced, Action,
}

abbrev two_deep : ShadowStack
two_deep = record {
  frames = frame 2 0x20 "insert" ∷ frame 1 0x10 "main" ∷ [];
  mismatches = 0;
  non_local_jumps = 0;
  max_depth = 2;
}

abbrev trace : List Action
trace = call 3 0x30 "malloc" ∷ call 4 0x40 "brk" ∷ ret_to 0x40 ∷ ret_to 0x30 ∷ []

trace-Balanced : Balanced trace
trace-Balanced = nest 3 0x30 "malloc" (nest 4 0x40 "brk" quiet quiet) quiet

run-Balanced_example : IsSame (run two_deep trace) two_deep
run-Balanced_example = run-Balanced two_deep trace-Balanced
