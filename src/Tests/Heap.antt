-- ===== src/Tests/Heap.antt =====
-- The allocation tracker of engine/src/world.rs at concrete inputs.
use rtmap.Base.{ℕ, ◌≡◌, refl, [], ◌∷◌, some, none, arith}
use rtmap.World.ShadowTypeMap
use rtmap.World.ShadowTypeMap.{ShadowTypeMap}
use rtmap.World.HeapAllocTracker.{HeapAllocTracker, HeapHazard, check_write_bounds, overflow_hazard}
use rtmap.World.HeapAllocTracker.Bounds.{
  Inside, IsDisjoint, Between, IsHole, check_write_bounds-Inside, check_write_bounds-outside,
}

-- Two blocks with a hole between them.
abbrev blocks : HeapAllocTracker
blocks = record {
  allocs = (0x1000, (32, 0)) ∷ (0x2000, (64, 1)) ∷ [];
  total_allocs = 2;
  total_frees = 0;
  orphan_frees = 0;
  size_mismatches = [];
}

blocks-IsDisjoint : IsDisjoint blocks
blocks-IsDisjoint = record {
  ordered = (omega arith, (omega arith, tt));
  apart = λ a b m n la lb lt. ground (arith, la.1, lb.1);
  ends = λ a m la. ground (arith, la.1);
}

check_write_bounds-Inside_example :
    check_write_bounds 0x1018 16 ShadowTypeMap.new blocks
    ≡ some (record (overflow_hazard 0x1018 16 ShadowTypeMap.new 0x1000 32) { overflow_bytes = 8 })
check_write_bounds-Inside_example =
    check_write_bounds-Inside blocks ShadowTypeMap.new 0x1018 16 0x1000 32 blocks-IsDisjoint
      ((0, refl), omega arith, omega arith) (omega arith)

hole : (base size : ℕ) → ¬ Inside blocks 0x1800 base size
hole base size (live, low, high) = ground (arith, live.1)

check_write_bounds-outside_example :
    (Between blocks 0x1800
      → (h : HeapHazard) × (check_write_bounds 0x1800 8 ShadowTypeMap.new blocks ≡ some h)
        × IsHole 0x1800 8 ShadowTypeMap.new h)
    × (¬ Between blocks 0x1800 → check_write_bounds 0x1800 8 ShadowTypeMap.new blocks ≡ none)
check_write_bounds-outside_example =
    check_write_bounds-outside blocks ShadowTypeMap.new 0x1800 8 blocks-IsDisjoint hole
      (omega arith)
