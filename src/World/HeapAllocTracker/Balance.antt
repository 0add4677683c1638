-- ===== src/World/HeapAllocTracker/Balance.antt =====
-- Traces of allocations and frees on the heap tracker of engine/src/world.rs, and its counters.
use rtmap.Base.{
  ℕ, ◌+◌, ◌≤◌, ◌<◌, ◌≡◌, refl, ap, ◌∙◌, List, [], ◌∷◌, Option, none, some, arith, add64, u64_mod,
  if◌then◌else◌, ◌==◌, length, All, is_some,
}
use Prim.Native.Nat.add
use native.Mathlib.Nat.{add_assoc, add-zero}
use rtmap.Base.TreeMap.{
  TreeMap, IsOrdered, insert-Above, remove-Above, length-insert, length-remove, insert-All,
  remove-All, get-insert, get-remove,
}
use rtmap.World.HeapAllocTracker.{HeapAllocTracker, on_alloc, on_free, alloc_size, live_count}

pub data HeapOp : Type 0 where
  alloc : ℕ → ℕ → HeapOp
  free : ℕ → HeapOp

pub apply : HeapOp → HeapAllocTracker → HeapAllocTracker
apply (alloc addr size) t = (on_alloc addr size t).0
apply (free addr) t = (on_free addr t).0

pub run : List HeapOp → HeapAllocTracker → HeapAllocTracker
unfolding apply
run [] t = t
run (op ∷ ops) t = run ops (apply op t)

-- The allocations of a trace that take over an address which was live: `on_alloc` answers the old
-- size.
abbrev pub reused : HeapOp → HeapAllocTracker → ℕ
reused (alloc addr size) t = if is_some (on_alloc addr size t).1 then 1 else 0
reused (free addr) t = 0

pub reuses : List HeapOp → HeapAllocTracker → ℕ
unfolding apply
reuses [] t = 0
reuses (op ∷ ops) t = reused op t + reuses ops (apply op t)

-- `n` addresses have been taken over so far.
pub record IsBalanced (n : ℕ) (t : HeapAllocTracker) : Type 0 where
  pub ordered : IsOrdered t.allocs
  pub balanced : live_count t + t.total_frees + n ≡ t.total_allocs + t.orphan_frees
  pub orphans : t.orphan_frees ≤ t.total_frees
  pub numbered : All (λ e. e.1.1 < t.total_allocs) t.allocs

All-mono :
    (m n : ℕ) (xs : TreeMap (ℕ × ℕ)) → m ≤ n → All (λ e. e.1.1 < m) xs → All (λ e. e.1.1 < n) xs
All-mono m n [] le a = tt
All-mono m n (x ∷ xs) le a = (omega (arith, a.0), All-mono m n xs le a.1)

alloc-IsBalanced :
    (n addr size : ℕ) (t : HeapAllocTracker)
    → t.total_allocs + 1 < u64_mod
    → IsBalanced n t
    → IsBalanced (n + reused (alloc addr size) t) (on_alloc addr size t).0
unfolding on_alloc live_count
alloc-IsBalanced n addr size t small b =
    let grown = length-insert 0 addr (size, t.total_allocs) t.allocs b.ordered in
    let next : add64 t.total_allocs 1 ≡ t.total_allocs + 1 = omega arith in
    record {
      ordered = insert-Above 0 addr _ t.allocs (omega arith) b.ordered;
      balanced = ground (arith, grown, b.balanced, next);
      orphans = b.orphans;
      numbered = rw next (
          insert-All _ addr _ t.allocs (omega arith)
            (All-mono t.total_allocs (t.total_allocs + 1) t.allocs (omega arith) b.numbered));
    }

free-IsBalanced :
    (n addr : ℕ) (t : HeapAllocTracker)
    → t.total_frees + 1 < u64_mod
    → IsBalanced n t
    → IsBalanced n (on_free addr t).0
unfolding on_free live_count
free-IsBalanced n addr t small b =
    let shrunk = length-remove 0 addr t.allocs b.ordered in
    record {
      ordered = remove-Above 0 addr t.allocs b.ordered;
      balanced = ground (arith, shrunk, b.balanced, b.orphans);
      orphans = ground (arith, b.orphans);
      numbered = remove-All _ addr t.allocs b.numbered;
    }

-- Over any trace short enough for the 64-bit counters, every allocation is accounted for: the live
-- allocations, the frees that hit one and the addresses taken over make up all allocations made.
-- Each live allocation has a sequence number that was given out.
pub run-IsBalanced :
    (n : ℕ) (ops : List HeapOp) (t : HeapAllocTracker)
    → t.total_allocs + length ops < u64_mod
    → t.total_frees + length ops < u64_mod
    → IsBalanced n t
    → IsBalanced (n + reuses ops t) (run ops t)
unfolding run reuses apply
run-IsBalanced n [] t a f b = rw (add-zero n) b
run-IsBalanced n (alloc addr size ∷ ops) t a f b =
    let step = alloc-IsBalanced n addr size t (omega arith) b in
    let t' = (on_alloc addr size t).0 in
    rw (← add_assoc n (reused (alloc addr size) t) (reuses ops t')) (
      run-IsBalanced (n + reused (alloc addr size) t) ops t' (unfold on_alloc in omega arith)
        (unfold on_alloc in omega arith) step)
run-IsBalanced n (free addr ∷ ops) t a f b =
    let t' = (on_free addr t).0 in
    rw add.zero (
      run-IsBalanced n ops t' (unfold on_free in omega arith) (unfold on_free in omega arith)
        (free-IsBalanced n addr t (omega arith) b))

-- What a trace says of an address: the size of the last allocation, unless it was freed since.
pub last_size : ℕ → Option ℕ → List HeapOp → Option ℕ
last_size addr size [] = size
last_size addr size (alloc a s ∷ ops) = last_size addr (if a == addr then some s else size) ops
last_size addr size (free a ∷ ops) = last_size addr (if a == addr then none else size) ops

-- The tracker remembers, for every address, the size that the trace gives it last.
pub alloc_size-run :
    (addr : ℕ) (ops : List HeapOp) (t : HeapAllocTracker)
    → alloc_size addr (run ops t) ≡ last_size addr (alloc_size addr t) ops
unfolding run last_size apply
alloc_size-run addr [] t = refl
alloc_size-run addr (alloc a s ∷ ops) t =
    alloc_size-run addr ops (on_alloc a s t).0 ∙ ap (λ o. last_size addr o ops) after
  where
    after : alloc_size addr (on_alloc a s t).0 ≡ (if a == addr then some s else alloc_size addr t)
    after =
        unfold alloc_size on_alloc in ground (arith, get-insert a addr (s, t.total_allocs) t.allocs)
alloc_size-run addr (free a ∷ ops) t =
    alloc_size-run addr ops (on_free a t).0 ∙ ap (λ o. last_size addr o ops) after
  where
    after : alloc_size addr (on_free a t).0 ≡ (if a == addr then none else alloc_size addr t)
    after = unfold alloc_size on_free in ground (arith, get-remove a addr t.allocs)
