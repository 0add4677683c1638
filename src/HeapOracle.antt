-- ===== src/HeapOracle.antt =====
-- `HeapOracle` of engine/src/heap_graph.rs: which addresses are the heap's.
pub mod Modules
use rtmap.Base.{
  ℕ, ◌+◌, ◌*◌, min, max, Bool, not, ◌&&◌, List, [], ◌∷◌, Option, none, some, ltb, leb, ◌==◌, any,
  saturating_add64, if◌then◌else◌,
}
use rtmap.Base.TreeMap.{TreeMap, get, insert}

-- `binary_search_by` on disjoint ranges in order finds one that holds the address if there is one.
pub record HeapOracle : Type 0 where
  pub module_ranges : List (ℕ × ℕ)
  pub stack_bounds : TreeMap (ℕ × ℕ)

-- `push` and `sort_by_key`, on a list that is in order: the range goes behind those that start no
-- later.
abbrev pub put_range : ℕ × ℕ → List (ℕ × ℕ) → List (ℕ × ℕ)
put_range r [] = r ∷ []
put_range r (q ∷ rs) = if ltb r.0 q.0 then r ∷ q ∷ rs else q ∷ put_range r rs

abbrev pub last_range : List (ℕ × ℕ) → Option (ℕ × ℕ)
last_range [] = none
last_range (r ∷ []) = some r
last_range (r ∷ q ∷ rs) = last_range (q ∷ rs)

-- `last.1 = last.1.max(hi)`
abbrev pub widen_last : ℕ → List (ℕ × ℕ) → List (ℕ × ℕ)
widen_last top [] = []
widen_last top (r ∷ []) = (r.0, max r.1 top) ∷ []
widen_last top (r ∷ q ∷ rs) = r ∷ widen_last top (q ∷ rs)

abbrev pub add_range : ℕ → ℕ → List (ℕ × ℕ) → List (ℕ × ℕ)
add_range base top rs = elim (last_range rs) [
  | none ↦ put_range (base, top) rs
  | some r ↦ if leb base r.1 then widen_last top rs else put_range (base, top) rs
]

pub add_module : ℕ → ℕ → HeapOracle → HeapOracle
add_module base size o =
    if size == 0
    then o
    else record o { module_ranges = add_range base (saturating_add64 base size) o.module_ranges }

abbrev pub in_range : ℕ → ℕ × ℕ → Bool
in_range addr (lo, hi) = leb lo addr && ltb addr hi

abbrev pub in_user_range : ℕ → Bool
in_user_range addr = leb 0x1000 addr && ltb addr 0x0100000000000000

pub is_plausible_ptr : ℕ → Bool
is_plausible_ptr val = in_user_range val

pub is_heap : HeapOracle → ℕ → Bool
is_heap o addr =
    not (any (in_range addr) o.module_ranges)
    && not (any (λ e. in_range addr e.1) o.stack_bounds)
    && in_user_range addr

-- `entry(tid).or_insert((rsp, rsp))`, then widened.
pub update_stack : ℕ → ℕ → HeapOracle → HeapOracle
update_stack tid rsp o =
    let (lo, hi) : ℕ × ℕ = elim (get tid o.stack_bounds) [ none ↦ (rsp, rsp) | some b ↦ b ] in
    record o {
      stack_bounds =
          insert tid (min lo rsp, max hi (saturating_add64 rsp (128 * 1024))) o.stack_bounds;
    }
