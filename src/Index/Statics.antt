-- ===== src/Index/Statics.antt =====
-- The search among the globals and their fields, in engine/src/index.rs.
use rtmap.Base.{
  ℕ, zero, suc, ◌-◌, ◌≤◌, ◌<◌, ◌≡◌, false, ◌&&◌, List, Option, none, some, arith, ltb, ◌==◌,
  get_elem?, if_cases, Option_rule,
}
use rtmap.Index.{Interval, AddressIndex}
use rtmap.Index.Lookup.{dominates, better, walk_back, same_start, lookup_statics, partition_point}

-- The interval stands in its place and holds the address.
unfoldable pub Found : ℕ → List Interval → Option (ℕ × Interval) → Type 0
Found addr statics none = Unit
Found addr statics (some (i, iv)) =
    (get_elem? statics i ≡ some iv) × (iv.lo ≤ addr) × (addr < iv.hi)

module _ (addr : ℕ) (statics : List Interval) where
  better-Found :
      (i : ℕ) (iv : Interval) (best : Option (ℕ × Interval))
      → get_elem? statics i ≡ some iv
      → ltb addr iv.lo ≡ false
      → Found addr statics best
      → Found addr statics (better addr i iv best)
  unfolding Found
  better-Found i iv best at_i low h =
      if_cases (Found addr statics) (ltb addr iv.hi && dominates iv best)
        (λ t. (at_i, ground arith, ground arith)) (λ _. h)

  walk_back-Found :
      (i : ℕ) (best : Option (ℕ × Interval))
      → Found addr statics best
      → Found addr statics (walk_back addr statics i best)
  unfolding walk_back
  walk_back-Found zero best h =
      Option_rule (Found addr statics) (get_elem? statics 0) (λ _. h)
        (λ iv at_0.
          if_cases (Found addr statics) (ltb addr iv.lo) (λ _. h)
            (λ low. better-Found 0 iv best at_0 low h))
  walk_back-Found (suc i) best h =
      Option_rule (Found addr statics) (get_elem? statics (suc i)) (λ _. h)
        (λ iv at_i.
          if_cases (Found addr statics) (ltb addr iv.lo) (λ _. h)
            (λ low.
              let next = better-Found (suc i) iv best at_i low h in
              if_cases (Found addr statics) (same_start statics iv.lo (suc i))
                (λ _. walk_back-Found i (better addr (suc i) iv best) next) (λ _. next)))

pub lookup_statics-Found :
    (addr : ℕ) (ix : AddressIndex) → Found addr ix.statics (lookup_statics addr ix)
unfolding lookup_statics Found
lookup_statics-Found addr ix =
    if_cases (Found addr ix.statics) (partition_point addr ix.statics == 0) (λ _. nothing)
      (λ _. walk_back-Found addr ix.statics (partition_point addr ix.statics - 1) none nothing)
  where
    nothing : Found addr ix.statics none
    nothing = tt
