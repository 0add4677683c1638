-- ===== src/Ring/Backpressure.antt =====
-- `RingOrchestrator::update_backpressure` and `total_fill` of engine/src/ring.rs.
pub mod Hysteresis
use rtmap.Base.{
  ℕ, ◌+◌, ◌-◌, ◌*◌, ◌/◌, ◌%◌, ◌^◌, List, [], ◌∷◌, map, add64, u64_mod, ltb, leb, if◌then◌else◌,
}

-- The tiers of `RTMAP_BP_TIER_*`.
abbrev pub bp_tier_shed_reads : ℕ
bp_tier_shed_reads = 1

abbrev pub bp_tier_shed_writes : ℕ
bp_tier_shed_writes = 2

-- What is loaded from a ring's header.
pub record Loads : Type 0 where
  pub head : ℕ
  pub tail : ℕ
  pub capacity : ℕ
  pub backpressure : ℕ

-- (An attached ring has a capacity, so that nothing is divided by zero.)
abbrev pub fill_eighths : Loads → ℕ
fill_eighths r = (r.head - r.tail) * 8 % u64_mod / r.capacity

unfoldable pub next_tier : ℕ → ℕ → ℕ
next_tier fill bp =
    if leb 7 fill
    then bp_tier_shed_writes
    else if leb 6 fill
    then bp_tier_shed_reads
    else if ltb fill 3
    then 0
    else bp

-- What each ring's header holds afterwards.
pub update_backpressure : List Loads → List ℕ
unfolding next_tier
update_backpressure rings = map (λ r. next_tier (fill_eighths r) r.backpressure) rings

used : List Loads → ℕ
used [] = 0
used (r ∷ rings) = add64 (r.head - r.tail) (used rings)

capacities : List Loads → ℕ
capacities [] = 0
capacities (r ∷ rings) = add64 r.capacity (capacities rings)

-- The slots in use, and their share of all slots in percent.
pub total_fill : List Loads → ℕ × ℕ
unfolding used capacities
total_fill rings =
    let total_used = used rings in
    let total_cap = capacities rings in
    (total_used, if ltb 0 total_cap then total_used * 100 % u64_mod / total_cap % 2 ^ 32 else 0)
