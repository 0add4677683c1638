-- ===== src/World/ShadowTypeMap.antt =====
-- `ShadowTypeMap` of engine/src/world.rs: which type each stamped heap address has, the pointer
-- writes that wait for a stamp, and the allocations that hold arrays of pointers.
-- Hash maps keyed by an address are the ordered maps of `Base.TreeMap`, since nothing depends on
-- their order.
pub mod Stamps
pub mod Purges
pub mod Covering
pub mod Propagate
use Prim.Native.String.{String}
use text.Mathlib.Text.{◌==◌ as str_eq}
use rtmap.Base.{
  ℕ, ◌+◌, ◌-◌, Bool, true, false, not, ◌&&◌, ◌||◌, List, [], ◌∷◌, ◌++◌, Option, none, some, add64,
  saturating_add16, saturating_add64, ltb, leb, ◌==◌, if◌then◌else◌, length, drop, retain,
}
use rtmap.Base.TreeMap.{TreeMap, get, insert, last_le}
use rtmap.Dwarf.{TypeInfo, name, byte_size}

pub record TypeProjection : Type 0 where
  pub base_addr : ℕ
  pub type_info : TypeInfo
  pub source_name : String
  pub stamp_seq : ℕ

-- A schism and a reuse carry the old type, its source and its sequence number.
pub data StampResult : Type 0 where
  stamped restamped rejected : StampResult
  schism : String → String → ℕ → StampResult
  pool_reuse : String → String → ℕ → StampResult

pub record DeferredWrite : Type 0 where
  pub write_addr : ℕ
  pub write_value : ℕ
  pub seq : ℕ

abbrev pub deferred_cap : ℕ
deferred_cap = 4096

pub record ShadowTypeMap : Type 0 where
  pub projections : TreeMap TypeProjection
  pub indirect : TreeMap TypeInfo
  pub deferred : List DeferredWrite
  pub addr_schisms : TreeMap ℕ
  pub schism_count : ℕ
  pub pool_reuse_count : ℕ
  pub indirect_stamps : ℕ
  pub indirect_registrations : ℕ
  pub deferred_replays : ℕ

pub new : ShadowTypeMap
new = record {
  projections = [];
  indirect = [];
  deferred = [];
  addr_schisms = [];
  schism_count = 0;
  pool_reuse_count = 0;
  indirect_stamps = 0;
  indirect_registrations = 0;
  deferred_replays = 0;
}

abbrev pub get_or_zero : Option ℕ → ℕ
get_or_zero none = 0
get_or_zero (some n) = n

-- `stamp_type` where the address has a projection already.
stamp_over :
    ℕ → TypeInfo → String → ℕ → ShadowTypeMap → TypeProjection → ShadowTypeMap × StampResult
stamp_over target t source seq m existing =
    if str_eq (name existing.type_info) (name t)
    then (m, restamped)
    else if ltb seq existing.stamp_seq
    then (m, rejected)
    else if leb 2 hits
    then (
      record m {
        projections = insert target proj m.projections;
        addr_schisms = insert target hits m.addr_schisms;
        pool_reuse_count = add64 m.pool_reuse_count 1;
      },
      pool_reuse (name existing.type_info) existing.source_name existing.stamp_seq,
    )
    else (
      record m {
        projections = insert target proj m.projections;
        addr_schisms = insert target hits m.addr_schisms;
        schism_count = add64 m.schism_count 1;
      },
      schism (name existing.type_info) existing.source_name existing.stamp_seq,
    )
  where
    hits : ℕ
    hits = saturating_add16 (get_or_zero (get target m.addr_schisms)) 1

    proj : TypeProjection
    proj = record { base_addr = target; type_info = t; source_name = source; stamp_seq = seq }

stamp_found :
    ℕ → TypeInfo → String → ℕ → ShadowTypeMap → Option TypeProjection → ShadowTypeMap × StampResult
unfolding stamp_over
stamp_found target t source seq m (some existing) = stamp_over target t source seq m existing
stamp_found target t source seq m none =
    (record m { projections = insert target proj m.projections }, stamped)
  where
    proj : TypeProjection
    proj = record { base_addr = target; type_info = t; source_name = source; stamp_seq = seq }

pub stamp_type : ℕ → TypeInfo → String → ℕ → ShadowTypeMap → ShadowTypeMap × StampResult
unfolding stamp_found
stamp_type target t source seq m =
    if target == 0 || byte_size t == 0
    then (m, rejected)
    else stamp_found target t source seq m (get target m.projections)

-- The oldest write is evicted from a full buffer.
pub defer_write : ℕ → ℕ → ℕ → ShadowTypeMap → ShadowTypeMap
defer_write addr value seq m = record m {
  deferred =
      (if leb deferred_cap (length m.deferred) then drop 1 m.deferred else m.deferred)
      ++ record { write_addr = addr; write_value = value; seq = seq } ∷ [];
}

-- Whether `base` lies outside the freed range `[addr, addr + size)`, which saturates.
abbrev pub outside : ℕ → ℕ → ℕ → Bool
outside addr size base = ltb base addr || leb (saturating_add64 addr size) base

pub purge_deferred : ℕ → ℕ → ShadowTypeMap → ShadowTypeMap
purge_deferred addr size m = record m {
  deferred = retain (λ d. outside addr size d.write_addr) m.deferred;
}

pub purge_indirect : ℕ → ℕ → ShadowTypeMap → ShadowTypeMap
purge_indirect addr size m = record m { indirect = retain (λ e. outside addr size e.0) m.indirect }

pub purge_range : ℕ → ℕ → ShadowTypeMap → ShadowTypeMap × ℕ
purge_range addr size m =
    let kept = retain (λ (e : ℕ × TypeProjection). outside addr size e.1.base_addr) m.projections in
    (record m { projections = kept }, length m.projections - length kept)

pub register_indirect : ℕ → TypeInfo → ShadowTypeMap → ShadowTypeMap
register_indirect alloc_base element m = record m {
  indirect = insert alloc_base element m.indirect;
}

unfoldable pub lookup : ℕ → ShadowTypeMap → Option TypeProjection
lookup addr m = get addr m.projections

-- `addr < base_addr + byte_size`
abbrev pub in_reach : ℕ → TypeProjection → Bool
in_reach addr p = ltb addr (add64 p.base_addr (byte_size p.type_info))

-- The entry before key `k`: the second item of `range(..=addr).rev()`, if `k` is the first's key.
abbrev pub entry_before : ℕ → TreeMap TypeProjection → Option (ℕ × TypeProjection)
entry_before k m = if k == 0 then none else last_le (k - 1) m

covering_parent : ℕ → Option (ℕ × TypeProjection) → Option TypeProjection
covering_parent addr none = none
covering_parent addr (some (k, p)) = if in_reach addr p then some p else none

covering_from : ℕ → TreeMap TypeProjection → Option (ℕ × TypeProjection) → Option TypeProjection
unfolding covering_parent
covering_from addr m none = none
covering_from addr m (some (k, p)) =
    if in_reach addr p then some p else covering_parent addr (entry_before k m)

pub covering : ℕ → ShadowTypeMap → Option TypeProjection
unfolding covering_from
covering addr m = covering_from addr m.projections (last_le addr m.projections)
